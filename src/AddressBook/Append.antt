-- ===== src/AddressBook/Append.antt =====
-- exercise01/task1/addressbook.c, `add_contact` and `count_contacts`.
use ps_os.Base.{
  ℕ, zero, suc, ◌+◌, ◌%◌, ◌^◌, ◌≤◌, ◌<◌, ◌≡◌, ◌≢◌, arith, false, some, List, [], ◌∷◌, ◌++◌, length,
  elem,
}
use ps_os.AddressBook.Chain.{
  Chain, Distinct, contents, Chain-frame, Chain-fresh, last_of, last_node-last_of,
  set_next-Extended,
}
use ps_os.AddressBook.{
  Store, AddressBook, set_next, new_node, add_contact, count_loop, count_contacts,
}

-- A book whose nodes are these, in this order.
pub record InBook (m : Store) (book : AddressBook) (ns : List ℕ) : Type 0 where
  pub chain : Chain m (book.head) ns
  pub distinct : Distinct ns
  pub started : 0 < m.fresh_node

Distinct-append : (ns : List ℕ) (x : ℕ) → Distinct ns → elem x ns ≡ false → Distinct (ns ++ x ∷ [])
Distinct-append [] x distinct apart = ground arith
Distinct-append (a ∷ ns) x distinct apart = ground (arith, Distinct-append ns x, elem-end ns a x)
  where
    elem-end : (ns : List ℕ) (a x : ℕ) → elem a ns ≡ false → a ≢ x → elem a (ns ++ x ∷ []) ≡ false
    elem-end [] a x apart other = ground arith
    elem-end (b ∷ ns) a x apart other = ground (arith, elem-end ns a x)

-- `add_contact` on a book of any length returns, and has put the contact behind the others.
pub add_contact_lem :
    (fuel : ℕ) (m : Store) (book : AddressBook) (ns : List ℕ) (contact : ℕ)
    → InBook m book ns
    → length ns ≤ fuel
    → (m' : Store) × (book' : AddressBook) × (add_contact fuel m book contact ≡ some (m', book'))
      × InBook m' book' (ns ++ m.fresh_node ∷ [])
      × (contents m' (ns ++ m.fresh_node ∷ []) ≡ contents m ns ++ contact ∷ [])
unfolding add_contact
add_contact_lem fuel m book [] contact inv enough = (
  new_node m contact,
  record { head = m.fresh_node },
  ground (arith, inv.chain),
  record { chain = ground (arith, inv.started); distinct = ground arith; started = omega arith },
  ground arith,
)
add_contact_lem fuel m book (a ∷ ns) contact inv enough =
    let x : ℕ = m.fresh_node in
    let m1 = new_node m contact in
    let apart = Chain-fresh m (book.head) (a ∷ ns) x (inv.chain) (omega arith) in
    let (chain1, same) =
      Chain-frame m m1 (book.head) (a ∷ ns) x (inv.chain) apart (omega arith)
        (λ b other. ground arith) in
    let last = last_node-last_of fuel m1 (book.head) a ns chain1 enough in
    let (extended, told) =
      set_next-Extended m1 (book.head) a ns x chain1 (inv.distinct) apart
        (ground (arith, inv.started)) in
    (
      set_next m1 (last_of a ns) x,
      book,
      ground (arith, last, inv.chain),
      record {
        chain = extended;
        distinct = Distinct-append (a ∷ ns) x (inv.distinct) apart;
        started = omega arith;
      },
      ground (arith, told, same),
    )

count_loop-length :
    (fuel : ℕ) (m : Store) (p a : ℕ) (ns : List ℕ) (count : ℕ)
    → Chain m p (a ∷ ns)
    → length (a ∷ ns) ≤ fuel
    → count < 2 ^ 64
    → count_loop fuel m p count ≡ some ((count + length ns) % 2 ^ 64)
unfolding count_loop
count_loop-length zero m p a ns count chain enough small = absurd (omega arith)
count_loop-length (suc fuel) m p a [] count chain enough small = ground arith
count_loop-length (suc fuel) m p a (b ∷ ns) count chain enough small =
    ground (arith, count_loop-length fuel m (m.nodes a).next b ns ((count + 1) % 2 ^ 64))

-- `count_contacts` returns, and gives the number of contacts as a `size_t`.
count_contacts_lem :
    (fuel : ℕ) (m : Store) (book : AddressBook) (ns : List ℕ)
    → InBook m book ns
    → length ns ≤ fuel
    → count_contacts fuel m book ≡ some (length ns % 2 ^ 64)
unfolding count_contacts
count_contacts_lem fuel m book [] inv enough = ground (arith, inv.chain)
count_contacts_lem fuel m book (a ∷ ns) inv enough =
    ground (arith, inv.chain, count_loop-length fuel m (book.head) a ns 1)
