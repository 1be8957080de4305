-- ===== src/AddressBook/Remove.antt =====
-- exercise01/task1/addressbook.c, `remove_contact`.
use ps_os.Base.{
  ℕ, zero, suc, ◌≤◌, ◌≡◌, ◌≢◌, refl, subst, arith, true, false, none, some, List, [], ◌∷◌, ◌==◌,
  if◌then◌else◌, length, elem, ℕ_discrete,
}
use ps_os.AddressBook.Chain.{Chain, Distinct, contents}
use ps_os.AddressBook.Append.{InBook}
use ps_os.AddressBook.{
  Store, AddressBook, set_next, free_node, free_contact, remove_loop, remove_contact,
}

-- The list without the first entry for the contact.
abbrev pub without : ℕ → List ℕ → List ℕ
without contact [] = []
without contact (x ∷ xs) = if x == contact then xs else x ∷ without contact xs

-- What `remove_contact` makes of the entries: the first is never looked at, and goes with the second
-- when that is the contact.
abbrev pub removed : ℕ → List ℕ → List ℕ
removed contact (x ∷ (y ∷ rest)) = if y == contact then rest else x ∷ y ∷ without contact rest
removed contact xs = xs

Chain-same :
    (m m' : Store) (p : ℕ) (ns : List ℕ)
    → Chain m p ns
    → m.fresh_node ≡ m'.fresh_node
    → ((a : ℕ) → elem a ns ≡ true → (m'.nodes a ≡ m.nodes a) × (m'.node_live a ≡ m.node_live a))
    → Chain m' p ns × (contents m' ns ≡ contents m ns)
Chain-same m m' p [] chain fresh same = (chain, refl)
Chain-same m m' p (a ∷ ns) chain fresh same =
    let rest : (b : ℕ)
        → elem b ns ≡ true
        → (m'.nodes b ≡ m.nodes b) × (m'.node_live b ≡ m.node_live b) =
      λ b h. same b (ground arith) in
    ground (arith, same a, Chain-same m m' (m.nodes a).next ns (ground arith) fresh rest)

-- Behind node `q` the nodes `old` have become `new`, and nothing else has changed.
record Shortened (m m' : Store) (q contact : ℕ) (old new : List ℕ) : Type 0 where
  chain : Chain m' q (q ∷ new)
  told : contents m' (q ∷ new) ≡ (m.nodes q).data_of ∷ without contact (contents m old)
  distinct : Distinct new
  inside : (x : ℕ) → elem x old ≡ false → elem x new ≡ false
  frame :
      (x : ℕ)
      → elem x (q ∷ old) ≡ false
      → (m'.nodes x ≡ m.nodes x) × (m'.node_live x ≡ m.node_live x)
  fresh : m'.fresh_node ≡ m.fresh_node

unlinked : Store → ℕ → ℕ → Store
unlinked m q b = free_node (free_contact (set_next m q (m.nodes b).next) (m.nodes b).data_of) b

unlink-Shortened :
    (m : Store) (q b : ℕ) (ns : List ℕ)
    → Chain m q (q ∷ b ∷ ns)
    → Distinct (q ∷ b ∷ ns)
    → Shortened m (unlinked m q b) q (m.nodes b).data_of (b ∷ ns) ns
unfolding unlinked
unlink-Shortened m q b ns chain distinct =
    let (rest, same) =
      Chain-same m (unlinked m q b) (m.nodes b).next ns (ground arith) refl (λ a h. ground arith) in
    record {
      chain = ground (arith, rest);
      told = ground (arith, same);
      distinct = ground arith;
      inside = λ x h. ground arith;
      frame = λ x h. ground arith;
      fresh = refl;
    }

keep-Shortened :
    (m : Store) (q contact : ℕ) (b : ℕ)
    → Chain m q (q ∷ b ∷ [])
    → Distinct (q ∷ b ∷ [])
    → (m.nodes b).data_of ≢ contact
    → Shortened m m q contact (b ∷ []) (b ∷ [])
keep-Shortened m q contact b chain distinct other = record {
  chain = chain;
  told = ground arith;
  distinct = ground arith;
  inside = λ x h. h;
  frame = λ x h. (refl, refl);
  fresh = refl;
}

pass-Shortened :
    (m m' : Store) (q contact b c : ℕ) (ns new : List ℕ)
    → Chain m q (q ∷ b ∷ c ∷ ns)
    → Distinct (q ∷ b ∷ c ∷ ns)
    → (m.nodes b).data_of ≢ contact
    → Shortened m m' b contact (c ∷ ns) new
    → Shortened m m' q contact (b ∷ c ∷ ns) (b ∷ new)
pass-Shortened m m' q contact b c ns new chain distinct other sh = record {
  chain = ground (arith, sh.chain, sh.frame q, sh.fresh);
  told = ground (arith, sh.told, sh.frame q);
  distinct = ground (arith, sh.distinct, sh.inside b);
  inside = λ x h. ground (arith, sh.inside x);
  frame = λ x h. ground (arith, sh.frame x);
  fresh = sh.fresh;
}

abbrev LoopShortens : ℕ → Store → (q contact b : ℕ) → List ℕ → Type 0
LoopShortens fuel m q contact b ns =
    (m' : Store) × (new : List ℕ) × (remove_loop fuel m contact q b ≡ some m')
    × Shortened m m' q contact (b ∷ ns) new

found-LoopShortens :
    (fuel : ℕ) (m : Store) (q contact b : ℕ) (ns : List ℕ)
    → Chain m q (q ∷ b ∷ ns)
    → Distinct (q ∷ b ∷ ns)
    → (m.nodes b).data_of ≡ contact
    → LoopShortens (suc fuel) m q contact b ns
unfolding remove_loop unlinked
found-LoopShortens fuel m q contact b ns chain distinct found = (
  unlinked m q b,
  ns,
  ground arith,
  subst (λ d. Shortened m (unlinked m q b) q d (b ∷ ns) ns) found
      (unlink-Shortened m q b ns chain distinct),
)

remove_loop-Shortened :
    (fuel : ℕ) (m : Store) (q contact b : ℕ) (ns : List ℕ)
    → Chain m q (q ∷ b ∷ ns)
    → Distinct (q ∷ b ∷ ns)
    → length (b ∷ ns) ≤ fuel
    → LoopShortens fuel m q contact b ns
unfolding remove_loop
remove_loop-Shortened zero m q contact b ns chain distinct enough = absurd (omega arith)
remove_loop-Shortened (suc fuel) m q contact b [] chain distinct enough =
    elim (ℕ_discrete (m.nodes b).data_of contact) [
      | yes found ↦ found-LoopShortens fuel m q contact b [] chain distinct found
      | no other ↦ (m, b ∷ [], ground arith, keep-Shortened m q contact b chain distinct other)
    ]
remove_loop-Shortened (suc fuel) m q contact b (c ∷ ns) chain distinct enough =
    let (m', new, runs, sh) =
      remove_loop-Shortened fuel m b contact c ns (ground arith) (ground arith) (omega arith) in
    elim (ℕ_discrete (m.nodes b).data_of contact) [
      | yes found ↦ found-LoopShortens fuel m q contact b (c ∷ ns) chain distinct found
      | no other ↦ (
        m',
        b ∷ new,
        ground arith,
        pass-Shortened m m' q contact b c ns new chain distinct other sh,
      )
    ]

remove_loop-previous :
    (fuel : ℕ) (m : Store) (q q' contact b : ℕ)
    → (m.nodes b).data_of ≢ contact
    → remove_loop fuel m contact q b ≡ remove_loop fuel m contact q' b
unfolding remove_loop
remove_loop-previous zero m q q' contact b other = refl
remove_loop-previous (suc fuel) m q q' contact b other = ground arith

-- `remove_contact` on a book that has not just one contact returns. It takes out the first entry for
-- the contact among those behind the second; an entry that is second goes together with the first,
-- and an entry that is first stays.
pub remove_contact_lem :
    (fuel : ℕ) (m : Store) (book : AddressBook) (ns : List ℕ) (contact : ℕ)
    → InBook m book ns
    → length ns ≤ fuel
    → length ns ≢ 1
    → (m' : Store) × (book' : AddressBook) × (ns' : List ℕ) × (remove_contact fuel m book contact
        ≡ some (m', book'))
      × InBook m' book' ns'
      × (contents m' ns' ≡ removed contact (contents m ns))
unfolding remove_contact
remove_contact_lem fuel m book [] contact inv enough several =
    (m, book, [], ground (arith, inv.chain), inv, refl)
remove_contact_lem fuel m book (a ∷ []) contact inv enough several = absurd (omega arith)
remove_contact_lem fuel m book (a ∷ (b ∷ ns)) contact inv enough several =
    elim (ℕ_discrete (m.nodes b).data_of contact) [
      | yes found ↦ (
        m,
        record { head = (m.nodes b).next },
        ns,
        ground (arith, inv.chain),
        record {
          chain = ground (arith, inv.chain);
          distinct = ground (arith, inv.distinct);
          started = inv.started;
        },
        ground arith,
      )
      | no other ↦
          let (m', new, runs, sh) =
            remove_loop-Shortened fuel m a contact b ns (ground (arith, inv.chain)) (inv.distinct)
              (omega arith) in
          (
            m',
            book,
            a ∷ new,
            ground (arith, inv.chain, remove_loop-previous fuel m a 0 contact b other),
            record {
              chain = ground (arith, sh.chain, inv.chain);
              distinct = ground (arith, sh.distinct, sh.inside a, inv.distinct);
              started = ground (arith, inv.started, sh.fresh);
            },
            ground (arith, sh.told),
          )
    ]

-- On a book with one contact it goes through a `NULL` pointer, whichever contact is to be removed.
remove_contact_crashes :
    (fuel : ℕ) (m : Store) (book : AddressBook) (a contact : ℕ)
    → InBook m book (a ∷ [])
    → remove_contact fuel m book contact ≡ none
unfolding remove_contact
remove_contact_crashes fuel m book a contact inv = ground (arith, inv.chain)
