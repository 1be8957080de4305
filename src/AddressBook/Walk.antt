-- ===== src/AddressBook/Walk.antt =====
-- exercise01/task1/addressbook.c: the functions that go through the whole book.
use ps_os.Base.{ℕ, zero, suc, ◌≤◌, ◌≡◌, arith, true, some, List, [], ◌∷◌, map, All, length}
use ps_os.AddressBook.Append.{InBook}
use ps_os.AddressBook.Chain.{Chain, contents}
use ps_os.AddressBook.{
  Store, AddressBook, print_loop, print_address_book, free_loop, free_address_book,
}

print_loop-contents :
    (fuel : ℕ) (m : Store) (p : ℕ) (ns : List ℕ)
    → Chain m p ns
    → length ns ≤ fuel
    → print_loop fuel m p ≡ some (map m.contacts (contents m ns))
unfolding print_loop
print_loop-contents zero m p [] chain enough = ground arith
print_loop-contents zero m p (a ∷ ns) chain enough = absurd (omega arith)
print_loop-contents (suc fuel) m p [] chain enough = ground arith
print_loop-contents (suc fuel) m p (a ∷ ns) chain enough =
    ground (arith, print_loop-contents fuel m (m.nodes a).next ns)

free_loop-same :
    (fuel : ℕ) (m : Store) (p : ℕ) (ns : List ℕ)
    → Chain m p ns
    → length ns ≤ fuel
    → (free_loop fuel m p ≡ some m) × All (λ a. m.node_live a ≡ true) ns
unfolding free_loop
free_loop-same zero m p [] chain enough = (ground arith, tt)
free_loop-same zero m p (a ∷ ns) chain enough = absurd (omega arith)
free_loop-same (suc fuel) m p [] chain enough = (ground arith, tt)
free_loop-same (suc fuel) m p (a ∷ ns) chain enough =
    let rest = free_loop-same fuel m (m.nodes a).next ns (ground arith) (omega arith) in
    (ground (arith, rest.0), (ground arith, rest.1))

-- On a book of any length `print_address_book` returns and prints the contacts in order, and
-- `free_address_book` returns and leaves every node of the book allocated.
walk_lem :
    (fuel : ℕ) (m : Store) (book : AddressBook) (ns : List ℕ)
    → InBook m book ns
    → length ns ≤ fuel
    → (print_address_book fuel m book ≡ some (map m.contacts (contents m ns)))
      × (free_address_book fuel m book ≡ some m)
      × All (λ a. m.node_live a ≡ true) ns
unfolding print_address_book free_address_book
walk_lem fuel m book ns inv enough =
    let freed = free_loop-same fuel m (book.head) ns inv.chain enough in
    (print_loop-contents fuel m (book.head) ns inv.chain enough, freed.0, freed.1)
