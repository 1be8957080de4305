-- ===== src/AddressBook.antt =====
-- exercise01/task1/addressbook.c and .h: a list of contacts, linked by pointers. An address is a
-- number, and `NULL` is 0. Nodes and contacts have a store each.
pub mod Chain
pub mod Append
pub mod Remove
pub mod Copy
pub mod Walk
use ps_os.Base.{
  same_text, ℕ, zero, suc, ◌+◌, ◌%◌, ◌^◌, ◌<◌, Bool, true, false, not, ◌&&◌, Option, none, some,
  List, [], ◌∷◌, ◌==◌, ltb, if◌then◌else◌, update, length, ◌>>=◌,
}

-- `contact_t`; a text is the bytes before the terminator.
pub record Contact : Type 0 where
  pub first_name : List ℕ
  pub last_name : List ℕ
  pub age : ℕ
  pub email : List ℕ

-- `node_t`
pub record Node : Type 0 where
  pub data_of : ℕ
  pub next : ℕ

-- What has been allocated, and the addresses that the next two allocations give.
pub record Store : Type 0 where
  pub nodes : ℕ → Node
  pub node_live : ℕ → Bool
  pub fresh_node : ℕ
  pub contacts : ℕ → Contact
  pub contact_live : ℕ → Bool
  pub fresh_contact : ℕ

-- `address_book_t`
pub record AddressBook : Type 0 where
  pub head : ℕ

abbrev pub create_address_book : AddressBook
create_address_book = record { head = 0 }

-- The three texts have room for 50 bytes each, with the terminator; `none` is a `strcpy` past that.
abbrev pub fits : List ℕ → Bool
fits text = ltb (length text) 50

unfoldable pub create_contact : Store → Contact → Option (Store × ℕ)
create_contact m new =
    if fits new.first_name && (fits new.last_name && fits new.email)
    then some (
      record m {
        contacts = update m.contacts m.fresh_contact new;
        contact_live = update m.contact_live m.fresh_contact true;
        fresh_contact = m.fresh_contact + 1;
      },
      m.fresh_contact,
    )
    else none

abbrev pub set_next : Store → ℕ → ℕ → Store
set_next m a p = record m { nodes = update m.nodes a (record (m.nodes a) { next = p }) }

abbrev pub new_node : Store → ℕ → Store
new_node m contact = record m {
  nodes = update m.nodes m.fresh_node (record { data_of = contact; next = 0 });
  node_live = update m.node_live m.fresh_node true;
  fresh_node = m.fresh_node + 1;
}

abbrev pub free_node : Store → ℕ → Store
free_node m a = record m { node_live = update m.node_live a false }

abbrev pub free_contact : Store → ℕ → Store
free_contact m a = record m { contact_live = update m.contact_live a false }

-- The loop to the last node. `none`: the rounds allowed do not suffice.
unfoldable pub last_node : ℕ → Store → ℕ → Option ℕ
last_node zero m a = none
last_node (suc fuel) m a =
    let rest = last_node fuel m (m.nodes a).next in if (m.nodes a).next == 0 then some a else rest

unfoldable pub add_contact : ℕ → Store → AddressBook → ℕ → Option (Store × AddressBook)
add_contact fuel m book contact =
    let m' = new_node m contact in
    if book.head == 0
    then some (m', record { head = m.fresh_node })
    else elim (last_node fuel m' book.head) [
      | none ↦ none
      | some a ↦ some (set_next m' a m.fresh_node, book)
    ]

-- The loop of `remove_contact`, from two nodes on.
unfoldable pub remove_loop : ℕ → Store → ℕ → ℕ → ℕ → Option Store
remove_loop zero m contact previous current = none
remove_loop (suc fuel) m contact previous current =
    let rest = remove_loop fuel m contact current (m.nodes current).next in
    if (m.nodes current).data_of == contact
    then some (
        free_node
          (free_contact (set_next m previous (m.nodes current).next) (m.nodes current).data_of)
          current)
    else (if (m.nodes current).next == 0 then some m else rest)

-- `none` is also the access through `NULL` when the book has one node.
unfoldable pub remove_contact : ℕ → Store → AddressBook → ℕ → Option (Store × AddressBook)
remove_contact fuel m book contact =
    if book.head == 0
    then some (m, book)
    else (let current = (m.nodes book.head).next in
        if current == 0
        then none
        else (if (m.nodes current).data_of == contact
            then some (m, record { head = (m.nodes current).next })
            else elim (remove_loop fuel m contact 0 current) [
              | none ↦ none
              | some m' ↦ some (m', book)
            ]))

-- The loop of `count_contacts`, with the count so far.
unfoldable pub count_loop : ℕ → Store → ℕ → ℕ → Option ℕ
count_loop zero m a count = none
count_loop (suc fuel) m a count =
    let rest = count_loop fuel m (m.nodes a).next ((count + 1) % 2 ^ 64) in
    if (m.nodes a).next == 0 then some count else rest

unfoldable pub count_contacts : ℕ → Store → AddressBook → Option ℕ
count_contacts fuel m book = if book.head == 0 then some 0 else count_loop fuel m book.head 1

-- What `print_address_book` prints, contact by contact.
unfoldable pub print_loop : ℕ → Store → ℕ → Option (List Contact)
print_loop zero m a = if a == 0 then some [] else none
print_loop (suc fuel) m a =
    let rest = print_loop fuel m (m.nodes a).next in
    if a == 0 then some [] else rest >>= λ printed. some (m.contacts (m.nodes a).data_of ∷ printed)

unfoldable pub print_address_book : ℕ → Store → AddressBook → Option (List Contact)
print_address_book fuel m book = print_loop fuel m book.head

-- The loop of `free_address_book` goes through the nodes and frees none; then the book alone is freed,
-- which the store does not hold. A `NULL` for the book is left out.
unfoldable pub free_loop : ℕ → Store → ℕ → Option Store
free_loop zero m a = if a == 0 then some m else none
free_loop (suc fuel) m a =
    let rest = free_loop fuel m (m.nodes a).next in if a == 0 then some m else rest

unfoldable pub free_address_book : ℕ → Store → AddressBook → Option Store
free_address_book fuel m book = free_loop fuel m book.head

-- `find_contact` and `filter_address_book` return `NULL`, and `sort_address_book` does nothing.
abbrev pub filter_address_book : AddressBook → (ℕ → Bool) → ℕ
filter_address_book book filter = 0

abbrev pub sort_address_book : Store → AddressBook → (ℕ → ℕ → Bool) → Store × AddressBook
sort_address_book m book compare = (m, book)

abbrev pub find_contact : AddressBook → List ℕ → List ℕ → ℕ
find_contact book first_name last_name = 0

unfoldable pub duplicate_contact : Store → ℕ → Option (Store × ℕ)
unfolding create_contact
duplicate_contact m contact =
    if contact == 0 then some (m, 0) else create_contact m (m.contacts contact)

unfoldable pub compare_by_name : Contact → Contact → Bool
unfolding same_text
compare_by_name x y =
    same_text x.first_name y.first_name
    && (same_text x.last_name y.last_name && ((x.age == y.age) && same_text x.email y.email))

abbrev pub is_adult : Contact → Bool
is_adult x = ltb 17 x.age
