-- ===== src/Examples/Contacts.antt =====
-- exercise01/task1/addressbook.c: books with one and with three contacts.
use ps_os.Base.{ℕ, ◌≡◌, arith, true, some, List, [], ◌∷◌, ◌==◌, if◌then◌else◌}
use ps_os.AddressBook.{Contact, Node, Store, AddressBook, add_contact, remove_contact}
use ps_os.AddressBook.Chain.{contents}
use ps_os.AddressBook.Append.{InBook, add_contact_lem}
use ps_os.AddressBook.Remove.{removed, remove_contact_lem}

abbrev ada : Contact
ada = record { first_name = b'A' ∷ []; last_name = b'L' ∷ []; age = 36; email = b'a' ∷ [] }

-- Nodes 1, 2 and 3 for the contacts at 10, 20 and 30.
abbrev three_nodes : ℕ → Node
three_nodes a =
    if a == 1
    then record { data_of = 10; next = 2 }
    else (if a == 2 then record { data_of = 20; next = 3 } else record { data_of = 30; next = 0 })

abbrev three_contacts : Store
three_contacts = record {
  nodes = three_nodes;
  node_live = λ a. true;
  fresh_node = 4;
  contacts = λ a. ada;
  contact_live = λ a. true;
  fresh_contact = 31;
}

abbrev three_book : AddressBook
three_book = record { head = 1 }

three_book-InBook : InBook three_contacts three_book (1 ∷ 2 ∷ 3 ∷ [])
three_book-InBook = record { chain = ground arith; distinct = ground arith; started = omega arith }

abbrev one_book : AddressBook
one_book = record { head = 3 }

one_book-InBook : InBook three_contacts one_book (3 ∷ [])
one_book-InBook = record { chain = ground arith; distinct = ground arith; started = omega arith }

add_contact_lem_example :
    (m' : Store) × (book' : AddressBook) × (add_contact 3 three_contacts three_book 40
      ≡ some (m', book'))
    × InBook m' book' (1 ∷ 2 ∷ 3 ∷ 4 ∷ [])
    × (contents m' (1 ∷ 2 ∷ 3 ∷ 4 ∷ []) ≡ 10 ∷ 20 ∷ 30 ∷ 40 ∷ [])
add_contact_lem_example =
    add_contact_lem 3 three_contacts three_book (1 ∷ 2 ∷ 3 ∷ []) 40 three_book-InBook (omega arith)

remove_contact_lem_example :
    (m' : Store) × (book' : AddressBook) × (ns' : List ℕ) × (remove_contact 3 three_contacts
        three_book 20
      ≡ some (m', book'))
    × InBook m' book' ns'
    × (contents m' ns' ≡ removed 20 (10 ∷ 20 ∷ 30 ∷ []))
remove_contact_lem_example =
    remove_contact_lem 3 three_contacts three_book (1 ∷ 2 ∷ 3 ∷ []) 20 three_book-InBook
      (omega arith) (omega arith)
