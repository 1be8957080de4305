-- ===== src/AddressBook/Copy.antt =====
-- exercise01/task1/addressbook.c, `compare_by_name` and `duplicate_contact`.
use ps_os.Base.{
  same_text, ℕ, ◌+◌, ◌<◌, ◌≡◌, ◌≢◌, ◌↔◌, arith, true, ◌&&◌, some, List, [], ◌∷◌, update,
}
use ps_os.AddressBook.{Contact, Store, fits, create_contact, duplicate_contact, compare_by_name}

same_text_iff : (s t : List ℕ) → (same_text s t ≡ true) ↔ (s ≡ t)
unfolding same_text
same_text_iff [] [] = ground arith
same_text_iff [] (b ∷ t) = ground arith
same_text_iff (a ∷ s) [] = ground arith
same_text_iff (a ∷ s) (b ∷ t) = ground (arith, same_text_iff s t)

-- `compare_by_name` compares all four fields, and holds exactly for equal contacts.
compare_by_name_iff : (x y : Contact) → (compare_by_name x y ≡ true) ↔ (x ≡ y)
unfolding compare_by_name
compare_by_name_iff x y = ground (
  arith,
  same_text_iff x.first_name y.first_name,
  same_text_iff x.last_name y.last_name,
  same_text_iff x.email y.email,
)

-- The copy of a contact whose texts have room stands at a new address and compares equal to the
-- original, which is as before.
duplicate_contact_lem :
    (m : Store) (contact : ℕ)
    → contact ≢ 0
    → contact < m.fresh_contact
    → (fits (m.contacts contact).first_name
        && (fits (m.contacts contact).last_name && fits (m.contacts contact).email))
      ≡ true
    → (m' : Store) × (copy : ℕ) × (duplicate_contact m contact ≡ some (m', copy))
      × (copy ≢ contact)
      × (m'.contact_live copy ≡ true)
      × (m'.contacts contact ≡ m.contacts contact)
      × (compare_by_name (m'.contacts copy) (m'.contacts contact) ≡ true)
unfolding duplicate_contact create_contact
duplicate_contact_lem m contact ne old room =
    let copy : ℕ = m.fresh_contact in
    let c = m.contacts contact in
    let m' : Store = record m {
      contacts = update m.contacts copy c;
      contact_live = update m.contact_live copy true;
      fresh_contact = m.fresh_contact + 1;
    } in
    (
      m',
      copy,
      ground arith,
      ground arith,
      ground arith,
      ground arith,
      (compare_by_name_iff (m'.contacts copy) (m'.contacts contact)).1 (ground arith),
    )
