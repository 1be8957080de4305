-- ===== src/Chat/Login.antt =====
-- exercise09/task1/server.c: the names of the administrators and the name of a client.
use mathlib.Core.List.{append_assoc}
use ps_os.Base.{
  ℕ, zero, suc, ◌+◌, ◌≤◌, ◌<◌, ◌≡◌, ◌≢◌, refl, ap, ap₂, sym, ◌∙◌, Bool, true, false, ◌&&◌, ◌||◌,
  List, [], ◌∷◌, ◌++◌, arith, ltb, if◌then◌else◌, length, replicate, set, overwrite, same_text,
  strcspn_newline, All, length-append,
}
use ps_os.Plugins.{CString, IsString, c_str}

abbrev pub max_admins : ℕ
max_admins = 5

-- The size of a user name.
abbrev pub name_size : ℕ
name_size = 50

-- `strncpy(destination, source, size)`
abbrev pub strncpy : ℕ → CString → List ℕ
strncpy zero source = []
strncpy (suc size) [] = 0 ∷ strncpy size []
strncpy (suc size) (c ∷ source) = c ∷ strncpy size source

-- `admin_usernames`, all zero at first, with the names of the arguments.
abbrev pub set_admins : ℕ → List CString → List (List ℕ) → List (List ℕ)
set_admins i [] table = table
set_admins i (name ∷ names) table = set_admins (i + 1) names (set table i (strncpy name_size name))

unfoldable pub admin_usernames : List CString → List (List ℕ)
admin_usernames names = set_admins 0 names (replicate max_admins (replicate name_size 0))

-- The loop over the administrators.
unfoldable pub check_admin : List (List ℕ) → CString → Bool
check_admin [] username = false
check_admin (row ∷ rows) username =
    if same_text username (c_str row) then true else check_admin rows username

-- `read` into the name, and `strcspn(username, "\n")` with the write of the terminator there.
unfoldable pub receive_username : List ℕ → List ℕ → CString
receive_username block bytes =
    let username = overwrite bytes block in c_str (set username (strcspn_newline username) 0)

-- The name is among the names.
abbrev pub is_name : CString → List CString → Bool
is_name username [] = false
is_name username (name ∷ names) = same_text username name || is_name username names

-- The rows of the table: the names, and empty rows behind them.
rows : ℕ → List CString → List (List ℕ)
rows n [] = replicate n (replicate name_size 0)
rows zero (name ∷ names) = []
rows (suc n) (name ∷ names) = strncpy name_size name ∷ rows n names

set-append {ℓ} :
    {A : Type ℓ} (i : ℕ) (xs : List A) (x v : A) (ys : List A)
    → i ≡ length xs
    → set (xs ++ x ∷ ys) i v ≡ xs ++ v ∷ ys
set-append zero [] x v ys e = refl
set-append (suc i) [] x v ys e = absurd (omega arith)
set-append zero (y ∷ xs) x v ys e = absurd (omega arith)
set-append (suc i) (y ∷ xs) x v ys e = ap (λ r. y ∷ r) (set-append i xs x v ys (omega arith))

set_admins-rows :
    (names : List CString) (front : List (List ℕ)) (i n : ℕ)
    → i ≡ length front
    → length names ≤ n
    → set_admins i names (front ++ replicate n (replicate name_size 0)) ≡ front ++ rows n names
unfolding rows
set_admins-rows [] front i n e h = refl
set_admins-rows (name ∷ names) front i zero e h = absurd (omega arith)
set_admins-rows (name ∷ names) front i (suc n) e h =
    let row = strncpy name_size name in
    let empty : List (List ℕ) = replicate n (replicate name_size 0) in
    ap (set_admins (i + 1) names) (
      set-append i front (replicate name_size 0) row empty e
      ∙ sym (append_assoc front (row ∷ []) empty))
    ∙ set_admins-rows names (front ++ row ∷ []) (i + 1) n
        (omega (arith, length-append front (row ∷ []))) (omega arith)
    ∙ append_assoc front (row ∷ []) (rows n names)

c_str-strncpy :
    (size : ℕ) (name : CString)
    → length name < size
    → IsString name
    → c_str (strncpy size name) ≡ name
c_str-strncpy zero name h s = absurd (omega arith)
c_str-strncpy (suc size) [] h s = refl
c_str-strncpy (suc size) (zero ∷ name) h s = absurd (omega (arith, s.0.0))
c_str-strncpy (suc size) (suc c ∷ name) h s =
    ap (λ r. suc c ∷ r) (c_str-strncpy size name (omega arith) s.1)

-- A name that fits into its row with its terminator.
abbrev pub IsName : CString → Type 0
IsName name = IsString name × (length name < name_size)

check_admin-empty :
    (n : ℕ) (username : CString)
    → check_admin (replicate n (replicate name_size 0)) username
      ≡ (ltb 0 n && same_text username [])
unfolding check_admin
check_admin-empty zero username = refl
check_admin-empty (suc n) username = ground (arith, check_admin-empty n username)

check_admin-rows :
    (n : ℕ) (names : List CString) (username : CString)
    → length names ≤ n
    → All IsName names
    → check_admin (rows n names) username
      ≡ (is_name username names || (ltb (length names) n && same_text username []))
unfolding check_admin rows
check_admin-rows n [] username h a = check_admin-empty n username
check_admin-rows zero (name ∷ names) username h a = absurd (omega arith)
check_admin-rows (suc n) (name ∷ names) username h (ok, a) = ground (
  arith,
  c_str-strncpy name_size name ok.1 ok.0,
  check_admin-rows n names username (omega arith) a,
)

-- A byte of a name: neither the terminator nor the end of the line.
abbrev pub IsPlain : ℕ → Type 0
IsPlain c = (0 < c) × (c ≢ b'\n')

strcspn_newline-line :
    (name more : List ℕ) → All IsPlain name → strcspn_newline (name ++ b'\n' ∷ more) ≡ length name
strcspn_newline-line [] more h = refl
strcspn_newline-line (c ∷ name) more (p, h) = ground (arith, strcspn_newline-line name more h)

c_str-line : (name more : List ℕ) → All IsPlain name → c_str (name ++ 0 ∷ more) ≡ name
c_str-line [] more h = refl
c_str-line (zero ∷ name) more h = absurd (omega (arith, h.0.0))
c_str-line (suc c ∷ name) more h = ap (λ r. suc c ∷ r) (c_str-line name more h.1)

overwrite-append :
    (name : List ℕ) (c : ℕ) (more block : List ℕ)
    → length name < length block
    → (rest : List ℕ) × (overwrite (name ++ c ∷ more) block ≡ name ++ c ∷ rest)
overwrite-append [] c more [] h = absurd (omega arith)
overwrite-append [] c more (x ∷ block) h = (overwrite more block, refl)
overwrite-append (d ∷ name) c more [] h = absurd (omega arith)
overwrite-append (d ∷ name) c more (x ∷ block) h =
    let (rest, e) = overwrite-append name c more block (omega arith) in (rest, ap (λ r. d ∷ r) e)

-- A client that sends a line shorter than the buffer has that line as its name, whatever the block
-- held, and is an administrator just when it is the name of one, or when it is empty and fewer than
-- five administrators are named.
pub login_lem :
    (names : List CString) (block name more : List ℕ)
    → length names ≤ max_admins
    → All IsName names
    → All IsPlain name
    → length name < length block
    → (receive_username block (name ++ b'\n' ∷ more) ≡ name)
      × (check_admin (admin_usernames names) (receive_username block (name ++ b'\n' ∷ more))
          ≡ (is_name name names || (ltb (length names) max_admins && same_text name [])))
unfolding receive_username admin_usernames
login_lem names block name more few ok plain short = (
  received,
  ap₂ check_admin (set_admins-rows names [] 0 max_admins refl few) received
      ∙ check_admin-rows max_admins names name few ok,
)
  where
    line : List ℕ
    line = overwrite (name ++ b'\n' ∷ more) block

    received : c_str (set line (strcspn_newline line) 0) ≡ name
    received =
        let (rest, e) = overwrite-append name b'\n' more block short in
        ap (λ l. c_str (set l (strcspn_newline l) 0)) e
        ∙ ap c_str (
            set-append (strcspn_newline (name ++ b'\n' ∷ rest)) name b'\n' 0 rest
              (strcspn_newline-line name rest plain))
        ∙ c_str-line name rest plain
