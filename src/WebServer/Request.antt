-- ===== src/WebServer/Request.antt =====
-- exercise08/task3/server.c: what `handle_client` makes of a request. The bytes of the buffer before
-- its first 0 are a string; `strtod` is a parameter, and so is what the two arrays on the stack hold
-- before `sscanf`.
use mathlib.Core.List.{append-nil, append_assoc}
use ps_os.Base.{
  ℕ, zero, suc, ◌≡◌, ap, sym, arith, Bool, false, ◌&&◌, ◌||◌, [], ◌∷◌, ◌++◌, Option, none, some,
  ◌==◌, leb, if◌then◌else◌, same_text, is_prefix, All,
}
use ps_os.Plugins.{CString}

-- `isspace` in the C locale.
abbrev pub is_space : ℕ → Bool
is_space c = (c == b' ') || (leb 9 c && leb c 13)

-- `%s` of `sscanf`: the next word, if there is one, and the text behind it.
abbrev pub word_from : CString → CString → CString × CString
word_from word [] = (word, [])
word_from word (c ∷ s) =
    let rest = word_from (word ++ c ∷ []) s in if is_space c then (word, c ∷ s) else rest

abbrev pub next_word : CString → Option (CString × CString)
next_word [] = none
next_word (c ∷ s) =
    let rest = next_word s in if is_space c then rest else some (word_from (c ∷ []) s)

-- The text from the first place where the pattern stands.
abbrev pub strstr : CString → CString → Option CString
strstr [] pattern = if is_prefix pattern [] then some [] else none
strstr (c ∷ s) pattern =
    let rest = strstr s pattern in if is_prefix pattern (c ∷ s) then some (c ∷ s) else rest

abbrev pub get : CString
get = b'G' ∷ b'E' ∷ b'T' ∷ []

abbrev pub post : CString
post = b'P' ∷ b'O' ∷ b'S' ∷ b'T' ∷ []

abbrev pub root : CString
root = b'/' ∷ []

abbrev pub donate_path : CString
donate_path = b'/' ∷ b'd' ∷ b'o' ∷ b'n' ∷ b'a' ∷ b't' ∷ b'e' ∷ []

abbrev pub shutdown_path : CString
shutdown_path = b'/' ∷ b's' ∷ b'h' ∷ b'u' ∷ b't' ∷ b'd' ∷ b'o' ∷ b'w' ∷ b'n' ∷ []

abbrev pub content_length : CString
content_length =
    b'C' ∷ b'o' ∷ b'n' ∷ b't' ∷ b'e' ∷ b'n' ∷ b't' ∷ b'-' ∷ b'L' ∷ b'e' ∷ b'n' ∷ b'g' ∷ b't' ∷ b'h'
    ∷ b':' ∷ b' ' ∷ []

-- The empty line in front of the body.
abbrev pub empty_line : CString
empty_line = b'\r' ∷ b'\n' ∷ b'\r' ∷ b'\n' ∷ []

abbrev pub skip : ℕ → CString → CString
skip zero s = s
skip (suc n) [] = []
skip (suc n) (c ∷ s) = skip n s

-- The branches of `handle_client`.
pub data Action (D : Type 0) : Type 0 where
  read_failed : Action D
  welcome : Action D
  donate : D → Action D
  no_donation : Action D  -- a donation without length or body, which gets no reply
  shutdown : Action D
  not_implemented : Action D

module _ {D : Type 0} (strtod : CString → D) where
  unfoldable pub donation_of : CString → Action D
  donation_of buffer = elim (strstr buffer content_length) [
    | none ↦ no_donation
    | some length_text ↦ elim (strstr buffer empty_line) [
      | none ↦ no_donation
      | some body ↦ donate (strtod (skip 4 body))
    ]
  ]

  unfoldable pub dispatch : CString → CString → CString → Action D
  dispatch method path buffer =
      if same_text method get && same_text path root
      then welcome
      else if same_text method post && same_text path donate_path
      then donation_of buffer
      else if same_text method post && same_text path shutdown_path
      then shutdown
      else not_implemented

  -- For the arrays' contents, and the bytes that `read` gives.
  unfoldable pub parse_request : CString × CString → Option CString → Action D
  parse_request stack none = read_failed
  parse_request (method, path) (some buffer) = elim (next_word buffer) [
    | none ↦ dispatch method path buffer
    | some (first, rest) ↦ elim (next_word rest) [
      | none ↦ dispatch first path buffer
      | some (second, behind) ↦ dispatch first second buffer
    ]
  ]

abbrev pub IsWord : ℕ → Type 0
IsWord c = is_space c ≡ false

-- A word ends at the first space.
word_from-word :
    (front word s : CString)
    → All IsWord word
    → word_from front (word ++ b' ' ∷ s) ≡ (front ++ word, b' ' ∷ s)
word_from-word front [] s h = ap (λ r. (r, b' ' ∷ s)) (sym (append-nil front))
word_from-word front (c ∷ word) s (p, h) =
    ground (arith, word_from-word (front ++ c ∷ []) word s h, append_assoc front (c ∷ []) word)

next_word-word :
    (c : ℕ) (word s : CString)
    → All IsWord (c ∷ word)
    → next_word ((c ∷ word) ++ b' ' ∷ s) ≡ some (c ∷ word, b' ' ∷ s)
next_word-word c word s (p, h) = ground (arith, word_from-word (c ∷ []) word s h)

-- A request line of two words, each with a space behind it, is dispatched by these words, whatever
-- the arrays held before: only `GET /` is welcomed, only `POST /shutdown` shuts the server down, a
-- donation is the number behind the first empty line, and any other line gets the reply 501.
parse_request-line :
    {D : Type 0} (strtod : CString → D) (stack : CString × CString)
    → (m : ℕ) (method : CString) (p : ℕ) (path rest : CString) → All IsWord (m ∷ method)
    → All IsWord (p ∷ path)
    → parse_request strtod stack (some ((m ∷ method) ++ b' ' ∷ ((p ∷ path) ++ b' ' ∷ rest)))
      ≡ dispatch strtod (m ∷ method) (p ∷ path) ((m ∷ method) ++ b' ' ∷ ((p ∷ path) ++ b' ' ∷ rest))
unfolding parse_request
parse_request-line strtod stack m method p path rest hm hp =
    ground
      (arith, next_word-word m method ((p ∷ path) ++ b' ' ∷ rest) hm, next_word-word p path rest hp)
