-- ===== src/Scheduler/Words.antt =====
-- exercise05/task1/scheduler.c: what the words of a text are, and the numbers that they stand for,
-- without `strtok` and `atol`.
use mathlib.Core.List.{append_assoc}
use native.Mathlib.Nat.{pow-succ'}
use ps_os.Base.{
  ℕ, suc, ◌+◌, ◌-◌, ◌*◌, ◌%◌, ◌^◌, ◌≡◌, refl, ap, Bool, true, false, not, ◌&&◌, List, [], ◌∷◌, ◌++◌,
  Option, none, some, ◌>>=◌, arith, ◌==◌, leb, if◌then◌else◌, length, elem, Bool-cases, inl, inr,
}
use ps_os.Plugins.{CString}
use ps_os.Scheduler.{isdigit, is_valid, digits_value, atol, tokens_from, tokens}

-- A text begins with a word.
abbrev pub begins_word : CString → Bool
begins_word [] = false
begins_word (c ∷ s) = not (c == b' ')

-- A character put before the first word.
abbrev pub extend : ℕ → List CString → List CString
extend c [] = (c ∷ []) ∷ []
extend c (word ∷ words) = (c ∷ word) ∷ words

-- The words of a text, from its end.
abbrev pub words : CString → List CString
words [] = []
words (c ∷ s) =
    let rest = words s in
    if c == b' ' then rest else (if begins_word s then extend c rest else (c ∷ []) ∷ rest)

-- The words behind a word begun.
abbrev join_first : CString → List CString → List CString
join_first word [] = word ∷ []
join_first word (w ∷ ws) = (word ++ w) ∷ ws

abbrev words_behind : CString → CString → List CString
words_behind [] s = words s
words_behind (d ∷ word) s =
    if begins_word s then join_first (d ∷ word) (words s) else (d ∷ word) ∷ words s

join_first-one : (c : ℕ) (ws : List CString) → join_first (c ∷ []) ws ≡ extend c ws
join_first-one c [] = refl
join_first-one c (w ∷ ws) = refl

join_first-extend :
    (c : ℕ) (word : CString) (ws : List CString)
    → join_first (word ++ c ∷ []) ws ≡ join_first word (extend c ws)
join_first-extend c word [] = refl
join_first-extend c word (w ∷ ws) = ap (λ r. r ∷ ws) (append_assoc word (c ∷ []) w)

tokens_from-words : (word s : CString) → tokens_from true word s ≡ words_behind word s
tokens_from-words [] [] = refl
tokens_from-words (d ∷ word) [] = refl
tokens_from-words [] (c ∷ s) =
    ground (arith, tokens_from-words [] s, tokens_from-words (c ∷ []) s, join_first-one c (words s))
tokens_from-words (d ∷ word) (c ∷ s) = ground (
  arith,
  tokens_from-words [] s,
  tokens_from-words (d ∷ (word ++ c ∷ [])) s,
  join_first-extend c (d ∷ word) (words s),
)

pub tokens-words : (s : CString) → tokens true s ≡ words s
tokens-words s = tokens_from-words [] s

-- The characters of which a number may be made.
abbrev pub number_characters : CString
number_characters = b'-' ∷ b'0' ∷ b'1' ∷ b'2' ∷ b'3' ∷ b'4' ∷ b'5' ∷ b'6' ∷ b'7' ∷ b'8' ∷ b'9' ∷ []

abbrev pub is_number : CString → Bool
is_number [] = true
is_number (c ∷ word) = elem c number_characters && is_number word

pub is_valid-number : (word : CString) → is_valid word ≡ is_number word
is_valid-number [] = refl
is_valid-number (c ∷ word) = ground (arith, is_valid-number word)

-- The digits that a text begins with, and the number that they denote, the first of them times a power
-- of ten.
abbrev pub leading_digits : CString → CString
leading_digits [] = []
leading_digits (c ∷ s) = let rest = leading_digits s in if isdigit c then c ∷ rest else []

abbrev pub decimal : CString → ℕ
decimal [] = 0
decimal (c ∷ s) = (c - b'0') * 10 ^ length s + decimal s

distribute : (value digit p : ℕ) → (value * 10 + digit) * p ≡ value * (10 * p) + digit * p
distribute value digit p = grind arith

one_more_digit :
    (value digit n : ℕ) → (value * 10 + digit) * 10 ^ n ≡ value * 10 ^ suc n + digit * 10 ^ n
one_more_digit value digit n = rw (pow-succ' 10 n) (distribute value digit (10 ^ n))

digits_value-decimal :
    (value : ℕ) (s : CString)
    → digits_value value s ≡ value * 10 ^ length (leading_digits s) + decimal (leading_digits s)
digits_value-decimal value [] = omega arith
digits_value-decimal value (c ∷ s) =
    let rec = digits_value-decimal (value * 10 + (c - b'0')) s in
    let scaled = one_more_digit value (c - b'0') (length (leading_digits s)) in
    elim (Bool-cases (isdigit c)) [
      | inl digit ↦ ground (arith, rec, scaled)
      | inr other ↦ ground arith
    ]

abbrev pub min : ℕ → ℕ → ℕ
min a b = if leb a b then a else b

-- The `long` nearest to the number that a word begins with, as its bit pattern.
abbrev pub nearest_long : CString → ℕ
nearest_long [] = 0
nearest_long (c ∷ s) =
    if c == b'-'
    then (2 ^ 64 - min (decimal (leading_digits s)) (2 ^ 63)) % 2 ^ 64
    else min (decimal (leading_digits (c ∷ s))) (2 ^ 63 - 1)

pub atol-nearest_long : (s : CString) → atol s ≡ nearest_long s
atol-nearest_long [] = refl
atol-nearest_long (c ∷ s) = ground (arith, digits_value-decimal 0 s, digits_value-decimal 0 (c ∷ s))

-- The numbers of some words, if each is one.
abbrev pub readings : List CString → Option (List ℕ)
readings [] = some []
readings (word ∷ rest) =
    if is_number word then (readings rest >>= λ ns. some (nearest_long word ∷ ns)) else none

abbrev pub numbers_in : CString → Option (List ℕ)
numbers_in s = readings (words s)
