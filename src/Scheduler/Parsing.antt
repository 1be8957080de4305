-- ===== src/Scheduler/Parsing.antt =====
-- exercise05/task1/scheduler.c: the numbers that `parse_numbers` finds.
use mathlib.Core.List.{append-nil, append_assoc}
use ps_os.Base.{
  ℕ, zero, suc, ◌+◌, ◌*◌, ◌≤◌, ◌<◌, ◌≡◌, refl, ap, sym, List, [], ◌∷◌, ◌++◌, Option, none, some,
  arith, ◌==◌, if◌then◌else◌, length, set, take, length-set, ◌>>=◌, true, ◌≢◌, ◌∙◌, get_or,
  get_or-set_ne,
}
use ps_os.Plugins.{CString, c_str}
use ps_os.Scheduler.{
  Message, is_valid, atol, tokens_from, tokens, counted, message_size_zero_error,
  not_a_number_error, past_end, is_terminated, parse_loop, parse_numbers,
}
use ps_os.Scheduler.Words.{words, tokens-words, readings, is_valid-number, atol-nearest_long}

-- The numbers of the tokens, where all are valid.
abbrev pub numbers_of : List CString → Option (List ℕ)
numbers_of [] = some []
numbers_of (token ∷ rest) =
    if is_valid token then (numbers_of rest >>= λ ns. some (atol token ∷ ns)) else none

unfoldable pub weight : CString → ℕ
weight [] = 0
weight (c ∷ word) = 1

pub tokens_from-length :
    (word s : CString) → 2 * length (tokens_from true word s) ≤ length s + 1 + weight word
unfolding weight
tokens_from-length [] [] = omega arith
tokens_from-length (c ∷ word) [] = omega arith
tokens_from-length [] (c ∷ s) =
    ground (arith, tokens_from-length [] s, tokens_from-length (c ∷ []) s)
tokens_from-length (d ∷ word) (c ∷ s) =
    ground (arith, tokens_from-length [] s, tokens_from-length (d ∷ (word ++ c ∷ [])) s)

take-set : (xs : List ℕ) (c v : ℕ) → c < length xs → take (suc c) (set xs c v) ≡ take c xs ++ v ∷ []
take-set [] c v h = absurd (omega arith)
take-set (x ∷ xs) zero v h = refl
take-set (x ∷ xs) (suc c) v h = ap (λ r. x ∷ r) (take-set xs c v (omega arith))

pub c_str-length : (s : List ℕ) → length (c_str s) ≤ length s
c_str-length [] = omega arith
c_str-length (zero ∷ s) = omega arith
c_str-length (suc c ∷ s) = omega (arith, c_str-length s)

length-numbers_of :
    (ts : List CString) (ns : List ℕ) → numbers_of ts ≡ some ns → length ns ≡ length ts
length-numbers_of [] [] e = refl
length-numbers_of [] (n ∷ ns) e = absurd cc
length-numbers_of (t ∷ ts) [] e = absurd (ground arith)
length-numbers_of (t ∷ ts) (n ∷ ns) e = ground (arith, length-numbers_of ts ns)

pub parse_loop-invalid :
    (ts : List CString) (count : ℕ) (numbers : List ℕ)
    → numbers_of ts ≡ none
    → count + length ts ≤ length numbers
    → (parse_loop true ts count numbers).0 ≡ not_a_number_error
unfolding parse_loop
parse_loop-invalid [] count numbers e room = absurd cc
parse_loop-invalid (t ∷ ts) count numbers e room = ground (
  arith,
  parse_loop-invalid ts (count + 1) (set numbers count (atol t)),
  length-set numbers count (atol t),
)

pub parse_loop-valid :
    (ts : List CString) (count total : ℕ) (numbers ns : List ℕ)
    → numbers_of ts ≡ some ns
    → count + length ts ≤ length numbers
    → count + length ns ≡ total
    → ((parse_loop true ts count numbers).0
        ≡ (if total == 0 then message_size_zero_error else counted total))
      × (take total (parse_loop true ts count numbers).1 ≡ take count numbers ++ ns)
unfolding parse_loop
parse_loop-valid [] count total numbers [] e h l =
    let same : count ≡ total = omega arith in
    (
      ap (λ n. if n == 0 then message_size_zero_error else counted n) same,
      ap (λ n. take n numbers) (sym same) ∙ sym (append-nil (take count numbers)),
    )
parse_loop-valid [] count total numbers (n ∷ ns) e h l = absurd cc
parse_loop-valid (t ∷ ts) count total numbers [] e h l = absurd (ground arith)
parse_loop-valid (t ∷ ts) count total numbers (n ∷ ns) e h l =
    let written = set numbers count n in
    let rec =
      parse_loop-valid ts (count + 1) total written ns (ground arith)
        (omega (arith, length-set numbers count n)) (omega arith) in
    (
      ground (arith, rec.0),
      ground (arith, rec.1)
          ∙ ap (λ k. take k written ++ ns) (let e : count + 1 ≡ suc count = omega arith in e)
          ∙ ap (λ r. r ++ ns) (take-set numbers count n (omega arith))
          ∙ append_assoc (take count numbers) (n ∷ []) ns,
    )

-- The words are valid just if they are numbers, and `atol` reads them.
pub numbers_of-readings : (ts : List CString) → numbers_of ts ≡ readings ts
numbers_of-readings [] = refl
numbers_of-readings (t ∷ ts) =
    rw (is_valid-number t, atol-nearest_long t, numbers_of-readings ts) refl

pub length-parse_loop :
    (ts : List CString) (count : ℕ) (numbers : List ℕ)
    → length (parse_loop true ts count numbers).1 ≡ length numbers
unfolding parse_loop
length-parse_loop [] count numbers = refl
length-parse_loop (t ∷ ts) count numbers = ground (
  arith,
  length-parse_loop ts (count + 1) (set numbers count (atol t)),
  length-set numbers count (atol t),
)

-- Each word has at most one store, at the next place.
parse_loop-stores :
    (ts : List CString) (count : ℕ) (numbers : List ℕ)
    → count + length ts ≤ length numbers
    → ((parse_loop true ts count numbers).0 ≢ past_end)
      × ((total : ℕ)
          → (parse_loop true ts count numbers).0 ≡ counted total
          → total ≡ count + length ts)
      × ((j : ℕ)
          → count + length ts ≤ j
          → get_or (parse_loop true ts count numbers).1 j 0 ≡ get_or numbers j 0)
unfolding parse_loop
parse_loop-stores [] count numbers room = (ground arith, λ total e. ground arith, λ j le. refl)
parse_loop-stores (t ∷ ts) count numbers room =
    let (inside, all, others) =
      parse_loop-stores ts (count + 1) (set numbers count (atol t))
        (omega (arith, length-set numbers count (atol t))) in
    (
      ground (arith, inside),
      λ total e. ground (arith, all total),
      λ j le. ground (arith, others j, get_or-set_ne numbers count j (atol t) 0),
    )

pub terminated_shorter :
    (text : List ℕ) → is_terminated text ≡ true → length (c_str text) < length text
terminated_shorter [] h = absurd cc
terminated_shorter (zero ∷ text) h = omega arith
terminated_shorter (suc c ∷ text) h = omega (arith, terminated_shorter text h)

-- For a text of n bytes that is terminated, and an array of at least n numbers, `parse_numbers` never
-- stores past the end of the array, whatever it returns: it changes no number from place n / 2 on, the
-- array keeps its length, and a count that it returns is the number of words, n / 2 at most.
pub parse_numbers-bounded :
    (m : Message)
    → is_terminated (m.mesg_text) ≡ true
    → length (m.mesg_text) ≤ length (m.numbers)
    → ((parse_numbers m).0 ≢ past_end)
      × (length (parse_numbers m).1.numbers ≡ length (m.numbers))
      × ((count : ℕ)
          → (parse_numbers m).0 ≡ counted count
          → (count ≡ length (words (c_str (m.mesg_text)))) × (2 * count ≤ length (m.mesg_text)))
      × ((j : ℕ)
          → length (m.mesg_text) ≤ 2 * j
          → get_or (parse_numbers m).1.numbers j 0 ≡ get_or (m.numbers) j 0)
unfolding parse_numbers weight
parse_numbers-bounded m ends h =
    let ts = tokens true (c_str (m.mesg_text)) in
    let few = tokens_from-length [] (c_str (m.mesg_text)) in
    let shorter = terminated_shorter (m.mesg_text) ends in
    let (inside, all, others) = parse_loop-stores ts 0 m.numbers (omega (arith, few, shorter)) in
    (
      ground (arith, inside, ends),
      ground (arith, ends, length-parse_loop ts 0 m.numbers),
      λ count e.
          let total : count ≡ length ts = omega (arith, all count (ground (arith, ends))) in
          (total ∙ ap length (tokens-words (c_str (m.mesg_text))), omega (arith, few, shorter)),
      λ j le. ground (arith, ends, others j (omega (arith, few, shorter))),
    )
