-- ===== src/Plugins/Positions.antt =====
-- reverse_string.c of exercise10/task3: the copy from back to front.
use mathlib.Core.List.{reverse, reverse-append, reverse-reverse}
use ps_os.Base.{
  ℕ, zero, suc, ◌+◌, ◌-◌, ◌<◌, ◌≡◌, refl, ap, sym, ◌∙◌, List, [], ◌∷◌, ◌++◌, arith, length,
  length-append, get_or, get_or-append_left, list_ext, dec_lt,
}
use ps_os.Plugins.{CString, copy_back, reverse_string}

module _ {ℓ} {A : Type ℓ} where
  get_or-append_last : (xs : List A) (x d : A) → get_or (xs ++ x ∷ []) (length xs) d ≡ x
  get_or-append_last [] x d = refl
  get_or-append_last (y ∷ xs) x d = get_or-append_last xs x d

  length-reverse : (xs : List A) → length (reverse xs) ≡ length xs
  length-reverse [] = refl
  length-reverse (x ∷ xs) =
      ap length (reverse-append (x ∷ []) xs)
      ∙ length-append (reverse xs) (x ∷ [])
      ∙ omega (arith, length-reverse xs)

  get_or-reverse :
      (xs : List A) (i : ℕ) (d : A)
      → i < length xs
      → get_or (reverse xs) i d ≡ get_or xs (length xs - 1 - i) d
  get_or-reverse [] i d h = absurd (omega arith)
  get_or-reverse (x ∷ xs) i d h =
      ap (λ r. get_or r i d) (reverse-append (x ∷ []) xs) ∙ elim (dec_lt i (length xs)) [
        | yes before ↦
            get_or-append_left (reverse xs) (x ∷ []) i d (omega (arith, length-reverse xs))
            ∙ get_or-reverse xs i d before
            ∙ shifted before
        | no last ↦
            ap (λ k. get_or (reverse xs ++ x ∷ []) k d) (at_end last)
            ∙ get_or-append_last (reverse xs) x d
            ∙ ap (λ k. get_or (x ∷ xs) k d) (to_front last)
      ]
    where
      at_end : ¬ (i < length xs) → i ≡ length (reverse xs)
      at_end last = omega (arith, length-reverse xs)

      to_front : ¬ (i < length xs) → 0 ≡ suc (length xs) - 1 - i
      to_front last = omega arith

      shifted :
          i < length xs
          → get_or xs (length xs - 1 - i) d ≡ get_or (x ∷ xs) (suc (length xs) - 1 - i) d
      shifted before =
          ap (λ k. get_or (x ∷ xs) k d)
            (let e : suc (length xs - 1 - i) ≡ suc (length xs) - 1 - i = omega arith in e)

length-copy_back : (input : CString) (rounds i : ℕ) → length (copy_back input rounds i) ≡ rounds
unfolding copy_back
length-copy_back input zero i = refl
length-copy_back input (suc rounds) i = ap suc (length-copy_back input rounds (i + 1))

get_or-copy_back :
    (input : CString) (rounds i j : ℕ)
    → j < rounds
    → get_or (copy_back input rounds i) j 0 ≡ get_or input (length input - 1 - (i + j)) 0
unfolding copy_back
get_or-copy_back input zero i j h = absurd (omega arith)
get_or-copy_back input (suc rounds) i zero h =
    ap (λ k. get_or input (length input - 1 - k) 0) (let e : i ≡ i + 0 = omega arith in e)
get_or-copy_back input (suc rounds) i (suc j) h =
    get_or-copy_back input rounds (i + 1) j (omega arith)
    ∙ ap (λ k. get_or input (length input - 1 - k) 0)
        (let e : i + 1 + j ≡ i + suc j = omega arith in e)

-- The plugin returns the text from back to front, and loading it twice gives the text back.
reverse_string_lem :
    (s : CString) → (reverse_string s ≡ reverse s) × (reverse_string (reverse_string s) ≡ s)
unfolding reverse_string
reverse_string_lem s =
    (is_reverse s, ap reverse_string (is_reverse s) ∙ is_reverse (reverse s) ∙ reverse-reverse s)
  where
    is_reverse : (s : CString) → copy_back s (length s) 0 ≡ reverse s
    is_reverse s =
        list_ext (copy_back s (length s) 0) (reverse s) 0
          (length-copy_back s (length s) 0 ∙ sym (length-reverse s))
          (λ i lt.
            get_or-copy_back s (length s) 0 i (omega (arith, length-copy_back s (length s) 0))
            ∙ ap (λ k. get_or s (length s - 1 - k) 0) (let e : 0 + i ≡ i = omega arith in e)
            ∙ sym (get_or-reverse s i 0 (omega (arith, length-copy_back s (length s) 0))))
