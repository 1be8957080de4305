-- ===== src/Shift/Loops.antt =====
-- exercise04/task1/task1.c: what the two loops of a thread write.
use native.Mathlib.Nat.{mod-eq_of_lt, mod-eq-sub-mod}
use ps_os.Base.{
  ℕ, zero, suc, ◌+◌, ◌-◌, ◌%◌, ◌<◌, ◌≡◌, refl, sym, ◌∙◌, List, [], ◌∷◌, map, arith, length, get_or,
  set, dec_lt, ltb, if◌then◌else◌, list_ext, length-set, length-map, get_or-set_self, get_or-set_ne,
  ℕ_discrete,
}
use ps_os.Plugins.{CString, toupper}
use ps_os.Shift.{shift_loop, upper_loop}

-- The index that is moved to index `j`.
abbrev pub source : ℕ → ℕ → ℕ
source n j = if ltb j 2 then j + n - 2 else j - 2

position-source :
    (n i j : ℕ)
    → i < n
    → j < n
    → ((i + 2) % n ≡ j → i ≡ source n j) × (i ≡ source n j → (i + 2) % n ≡ j)
position-source n i j hi hj = elim (dec_lt 1 n) [
  | no one ↦ (λ e. ground arith, λ e. position-one n i j (omega arith) (omega arith))
  | yes more ↦ elim (dec_lt (i + 2) n) [
    | yes inside ↦ let e = mod-eq_of_lt inside in (λ h. ground arith, λ h. ground arith)
    | no beyond ↦
        let e : (i + 2) % n ≡ (i + 2 - n) % n = mod-eq-sub-mod (omega arith) in
        let f : (i + 2 - n) % n ≡ i + 2 - n = mod-eq_of_lt (omega arith) in
        (λ h. ground arith, λ h. ground arith)
  ]
]
  where
    position-one : (n i j : ℕ) → n ≡ 1 → j ≡ 0 → (i + 2) % n ≡ j
    position-one n i j e f = rw (e, f) (omega arith)

pub length-shift_loop :
    (input : CString) (rounds i : ℕ) (b : List ℕ) → length (shift_loop input rounds i b) ≡ length b
unfolding shift_loop
length-shift_loop input zero i b = refl
length-shift_loop input (suc rounds) i b =
    length-shift_loop input rounds (i + 1) (set b ((i + 2) % length input) (get_or input i 0))
    ∙ length-set b ((i + 2) % length input) (get_or input i 0)

pub get_or-shift_loop :
    (input : CString) (rounds i : ℕ) (b : List ℕ) (j : ℕ)
    → rounds + i ≡ length input
    → length b ≡ length input + 1
    → j < length input
    → get_or (shift_loop input rounds i b) j 0 ≡ (
        if ltb (source (length input) j) i
        then get_or b j 0
        else get_or input (source (length input) j) 0)
unfolding shift_loop
get_or-shift_loop input zero i b j e lb lj = ground arith
get_or-shift_loop input (suc rounds) i b j e lb lj =
    get_or-shift_loop input rounds (i + 1) (set b p (get_or input i 0)) j (omega arith)
      (length-set b p (get_or input i 0) ∙ lb) lj
    ∙ elim (ℕ_discrete p j) [
      | yes at ↦ ground (
        arith,
        (position-source (length input) i j (omega arith) lj).0 at,
        get_or-set_self b p (get_or input i 0) 0,
      )
      | no off ↦ ground (
        arith,
        (position-source (length input) i j (omega arith) lj).1,
        get_or-set_ne b p j (get_or input i 0) 0 off,
      )
    ]
  where
    p : ℕ
    p = (i + 2) % length input

length-upper_loop : (rounds i : ℕ) (s : CString) → length (upper_loop rounds i s) ≡ length s
unfolding upper_loop
length-upper_loop zero i s = refl
length-upper_loop (suc rounds) i s =
    length-upper_loop rounds (i + 1) (set s i (toupper (get_or s i 0)))
    ∙ length-set s i (toupper (get_or s i 0))

get_or-upper_loop :
    (rounds i : ℕ) (s : CString) (j : ℕ)
    → rounds + i ≡ length s
    → j < length s
    → get_or (upper_loop rounds i s) j 0
      ≡ (if ltb j i then get_or s j 0 else toupper (get_or s j 0))
unfolding upper_loop
get_or-upper_loop zero i s j e lj = ground arith
get_or-upper_loop (suc rounds) i s j e lj =
    get_or-upper_loop rounds (i + 1) (set s i v) j (omega (arith, length-set s i v))
      (omega (arith, length-set s i v))
    ∙ elim (ℕ_discrete i j) [
      | yes at ↦ ground (arith, get_or-set_self s i v 0)
      | no off ↦ ground (arith, get_or-set_ne s i j v 0 off)
    ]
  where
    v : ℕ
    v = toupper (get_or s i 0)

pub upper_loop-map : (s : CString) → upper_loop (length s) 0 s ≡ map toupper s
upper_loop-map s =
    list_ext (upper_loop (length s) 0 s) (map toupper s) 0
      (length-upper_loop (length s) 0 s ∙ sym (length-map toupper s))
      (λ j lj.
        let lt : j < length s = omega (arith, length-upper_loop (length s) 0 s) in
        get_or-upper_loop (length s) 0 s j (omega arith) lt ∙ ground (arith, get_or-map s j lt))
  where
    get_or-map :
        (s : CString) (j : ℕ) → j < length s → toupper (get_or s j 0) ≡ get_or (map toupper s) j 0
    get_or-map [] j h = absurd (omega arith)
    get_or-map (c ∷ s) zero h = refl
    get_or-map (c ∷ s) (suc j) h = get_or-map s j (omega arith)
