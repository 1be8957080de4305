-- ===== src/Shift/Rotation.antt =====
-- exercise04/task1/task1.c: the shifted string is the argument rotated by two.
use ps_os.Base.{
  ℕ, zero, suc, ◌+◌, ◌-◌, ◌<◌, ◌≡◌, refl, ap, ap₂, sym, ◌∙◌, List, [], ◌∷◌, ◌++◌, map, Option, some,
  arith, length, get_or, set, take, drop, dec_lt, list_ext, length-set, length-append, length-take,
  length-drop, get_or-set_self, get_or-set_ne, get_or-take, get_or-drop, get_or-append_left,
  get_or-append_right, All, All-append, All-take, All-drop,
}
use ps_os.Plugins.{CString, IsString, c_str, toupper}
use ps_os.Shift.{shift_loop, string_shift_right, Line, success, copy_arguments, join_threads, main}
use ps_os.Shift.Loops.{source, length-shift_loop, get_or-shift_loop, upper_loop-map}

-- The last two bytes in front of the others.
abbrev pub rotate_right : CString → CString
rotate_right s = drop (length s - 2) s ++ take (length s - 2) s

length-rotate_right : (s : CString) → length (rotate_right s) ≡ length s
length-rotate_right s = omega (
  arith,
  length-append (drop (length s - 2) s) (take (length s - 2) s),
  length-drop (length s - 2) s (omega arith),
  length-take (length s - 2) s (omega arith),
)

get_or-rotate_right :
    (s : CString) (j : ℕ)
    → j < length s
    → get_or (rotate_right s ++ 0 ∷ []) j 0 ≡ get_or s (source (length s) j) 0
get_or-rotate_right s j lj =
    get_or-append_left (rotate_right s) (0 ∷ []) j 0 (omega (arith, length-rotate_right s))
    ∙ elim (dec_lt j 2) [
      | yes low ↦
          get_or-append_left back front j 0 (omega (arith, back_length))
          ∙ get_or-drop (length s - 2) s j (source (length s) j) 0 (ground arith)
      | no high ↦
          get_or-append_right back front (j - 2) j 0 (omega (arith, back_length))
          ∙ get_or-take (length s - 2) s (j - 2) 0 (omega arith)
          ∙ ground arith
    ]
  where
    back : CString
    back = drop (length s - 2) s

    front : CString
    front = take (length s - 2) s

    back_length : length back + (length s - 2) ≡ length s
    back_length = length-drop (length s - 2) s (omega arith)

c_str-append : (s : CString) → IsString s → c_str (s ++ 0 ∷ []) ≡ s
c_str-append [] h = refl
c_str-append (zero ∷ s) h = absurd (omega (arith, h.0.0))
c_str-append (suc c ∷ s) h = ap (λ r. suc c ∷ r) (c_str-append s h.1)

-- The returned block is a string of its own with terminator, whatever the block held.
string_shift_right_lem :
    (b : List ℕ) (s : CString)
    → length b ≡ length s + 1
    → string_shift_right b s ≡ (map toupper s, rotate_right s ++ 0 ∷ [])
unfolding string_shift_right
string_shift_right_lem b s lb =
    ap₂ (λ u v. (u, v)) (upper_loop-map s)
      (list_ext shifted (rotate_right s ++ 0 ∷ []) 0
        (omega
          (arith, length-shifted, length-append (rotate_right s) (0 ∷ []), length-rotate_right s))
        at)
  where
    moved : List ℕ
    moved = shift_loop s (length s) 0 b

    shifted : List ℕ
    shifted = set moved (length s) 0

    length-shifted : length shifted ≡ length b
    length-shifted = length-set moved (length s) 0 ∙ length-shift_loop s (length s) 0 b

    at : (j : ℕ) → j < length shifted → get_or shifted j 0 ≡ get_or (rotate_right s ++ 0 ∷ []) j 0
    at j lj = elim (dec_lt j (length s)) [
      | yes lt ↦
          get_or-set_ne moved (length s) j 0 0 (λ e. omega arith)
          ∙ get_or-shift_loop s (length s) 0 b j (omega arith) lb lt
          ∙ ground (arith, get_or-rotate_right s j lt)
      | no last ↦
          let e : length s ≡ j = omega (arith, length-shifted) in
          ap (λ k. get_or shifted k 0) (sym e)
          ∙ get_or-set_self moved (length s) 0 0 (omega (arith, length-shift_loop s (length s) 0 b))
          ∙ sym (
              get_or-append_right (rotate_right s) (0 ∷ []) 0 j 0
                (omega (arith, length-rotate_right s)))
    ]

-- What is printed of an argument.
abbrev pub line_of : CString → Line
line_of s = record { original = s; uppercased = map toupper s; shifted = rotate_right s }

module _ (malloc : ℕ → ℕ → Option (List ℕ))
    (enough : (calls n : ℕ) → (b : List ℕ) × (malloc calls n ≡ some b) × (length b ≡ n)) where
  copy_arguments-some :
      (calls : ℕ) (argv : List CString) → copy_arguments malloc calls argv ≡ some argv
  unfolding copy_arguments
  copy_arguments-some calls [] = refl
  copy_arguments-some calls (arg ∷ argv) =
      let (b, e, l) = enough calls (length arg + 1) in
      rw (copy_arguments-some (calls + 1) argv, e) refl

  join_threads-success :
      (calls : ℕ) (argv : List CString)
      → All IsString argv
      → join_threads malloc calls argv argv ≡ success (map line_of argv)
  unfolding join_threads
  join_threads-success calls [] h = refl
  join_threads-success calls (arg ∷ argv) (ha, h) =
      let (b, e, l) = enough calls (length arg + 1) in
      rw
        (
          join_threads,
          e,
          join_threads-success (calls + 1) argv h,
          string_shift_right_lem b arg l,
          c_str-append (rotate_right arg) (
              All-append (λ c. (0 < c) × (c < 256)) (drop (length arg - 2) arg)
                (take (length arg - 2) arg)
                (All-drop (λ c. (0 < c) × (c < 256)) (length arg - 2) arg ha)
                (All-take (λ c. (0 < c) × (c < 256)) (length arg - 2) arg ha)),
        )
        refl

  -- Where every allocation succeeds, the program prints for each argument, in order, the argument,
  -- the argument in upper case, and the argument with its last two bytes moved to the front,
  -- whatever the allocated blocks held.
  pub main-line_of :
      (argv : List CString) → All IsString argv → main malloc argv ≡ success (map line_of argv)
  unfolding main
  main-line_of argv h =
      rw (main, copy_arguments-some 0 argv) (join_threads-success (length argv) argv h)
