-- ===== src/Plugins/Letters.antt =====
-- caesar_cipher.c, xor_string.c and library_two.c of exercise10/task3: plugins that change each
-- letter by itself.
use ps_os.Base.{
  ℕ, zero, suc, ◌-◌, ◌<◌, ◌≡◌, ◌≢◌, refl, ap, ap₂, sym, ◌∙◌, Bool, true, ◌&&◌, List, [], ◌∷◌, map,
  arith, ◌==◌, ltb, Bool-cases, inl, inr, not, ◌||◌, false, all_below, all_below_sound, All,
  if◌then◌else◌,
}
use ps_os.Plugins.{
  CString, IsString, c_str, map_in_place, rotate_char, caesar, flip_char, xor_string, toupper,
  upper_case, is_lower,
}

c_str-cons : (n : ℕ) (s : List ℕ) → 0 < n → c_str (n ∷ s) ≡ n ∷ c_str s
c_str-cons zero s h = elim h [ ]
c_str-cons (suc n) s h = refl

c_str-zero : (n : ℕ) (s : List ℕ) → n ≡ 0 → c_str (n ∷ s) ≡ []
c_str-zero zero s h = refl
c_str-zero (suc n) s h = absurd (omega arith)

-- The loop is a plain map where no byte becomes 0.
pub map_in_place-map : (f : ℕ → ℕ) (s : CString) → All (λ c. 0 < f c) s → map_in_place f s ≡ map f s
unfolding map_in_place
map_in_place-map f [] h = refl
map_in_place-map f (c ∷ s) (p, h) =
    c_str-cons (f c) (map f s) p ∙ ap (λ r. f c ∷ r) (map_in_place-map f s h)

-- A plugin that maps the bytes of a class into the class, and undoes itself there, is undone by
-- loading it twice.
module _ (f : ℕ → ℕ) (Good : ℕ → Type 0)
    (keeps : (c : ℕ) → Good c → Good (f c) × (0 < f c) × (0 < c) × (f (f c) ≡ c)) where
  map_pos : (s : CString) → All Good s → All (λ c. 0 < f c) s
  map_pos [] h = tt
  map_pos (c ∷ s) (p, h) = ((keeps c p).1, map_pos s h)

  All-map : (s : CString) → All Good s → All Good (map f s)
  All-map [] h = tt
  All-map (c ∷ s) (p, h) = ((keeps c p).0, All-map s h)

  map-map : (s : CString) → All Good s → map f (map f s) ≡ s
  map-map [] h = refl
  map-map (c ∷ s) (p, h) = rw ((keeps c p).3, map-map s h)

  pub map_in_place_twice : (s : CString) → All Good s → map_in_place f (map_in_place f s) ≡ s
  map_in_place_twice s h =
      rw
        (
          map_in_place-map f s (map_pos s h),
          map_in_place-map f (map f s) (map_pos (map f s) (All-map s h)),
        )
        (map-map s h)

rotate_char_keeps :
    (c : ℕ)
    → (0 < c) × (c < 256)
    → ((0 < rotate_char c) × (rotate_char c < 256))
      × (0 < rotate_char c)
      × (0 < c)
      × (rotate_char (rotate_char c) ≡ c)
unfolding rotate_char
rotate_char_keeps c h = ground arith

-- Loading the Caesar plugin twice gives the text back.
caesar_twice : (s : CString) → IsString s → caesar (caesar s) ≡ s
unfolding caesar
caesar_twice s is = map_in_place_twice rotate_char (λ c. (0 < c) × (c < 256)) rotate_char_keeps s is

-- Every byte but 0 and the space is turned into such a byte, and back.
abbrev flips : ℕ → Bool
flips c =
    if (c == 0) || (c == 32)
    then (flip_char c == 32 - c)
    else (not (flip_char c == 0)
        && not (flip_char c == 32)
        && ltb (flip_char c) 256
        && (flip_char (flip_char c) == c))

flips_table : all_below 256 flips ≡ true
unfolding flip_char all_below
flips_table = refl

flip_char_keeps :
    (c : ℕ)
    → ((0 < c) × (c < 256) × (c ≢ 32))
    → ((0 < flip_char c) × (flip_char c < 256) × (flip_char c ≢ 32))
      × (0 < flip_char c)
      × (0 < c)
      × (flip_char (flip_char c) ≡ c)
flip_char_keeps c h = ground (arith, all_below_sound 256 flips c flips_table)

flip_char_space : flip_char 32 ≡ 0
unfolding flip_char
flip_char_space = refl

-- The text before the first space.
unfoldable pub until_space : CString → CString
until_space [] = []
until_space (c ∷ s) = if c == 32 then [] else c ∷ until_space s

until_space-good :
    (s : CString) → IsString s → All (λ c. (0 < c) × (c < 256) × (c ≢ 32)) (until_space s)
unfolding until_space
until_space-good [] is = tt
until_space-good (c ∷ s) (p, is) = elim (Bool-cases (c == 32)) [
  | inl space ↦ rw space tt
  | inr other ↦ rw other ((p.0, p.1, ground arith), until_space-good s is)
]

xor_string-until_space : (s : CString) → IsString s → xor_string s ≡ xor_string (until_space s)
unfolding xor_string map_in_place until_space
xor_string-until_space [] is = refl
xor_string-until_space (c ∷ s) (p, is) = elim (Bool-cases (c == 32)) [
  | inl space ↦
      rw space (c_str-zero (flip_char c) (map flip_char s) (ground (arith, flip_char_space)))
  | inr other ↦ rw other (
      c_str-cons (flip_char c) (map flip_char s) (stays other)
      ∙ ap (λ r. flip_char c ∷ r) (xor_string-until_space s is)
      ∙ sym (c_str-cons (flip_char c) (map flip_char (until_space s)) (stays other)))
]
  where
    stays : (c == 32) ≡ false → 0 < flip_char c
    stays other = (flip_char_keeps c (p.0, p.1, ground arith)).1

-- Loading the xor plugin twice gives back the text up to its first space, which it turns into the
-- terminator: the whole text if it has no space.
xor_string_twice : (s : CString) → IsString s → xor_string (xor_string s) ≡ until_space s
unfolding xor_string
xor_string_twice s is =
    ap (map_in_place flip_char) (xor_string-until_space s is)
    ∙ map_in_place_twice flip_char (λ c. (0 < c) × (c < 256) × (c ≢ 32)) flip_char_keeps
        (until_space s) (until_space-good s is)

toupper_pos : (s : CString) → IsString s → All (λ c. 0 < toupper c) s
unfolding toupper
toupper_pos [] is = tt
toupper_pos (c ∷ s) (p, is) = (ground arith, toupper_pos s is)

toupper-map_pos : (s : CString) → IsString s → All (λ c. 0 < toupper c) (map toupper s)
unfolding toupper
toupper-map_pos [] is = tt
toupper-map_pos (c ∷ s) (p, is) = (ground arith, toupper-map_pos s is)

map-toupper_twice : (s : CString) → map toupper (map toupper s) ≡ map toupper s
unfolding toupper
map-toupper_twice [] = refl
map-toupper_twice (c ∷ s) = ap₂ ◌∷◌ (ground arith) (map-toupper_twice s)

no_lower : (s : CString) → All (λ c. is_lower c ≡ false) (map toupper s)
unfolding toupper
no_lower [] = tt
no_lower (c ∷ s) = (ground arith, no_lower s)

-- The upper-case plugin changes every byte by `toupper`, leaves no lower-case letter, and changes
-- nothing when it is loaded again.
upper_case_lem :
    (s : CString)
    → IsString s
    → (upper_case (upper_case s) ≡ upper_case s)
      × (upper_case s ≡ map toupper s)
      × All (λ c. is_lower c ≡ false) (upper_case s)
unfolding upper_case
upper_case_lem s is = (twice, once, rw once (no_lower s))
  where
    once : map_in_place toupper s ≡ map toupper s
    once = map_in_place-map toupper s (toupper_pos s is)

    twice : map_in_place toupper (map_in_place toupper s) ≡ map_in_place toupper s
    twice =
        rw once
          (map_in_place-map toupper (map toupper s) (toupper-map_pos s is) ∙ map-toupper_twice s)
