-- ===== src/Plugins/Substitution.antt =====
-- library_one.c of exercise10/task3: after how many loads the substitution gives the text back.
use ps_os.Base.{
  ℕ, zero, suc, ◌<◌, ◌≡◌, ◌↔◌, refl, ap, ap₂, sym, ◌∙◌, Bool, true, false, not, ◌&&◌, ◌||◌, List,
  [], ◌∷◌, map, arith, ltb, ◌==◌, All, all_below, all_below_sound, ==_iff,
}
use ps_os.Plugins.{CString, IsString, substitute_char, substitute, is_lower, is_upper}
use ps_os.Plugins.Letters.{map_in_place-map}

-- `f` loaded `n` times.
unfoldable pub loaded {ℓ} : {A : Type ℓ} → ℕ → (A → A) → A → A
loaded zero f x = x
loaded (suc n) f x = loaded n f (f x)

abbrev keeps_byte : ℕ → Bool
keeps_byte c = (c == 0) || (ltb 0 (substitute_char c) && ltb (substitute_char c) 256)

keeps_byte_table : all_below 256 keeps_byte ≡ true
unfolding substitute_char all_below
keeps_byte_table = refl

substitute_char_byte :
    (c : ℕ) → 0 < c → c < 256 → (0 < substitute_char c) × (substitute_char c < 256)
substitute_char_byte c p q = ground (arith, all_below_sound 256 keeps_byte c keeps_byte_table)

-- Letters that two loads give back.
abbrev pub swapped_letter : ℕ → Bool
swapped_letter c = (c == b'l') || (c == b's') || (c == b'L') || (c == b'S')

abbrev pub is_letter : ℕ → Bool
is_letter c = is_lower c || is_upper c

abbrev same : Bool → Bool → Bool
same true b = b
same false b = not b

abbrev back_after_26 : ℕ → Bool
back_after_26 c = same (loaded 26 substitute_char c == c) (not (is_letter c) || swapped_letter c)

after_26_table : all_below 256 back_after_26 ≡ true
unfolding substitute_char all_below loaded
after_26_table = refl

after_42_table : all_below 256 (λ c. loaded 42 substitute_char c == c) ≡ true
unfolding substitute_char all_below loaded
after_42_table = refl

substitute-map :
    (s : CString) → IsString s → (substitute s ≡ map substitute_char s) × IsString (substitute s)
unfolding substitute
substitute-map s is =
    let once = map_in_place-map substitute_char s (pos s is) in (once, rw once (bytes s is))
  where
    pos : (s : CString) → IsString s → All (λ c. 0 < substitute_char c) s
    pos [] is = tt
    pos (c ∷ s) ((p, q), is) = ((substitute_char_byte c p q).0, pos s is)

    bytes : (s : CString) → IsString s → IsString (map substitute_char s)
    bytes [] is = tt
    bytes (c ∷ s) ((p, q), is) = (substitute_char_byte c p q, bytes s is)

-- Loading the plugin `n` times substitutes each byte `n` times.
loaded-substitute :
    (n : ℕ) (s : CString) → IsString s → loaded n substitute s ≡ map (loaded n substitute_char) s
unfolding loaded
loaded-substitute zero s is = sym (map_id s)
  where
    map_id : (s : List ℕ) → map (λ c. c) s ≡ s
    map_id [] = refl
    map_id (c ∷ s) = ap (λ r. c ∷ r) (map_id s)
loaded-substitute (suc n) s is =
    let (once, bytes) = substitute-map s is in
    loaded-substitute n (substitute s) bytes ∙ ap (map (loaded n substitute_char)) once ∙ fused s
  where
    fused :
        (s : List ℕ)
        → map (loaded n substitute_char) (map substitute_char s)
          ≡ map (λ c. loaded n substitute_char (substitute_char c)) s
    fused [] = refl
    fused (c ∷ s) = ap (λ r. loaded n substitute_char (substitute_char c) ∷ r) (fused s)

-- Loaded 42 times, the plugin gives every text back.
pub loaded_42-substitute : (s : CString) → IsString s → loaded 42 substitute s ≡ s
loaded_42-substitute s is = loaded-substitute 42 s is ∙ each s is
  where
    each : (s : CString) → IsString s → map (loaded 42 substitute_char) s ≡ s
    each [] is = refl
    each (c ∷ s) ((p, q), is) =
        ap₂ ◌∷◌ ((==_iff _ c).0 (all_below_sound 256 _ c after_42_table q)) (each s is)

byte_after_26 :
    (c : ℕ)
    → c < 256
    → (loaded 26 substitute_char c ≡ c) ↔ ((not (is_letter c) || swapped_letter c) ≡ true)
byte_after_26 c q =
    same_iff (loaded 26 substitute_char c) c (not (is_letter c) || swapped_letter c)
      (all_below_sound 256 back_after_26 c after_26_table q)
  where
    same_iff : (a c : ℕ) (b : Bool) → same (a == c) b ≡ true → (a ≡ c) ↔ (b ≡ true)
    same_iff a c b h = ground arith

-- Loaded 26 times, it gives a text back exactly if the only letters of the text are L and S.
loaded_26-substitute :
    (s : CString)
    → IsString s
    → (loaded 26 substitute s ≡ s) ↔ All (λ c. (not (is_letter c) || swapped_letter c) ≡ true) s
loaded_26-substitute s is = (
  λ e. only s is (sym (loaded-substitute 26 s is) ∙ e),
  λ h. loaded-substitute 26 s is ∙ each s is h,
)
  where
    each :
        (s : CString)
        → IsString s
        → All (λ c. (not (is_letter c) || swapped_letter c) ≡ true) s
        → map (loaded 26 substitute_char) s ≡ s
    each [] is h = refl
    each (c ∷ s) ((p, q), is) (l, h) = ap₂ ◌∷◌ ((byte_after_26 c q).1 l) (each s is h)

    only :
        (s : CString)
        → IsString s
        → map (loaded 26 substitute_char) s ≡ s
        → All (λ c. (not (is_letter c) || swapped_letter c) ≡ true) s
    only [] is e = tt
    only (c ∷ s) ((p, q), is) e = ((byte_after_26 c q).0 (cc), only s is (cc))
