-- ===== src/Base/Strings.antt =====
-- The functions of string.h that several programs call, on the bytes of a buffer.
use Prim.Native.Nat.{ℕ, zero, suc, ◌≤◌, ◌<◌}
use mathlib.Core.Path.{◌≡◌, refl}
use mathlib.Core.List.{List, [], ◌∷◌}
use mathlib.Core.Bool.{Bool, true, false, ◌&&◌, ◌||◌}
use native.Mathlib.Omega.{arith}
use ps_os.Base.Lists.{length, replicate, overwrite, All}
use ps_os.Base.Tests.{◌==◌, if◌then◌else◌}

-- Whether two strings are the same.
unfoldable pub same_text : List ℕ → List ℕ → Bool
same_text [] [] = true
same_text (a ∷ s) (b ∷ t) = (a == b) && same_text s t
same_text _ _ = false

-- `strncmp` with the length of the pattern gives 0.
abbrev pub is_prefix : List ℕ → List ℕ → Bool
is_prefix [] s = true
is_prefix (p ∷ pattern) [] = false
is_prefix (p ∷ pattern) (c ∷ s) = (p == c) && is_prefix pattern s

-- `strcspn(s, "\n")`
abbrev pub strcspn_newline : List ℕ → ℕ
strcspn_newline [] = 0
strcspn_newline (c ∷ s) = if (c == 0) || (c == b'\n') then 0 else suc (strcspn_newline s)

-- A pattern without 0 is not found in the zeros behind a text.
pub is_prefix-overwrite :
    (pattern bytes : List ℕ) (n : ℕ)
    → All (λ c. 0 < c) pattern
    → length bytes ≤ n
    → is_prefix pattern (overwrite bytes (replicate n 0)) ≡ is_prefix pattern bytes
is_prefix-overwrite [] bytes n h short = refl
is_prefix-overwrite (p ∷ pattern) [] zero h short = refl
is_prefix-overwrite (p ∷ pattern) [] (suc n) h short = ground (arith, h.0)
is_prefix-overwrite (p ∷ pattern) (b ∷ bytes) zero h short = absurd (omega arith)
is_prefix-overwrite (p ∷ pattern) (b ∷ bytes) (suc n) (hp, h) short =
    ground (arith, is_prefix-overwrite pattern bytes n h (omega arith))
