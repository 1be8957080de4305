-- ===== src/Base/Family.antt =====
-- One value for each thread: what a write of one thread does to the sums over all of them.
use Prim.Native.Nat.{ℕ, zero, suc, ◌+◌, ◌*◌, ◌≤◌, ◌<◌}
use mathlib.Core.Path.{◌≡◌, refl}
use mathlib.Core.Logic.{ite, ◌≢◌}
use native.Mathlib.Decide.{dec_lt, ℕ_discrete}
use native.Mathlib.Omega.{arith}

abbrev pub update {ℓ} : {A : Type ℓ} → (ℕ → A) → ℕ → A → ℕ → A
update f i a j = ite (ℕ_discrete i j) a (f j)

-- The weight of a number in a plain sum.
abbrev pub own : ℕ → ℕ
own x = x

module _ {ℓ} {A : Type ℓ} (weight : A → ℕ) where
  unfoldable pub sum_below : ℕ → (ℕ → A) → ℕ
  sum_below zero f = 0
  sum_below (suc n) f = weight (f n) + sum_below n f

  pub sum_below-update_beyond :
      (n i : ℕ) (fam : ℕ → A) (a : A) → n ≤ i → sum_below n (update fam i a) ≡ sum_below n fam
  unfolding sum_below
  sum_below-update_beyond zero i fam a h = refl
  sum_below-update_beyond (suc n) i fam a h = ground (arith, sum_below-update_beyond n i fam a)

  -- A write at `i` trades the old weight for the new one.
  pub sum_below-update :
      (n i : ℕ) (fam : ℕ → A) (a : A)
      → i < n
      → sum_below n (update fam i a) + weight (fam i) ≡ sum_below n fam + weight a
  unfolding sum_below
  sum_below-update zero i fam a h = absurd (omega arith)
  sum_below-update (suc n) i fam a h = elim (dec_lt i n) [
    | yes below ↦ ground (arith, sum_below-update n i fam a below)
    | no last ↦ ground (arith, sum_below-update_beyond n i fam a)
  ]

  -- A value added at the end.
  pub sum_below-extend :
      (n : ℕ) (fam : ℕ → A) (a : A)
      → sum_below (n + 1) (update fam n a) ≡ sum_below n fam + weight a
  unfolding sum_below
  sum_below-extend n fam a =
      let e : n + 1 ≡ suc n = omega arith in
      rw e (ground (arith, sum_below-update_beyond n n fam a))

  pub sum_below-le :
      (bound n : ℕ) (f : ℕ → A)
      → ((i : ℕ) → i < n → weight (f i) ≤ bound)
      → sum_below n f ≤ n * bound
  unfolding sum_below
  sum_below-le bound zero f h = omega arith
  sum_below-le bound (suc n) f h =
      omega (arith, h n (omega arith), sum_below-le bound n f (λ i lt. h i (omega arith)))

  pub sum_below-const :
      (n : ℕ) (f : ℕ → A) (k : ℕ) → ((i : ℕ) → i < n → weight (f i) ≡ k) → sum_below n f ≡ n * k
  unfolding sum_below
  sum_below-const zero f k h = omega arith
  sum_below-const (suc n) f k h =
      omega (arith, h n (omega arith), sum_below-const n f k (λ i lt. h i (omega arith)))

  pub sum_below-congr :
      (n : ℕ) (f g : ℕ → A)
      → ((i : ℕ) → i < n → weight (f i) ≡ weight (g i))
      → sum_below n f ≡ sum_below n g
  unfolding sum_below
  sum_below-congr zero f g h = refl
  sum_below-congr (suc n) f g h =
      omega (arith, h n (omega arith), sum_below-congr n f g (λ i lt. h i (omega arith)))

  pub sum_below-term : (n i : ℕ) (f : ℕ → A) → i < n → weight (f i) ≤ sum_below n f
  unfolding sum_below
  sum_below-term zero i f h = absurd (omega arith)
  sum_below-term (suc n) i f h = elim (dec_lt i n) [
    | yes below ↦ omega (arith, sum_below-term n i f below)
    | no last ↦ ground arith
  ]

  -- Two families that differ at `i` alone.
  pub sum_below-change :
      (n i : ℕ) (f g : ℕ → A)
      → i < n
      → ((j : ℕ) → j < n → j ≢ i → weight (g j) ≡ weight (f j))
      → sum_below n g + weight (f i) ≡ sum_below n f + weight (g i)
  sum_below-change n i f g h same = omega (
    arith,
    sum_below-update n i f (g i) h,
    sum_below-congr n g (update f i (g i)) (λ j lt. ground (arith, same j lt)),
  )
