-- ===== src/Roulette/Chances.antt =====
-- exercise07/task3: the pockets of the wheel, and the minimum and the maximum over all jobs.
use ps_os.Base.{
  ℕ, zero, suc, ◌+◌, ◌-◌, ◌%◌, ◌^◌, ◌≤◌, ◌<◌, ◌≡◌, ◌⊎◌, inl, inr, refl, arith, Bool, ltb,
  if◌then◌else◌, dec_lt, ℕ_discrete,
}
use ps_os.Roulette.{
  Color, initialize_wheel, is_black, num_spins, num_evaluations, simulate_loop,
  simulate_bets_on_black, min_max_loop, main_results,
}

-- Pockets below `n` of a color that passes the test.
abbrev pockets : (Color → Bool) → ℕ → ℕ
pockets test zero = 0
pockets test (suc n) = (if test (initialize_wheel n).color then 1 else 0) + pockets test n

wheel_black : pockets is_black 38 ≡ 18
unfolding initialize_wheel
wheel_black = refl

module _ (rand_r : ℕ → ℕ × ℕ) where
  simulate_loop-le :
      (spins seed result : ℕ)
      → result + spins < 2 ^ 32
      → simulate_loop rand_r spins seed result ≤ result + spins
  unfolding simulate_loop
  simulate_loop-le zero seed result small = omega arith
  simulate_loop-le (suc spins) seed result small = ground (
    arith,
    simulate_loop-le spins (rand_r seed).1 result,
    simulate_loop-le spins (rand_r seed).1 ((result + 1) % 2 ^ 64),
  )

  -- No job wins more often than it spins.
  pub simulate_bets_on_black-le : (seed : ℕ) → simulate_bets_on_black rand_r seed ≤ num_spins
  unfolding simulate_bets_on_black
  simulate_bets_on_black-le seed = simulate_loop-le num_spins seed 0 (omega arith)

-- The pair bounds the results from `i` on, as far as the jobs left go, and does not exclude the
-- minimum and the maximum before them.
abbrev Bounds : (ℕ → ℕ) → ℕ → ℕ → ℕ → ℕ → ℕ × ℕ → Type 0
Bounds results jobs i min max found =
    (found.0 ≤ min)
    × (max ≤ found.1)
    × ((j : ℕ) → i ≤ j → j < i + jobs → (found.0 ≤ results j) × (results j ≤ found.1))

min_max_loop-Bounds :
    (results : ℕ → ℕ) (jobs i min max : ℕ)
    → ((j : ℕ) → results j < 2 ^ 32)
    → Bounds results jobs i min max (min_max_loop results jobs i min max)
unfolding min_max_loop
min_max_loop-Bounds results zero i min max small =
    (omega arith, omega arith, λ j from below. absurd (omega arith))
min_max_loop-Bounds results (suc jobs) i min max small =
    let r : ℕ = results i % 2 ^ 32 in
    let min' : ℕ = (if ltb r min then r else min) in
    let max' : ℕ = (if ltb max r then r else max) in
    let rest = min_max_loop-Bounds results jobs (i + 1) min' max' small in
    (
      ground (arith, rest.0),
      ground (arith, rest.1),
      λ j from below. elim (ℕ_discrete j i) [
        | yes here ↦ ground (arith, rest.0, rest.1, small i)
        | no later ↦ rest.2 j (omega arith) (omega arith)
      ],
    )

-- Some job from `i` on has this result.
abbrev Attained : (ℕ → ℕ) → ℕ → ℕ → ℕ → Type 0
Attained results i jobs r = (j : ℕ) × (i ≤ j) × (j < i + jobs) × (results j ≡ r)

Attained-later :
    (results : ℕ → ℕ) (i jobs r : ℕ)
    → Attained results (i + 1) jobs r
    → Attained results i (suc jobs) r
Attained-later results i jobs r (j, from, below, e) = (j, omega arith, omega arith, e)

-- The minimum and the maximum were there before, or some job has them.
min_max_loop-Attained :
    (results : ℕ → ℕ) (jobs i min max : ℕ)
    → ((j : ℕ) → results j < 2 ^ 32)
    → (((min_max_loop results jobs i min max).0 ≡ min)
        ⊎ Attained results i jobs (min_max_loop results jobs i min max).0)
      × (((min_max_loop results jobs i min max).1 ≡ max)
          ⊎ Attained results i jobs (min_max_loop results jobs i min max).1)
unfolding min_max_loop
min_max_loop-Attained results zero i min max small = (inl refl, inl refl)
min_max_loop-Attained results (suc jobs) i min max small =
    let r : ℕ = results i % 2 ^ 32 in
    let min' : ℕ = (if ltb r min then r else min) in
    let max' : ℕ = (if ltb max r then r else max) in
    let rest = min_max_loop-Attained results jobs (i + 1) min' max' small in
    (
      elim rest.0 [
        | inl kept ↦ elim (dec_lt r min) [
          | yes less ↦ inr (i, omega arith, omega arith, ground (arith, small i))
          | no not_less ↦ inl (ground arith)
        ]
        | inr later ↦ inr (Attained-later results i jobs _ later)
      ],
      elim rest.1 [
        | inl kept ↦ elim (dec_lt max r) [
          | yes more ↦ inr (i, omega arith, omega arith, ground (arith, small i))
          | no not_more ↦ inl (ground arith)
        ]
        | inr later ↦ inr (Attained-later results i jobs _ later)
      ],
    )

-- The two numbers that `main` prints are the least and the greatest result of all jobs: they bound
-- each result, some job has the one and some job the other, and neither exceeds the number of spins.
pub main_results_lem :
    (rand_r : ℕ → ℕ × ℕ)
    → let results = simulate_bets_on_black rand_r in
      let (least, most) = main_results rand_r in
      ((j : ℕ) → j < num_evaluations → (least ≤ results j) × (results j ≤ most))
      × ((j : ℕ) × (j < num_evaluations) × (results j ≡ least))
      × ((j : ℕ) × (j < num_evaluations) × (results j ≡ most))
      × (most ≤ num_spins)
unfolding main_results
main_results_lem rand_r =
    let results = simulate_bets_on_black rand_r in
    let at_most = simulate_bets_on_black-le rand_r in
    let small : (j : ℕ) → results j < 2 ^ 32 = λ j. omega (arith, at_most j) in
    let bounds = min_max_loop-Bounds results num_evaluations 0 (2 ^ 64 - 1) 0 small in
    let attained = min_max_loop-Attained results num_evaluations 0 (2 ^ 64 - 1) 0 small in
    let most_won : (j : ℕ) × (j < num_evaluations) × (results j ≡ (main_results rand_r).1) =
      elim attained.1 [
        | inl kept ↦ (0, omega arith, omega (arith, kept, bounds.2 0 (omega arith) (omega arith)))
        | inr (j, from, below, e) ↦ (j, omega arith, e)
      ] in
    (
      λ j below. bounds.2 j (omega arith) (omega arith),
      elim attained.0 [
        | inl kept ↦ absurd (omega (arith, kept, small 0, bounds.2 0 (omega arith) (omega arith)))
        | inr (j, from, below, e) ↦ (j, omega arith, e)
      ],
      most_won,
      omega (arith, most_won.2, at_most most_won.0),
    )
