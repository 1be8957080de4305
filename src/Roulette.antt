-- ===== src/Roulette.antt =====
-- exercise07/task3: roulette.c, and task3.c in its version with a thread for each job. What `rand_r`
-- gives for a seed is a parameter.
pub mod Chances
use ps_os.Base.{
  ℕ, zero, suc, ◌+◌, ◌-◌, ◌*◌, ◌%◌, ◌^◌, ◌≤◌, ◌<◌, ◌≡◌, ◌⊎◌, inl, inr, refl, arith, Bool, true,
  false, ◌||◌, List, [], ◌∷◌, ltb, leb, ◌==◌, if◌then◌else◌, elem, all_below, all_below_sound,
}

pub data Color : Type 0 where
  red : Color
  black : Color
  green : Color

pub record RouletteNumber : Type 0 where
  pub number : ℕ
  pub color : Color

abbrev pub blacks : List ℕ
blacks = 2 ∷ 4 ∷ 6 ∷ 8 ∷ 10 ∷ 11 ∷ 13 ∷ 15 ∷ 17 ∷ 20 ∷ 22 ∷ 24 ∷ 26 ∷ 28 ∷ 29 ∷ 31 ∷ 33 ∷ 35 ∷ []

-- What `initializeWheel` writes to pocket `i`.
unfoldable pub initialize_wheel : ℕ → RouletteNumber
initialize_wheel i =
    if (i == 0) || (i == 37)
    then record { number = if i == 37 then 0 else i; color = green }
    else record { number = i; color = if elem i blacks then black else red }

abbrev pub is_black : Color → Bool
is_black black = true
is_black red = false
is_black green = false

abbrev pub num_spins : ℕ
num_spins = 100000

abbrev pub num_evaluations : ℕ
num_evaluations = 2000

-- The joining loop of `main`: the jobs left, the index, the minimum and the maximum. The result is
-- cut to an `unsigned` first.
unfoldable pub min_max_loop : (ℕ → ℕ) → ℕ → ℕ → ℕ → ℕ → ℕ × ℕ
min_max_loop results zero i min max = (min, max)
min_max_loop results (suc jobs) i min max =
    let r = results i % 2 ^ 32 in
    min_max_loop results jobs (i + 1) (if ltb r min then r else min) (if ltb max r then r else max)

module _ (rand_r : ℕ → ℕ × ℕ) where
  -- The loop of `simulateBetsOnBlack`, with the spins left, the seed and the result.
  unfoldable pub simulate_loop : ℕ → ℕ → ℕ → ℕ
  simulate_loop zero seed result = result
  simulate_loop (suc spins) seed result =
      let (random, seed') = rand_r seed in
      simulate_loop spins seed'
        (if is_black (initialize_wheel (random % 38)).color then (result + 1) % 2 ^ 64 else result)

  -- The result of the job with this seed.
  unfoldable pub simulate_bets_on_black : ℕ → ℕ
  unfolding simulate_loop
  simulate_bets_on_black seed = simulate_loop num_spins seed 0

  unfoldable pub main_results : ℕ × ℕ
  main_results = min_max_loop simulate_bets_on_black num_evaluations 0 (2 ^ 64 - 1) 0
