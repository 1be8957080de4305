-- ===== src/Examples/Bees.antt =====
-- exercise11/task3: two bees on a field of one flower.
use ps_os.Base.{
  ℕ, zero, suc, ◌+◌, ◌≤◌, ◌<◌, ◌≡◌, ◌⊎◌, inl, inr, refl, true, [], ◌∷◌, arith, length, ℕ_discrete,
  sum_below,
}
use ps_os.Hive.{
  FieldGeometry, IsField, calculate_positions, error_value, bear_attack, check_nearby_flowers,
}
use ps_os.Hive.Geometry.{position_of, above, below, before, after, calculate_positions-neighbours}
use ps_os.Hive.Bees.{
  home, Hive, plant, init, Move, Step, Reach, start, step, bee_moves, first_release, second_release,
  stop_polling, set_terminate, join_all, go_home, next_round, lock_queue_mutex, see_empty,
  see_entry, load_first, load_next, store_null, reset_last, unlock_nothing, unlock_took,
  lock_field_mutex, see_nectar, clear_nectar, count_flower, skip_error, report_done, unlock_field,
  bear_away,
}
use ps_os.Hive.Locks.{mutual_exclusion}
use ps_os.Hive.Ranges.{bees_in_bounds}
use ps_os.Hive.Count.{left, tallying, collected_lem}
use ps_os.Hive.Outcome.{joined_outcome}
use ps_os.Hive.Stranded.{Deadlocked, RoundOver, stranded_bee}

abbrev one_flower : FieldGeometry
one_flower = record { width = 1; height = 1; number_flowers = 1 }

one_flower-IsField : IsField one_flower
one_flower-IsField = omega arith

abbrev Run : Type 0
Run = (s : Hive) × Reach one_flower 2 s

abbrev moves : (r : Run) (j : ℕ) → j < 2 → {t : Hive} → Move one_flower r.0 j (r.0.bee j) t → Run
moves r j lt {t} mv = (t, step r.1 (bee_moves j lt mv))

abbrev steps : (r : Run) {t : Hive} → Step one_flower 2 r.0 t → Run
steps r {t} st = (t, step r.1 st)

-- Bee 0 has seen the entry that `main` has pushed.
about_to_pop : Run
unfolding init plant ℕ_discrete
about_to_pop =
    let r0 : Run = (init one_flower, start) in
    let r1 = moves r0 0 (omega arith) (next_round refl refl refl) in
    let r2 = moves r1 0 (omega arith) (lock_queue_mutex refl refl refl) in
    moves r2 0 (omega arith) (see_entry refl refl refl)

-- It has flown to the flower and is about to clear it.
about_to_harvest : Run
unfolding about_to_pop
about_to_harvest =
    let r3a = moves about_to_pop 0 (omega arith) (load_first refl (ground arith) refl) in
    let r3b = moves r3a 0 (omega arith) (load_next 1 0 refl refl) in
    let popped = moves r3b 0 (omega arith) (store_null 0 0 refl refl refl) in
    let r4 = moves popped 0 (omega arith) (reset_last 0 refl refl) in
    let r5 = moves r4 0 (omega arith) (unlock_took 0 refl refl) in
    let r6 = moves r5 0 (omega arith) (lock_field_mutex 0 refl refl refl) in
    moves r6 0 (omega arith) (see_nectar 0 refl refl refl)

-- The flower is counted and reported; the other bee has found nothing.
at_barrier : Run
unfolding about_to_harvest calculate_positions
at_barrier =
    let r8 = moves about_to_harvest 0 (omega arith) (clear_nectar 0 refl refl) in
    let r9 = moves r8 0 (omega arith) (count_flower 0 refl refl) in
    let r10 =
      moves r9 0 (omega arith)
        (skip_error (error_value ∷ error_value ∷ error_value ∷ []) refl refl) in
    let r11 = moves r10 0 (omega arith) (skip_error (error_value ∷ error_value ∷ []) refl refl) in
    let r12 = moves r11 0 (omega arith) (skip_error (error_value ∷ []) refl refl) in
    let r13 = moves r12 0 (omega arith) (skip_error [] refl refl) in
    let r14 = moves r13 0 (omega arith) (report_done refl refl) in
    let r15 = moves r14 0 (omega arith) (unlock_field refl refl) in
    let r16 = moves r15 1 (omega arith) (next_round refl refl refl) in
    let r17 = moves r16 1 (omega arith) (lock_queue_mutex refl refl refl) in
    let r18 = moves r17 1 (omega arith) (see_empty refl refl refl) in
    moves r18 1 (omega arith) (unlock_nothing refl refl)

both : (P : ℕ → Type 0) → P 0 → P 1 → (j : ℕ) → j < 2 → P j
both P a b zero lt = a
both P a b (suc zero) lt = b
both P a b (suc (suc j)) lt = absurd (omega arith)

-- No bear has come, and both bees have passed the second barrier.
last_round : Run
unfolding at_barrier bear_attack
last_round =
    let r20 = steps at_barrier (first_release 0 (omega arith) (both _ refl refl) refl) in
    let r21 = moves r20 0 (omega arith) (bear_away 50 0 refl refl refl) in
    steps r21 (second_release (both _ refl refl) refl)

-- `main` stops the bees in time, and both go home.
all_home : Run
unfolding last_round
all_home =
    let r23 = steps last_round (stop_polling refl (inl (omega arith)) refl) in
    let r24 = steps r23 (set_terminate refl refl) in
    let r25 = moves r24 0 (omega arith) (go_home refl refl refl) in
    let r26 = moves r25 1 (omega arith) (go_home refl refl refl) in
    steps r26 (join_all refl (both _ refl refl) refl)

mutual_exclusion_example : ◌≡◌ {A = ℕ} 0 0
unfolding about_to_harvest
mutual_exclusion_example =
    mutual_exclusion about_to_harvest.1 0 0 (omega arith) (omega arith) (inr (refl, refl))

bees_in_bounds_example : 0 < length (about_to_harvest.0.flower_field)
unfolding about_to_harvest
bees_in_bounds_example = bees_in_bounds one_flower-IsField about_to_harvest.1 0 0 (omega arith) refl

collected_lem_example :
    (all_home.0.collected + left (all_home.0.flower_field) + sum_below tallying 2 (all_home.0.bee)
      ≡ 1)
    × (all_home.0.collected ≤ 1)
collected_lem_example = collected_lem one_flower-IsField all_home.1

joined_outcome_example :
    (all_home.0.bee 1 ≡ home) × ((all_home.0.destroyed ≡ true) ⊎ (all_home.0.collected ≡ 1))
unfolding all_home
joined_outcome_example = joined_outcome one_flower-IsField all_home.1 refl 1 (omega arith)

last_round-RoundOver : RoundOver one_flower 2 last_round.0
unfolding last_round
last_round-RoundOver = record {
  at_check = both _ refl refl;
  running = refl;
  main_polls = refl;
  all_collected = omega arith;
  no_report = refl;
  unlocked = refl;
}

stranded_bee_example : (t : Hive) × Reach one_flower 2 t × Deadlocked one_flower 2 t
stranded_bee_example = stranded_bee one_flower 0 last_round.0 last_round.1 last_round-RoundOver

-- A field of three columns and two rows, with the flower in the middle of the upper row.
abbrev six_flowers : FieldGeometry
six_flowers = record { width = 3; height = 2; number_flowers = 6 }

calculate_positions-neighbours_example :
    calculate_positions (position_of six_flowers 1 0) six_flowers
    ≡ above six_flowers 1 0
      ∷ below six_flowers 1 0
      ∷ before six_flowers 1 0
      ∷ after six_flowers 1 0
      ∷ []
calculate_positions-neighbours_example =
    calculate_positions-neighbours six_flowers 1 0 (omega arith) (omega arith) (omega arith)

calculate_positions_runs : calculate_positions 1 six_flowers ≡ error_value ∷ 4 ∷ 0 ∷ 2 ∷ []
unfolding calculate_positions
calculate_positions_runs = refl

check_nearby_flowers_runs : check_nearby_flowers 1 six_flowers (plant 6 0) [] ≡ 4 ∷ 0 ∷ 2 ∷ []
unfolding check_nearby_flowers calculate_positions plant
check_nearby_flowers_runs = refl
