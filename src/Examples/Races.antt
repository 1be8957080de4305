-- ===== src/Examples/Races.antt =====
-- exercise11/task3: two bees and three flowers in a row, in a run in which a push and a pop meet.
use ps_os.Base.{ℕ, zero, suc, ◌<◌, ◌≡◌, ◌≢◌, refl, true, [], ◌∷◌, arith, ℕ_discrete}
use ps_os.Hive.{FieldGeometry, IsField, calculate_positions, error_value}
use ps_os.Hive.Bees.{
  polling, Hive, plant, init, Move, Reach, start, step, pass_first, bee_moves, first_release,
  next_round, lock_queue_mutex, see_entry, load_first, load_next, store_null, reset_last,
  unlock_took, lock_field_mutex, see_nectar, clear_nectar, count_flower, skip_error, skip_empty,
  new_report, load_last, link_entry, store_last, report_done, unlock_field,
}
use ps_os.Hive.Count.{left}
use ps_os.Hive.Quiet.{Quiet, Later, now, further, silent_hive_stays}
use ps_os.Hive.TailQueue.{is_empty}

abbrev three_flowers : FieldGeometry
three_flowers = record { width = 3; height = 1; number_flowers = 3 }

three_flowers-IsField : IsField three_flowers
three_flowers-IsField = omega arith

abbrev Run : Type 0
Run = (s : Hive) × Reach three_flowers 2 s

abbrev go_on : (r : Run) (j : ℕ) → j < 2 → {t : Hive} → Move three_flowers r.0 j (r.0.bee j) t → Run
go_on r j lt {t} mv = (t, step r.1 (bee_moves j lt mv))

-- The first bee takes the middle flower.
middle_taken : Run
unfolding init plant ℕ_discrete calculate_positions
middle_taken =
    let r0 : Run = (init three_flowers, start) in
    let r1 = go_on r0 0 (omega arith) (next_round refl refl refl) in
    let r2 = go_on r1 0 (omega arith) (lock_queue_mutex refl refl refl) in
    let r3 = go_on r2 0 (omega arith) (see_entry refl refl refl) in
    let r4 = go_on r3 0 (omega arith) (load_first refl (ground arith) refl) in
    let r5 = go_on r4 0 (omega arith) (load_next 1 1 refl refl) in
    let r6 = go_on r5 0 (omega arith) (store_null 0 1 refl refl refl) in
    let r7 = go_on r6 0 (omega arith) (reset_last 1 refl refl) in
    let r8 = go_on r7 0 (omega arith) (unlock_took 1 refl refl) in
    let r9 = go_on r8 0 (omega arith) (lock_field_mutex 1 refl refl refl) in
    let r10 = go_on r9 0 (omega arith) (see_nectar 1 refl refl refl) in
    let r11 = go_on r10 0 (omega arith) (clear_nectar 1 refl refl) in
    go_on r11 0 (omega arith) (count_flower 1 refl refl)

-- It has reported the left one, and is about to link the report of the right one behind that.
half_reported : Run
unfolding middle_taken
half_reported =
    let r1 = go_on middle_taken 0 (omega arith) (skip_error (error_value ∷ 0 ∷ 2 ∷ []) refl refl) in
    let r2 = go_on r1 0 (omega arith) (skip_error (0 ∷ 2 ∷ []) refl refl) in
    let r3 = go_on r2 0 (omega arith) (new_report 0 (2 ∷ []) refl (ground arith) refl refl) in
    let r4 = go_on r3 0 (omega arith) (load_last 2 (2 ∷ []) refl refl) in
    let r5 = go_on r4 0 (omega arith) (link_entry 2 0 (2 ∷ []) refl refl) in
    let r6 = go_on r5 0 (omega arith) (store_last 2 (2 ∷ []) refl refl) in
    let r7 = go_on r6 0 (omega arith) (new_report 2 [] refl (ground arith) refl refl) in
    go_on r7 0 (omega arith) (load_last 3 [] refl refl)

-- Bee 1 removes the last entry while bee 0 links the next one to it.
report_lost : Run
unfolding half_reported
report_lost =
    let r1 = go_on half_reported 1 (omega arith) (next_round refl refl refl) in
    let r2 = go_on r1 1 (omega arith) (lock_queue_mutex refl refl refl) in
    let r3 = go_on r2 1 (omega arith) (see_entry refl refl refl) in
    let r4 = go_on r3 1 (omega arith) (load_first refl (ground arith) refl) in
    let r5 = go_on r4 1 (omega arith) (load_next 2 0 refl refl) in
    let r6 = go_on r5 0 (omega arith) (link_entry 3 2 [] refl refl) in
    let r7 = go_on r6 1 (omega arith) (store_null 0 0 refl refl refl) in
    let r8 = go_on r7 1 (omega arith) (reset_last 0 refl refl) in
    let r9 = go_on r8 0 (omega arith) (store_last 3 [] refl refl) in
    let r10 = go_on r9 0 (omega arith) (report_done refl refl) in
    let r11 = go_on r10 0 (omega arith) (unlock_field refl refl) in
    go_on r11 1 (omega arith) (unlock_took 0 refl refl)

-- Bee 1 collects the left flower, beside which there is no other one with nectar.
silent_too_early : Run
unfolding report_lost
silent_too_early =
    let r1 = go_on report_lost 1 (omega arith) (lock_field_mutex 0 refl refl refl) in
    let r2 = go_on r1 1 (omega arith) (see_nectar 0 refl refl refl) in
    let r3 = go_on r2 1 (omega arith) (clear_nectar 0 refl refl) in
    let r4 = go_on r3 1 (omega arith) (count_flower 0 refl refl) in
    let r5 = go_on r4 1 (omega arith) (skip_error (error_value ∷ error_value ∷ 1 ∷ []) refl refl) in
    let r6 = go_on r5 1 (omega arith) (skip_error (error_value ∷ 1 ∷ []) refl refl) in
    let r7 = go_on r6 1 (omega arith) (skip_error (1 ∷ []) refl refl) in
    let r8 = go_on r7 1 (omega arith) (skip_empty 1 [] refl (ground arith) refl refl) in
    let r9 = go_on r8 1 (omega arith) (report_done refl refl) in
    go_on r9 1 (omega arith) (unlock_field refl refl)

both : (P : ℕ → Type 0) → P 0 → P 1 → (j : ℕ) → j < 2 → P j
both P a b zero lt = a
both P a b (suc zero) lt = b
both P a b (suc (suc j)) lt = absurd (omega arith)

-- The queue is empty, and one flower is left.
silent_too_early-Quiet :
    Quiet 2 silent_too_early.0
    × (silent_too_early.0.collected ≡ 2)
    × (left (silent_too_early.0.flower_field) ≡ 1)
unfolding silent_too_early
silent_too_early-Quiet = (record { no_entry = refl; idle = both _ tt tt }, refl, refl)

-- Both bees have passed the first barrier.
next_round_begins : Hive
next_round_begins = pass_first silent_too_early.0 0

next_round_begins-Later : Later three_flowers 2 silent_too_early.0 next_round_begins
unfolding silent_too_early next_round_begins
next_round_begins-Later = further now (first_release 0 (omega arith) (both _ refl refl) refl)

silent_hive_stays_example :
    (is_empty next_round_begins.queue ≡ true)
    × (next_round_begins.collected ≡ silent_too_early.0.collected)
    × (next_round_begins.main ≢ polling → next_round_begins.destroyed ≡ true)
silent_hive_stays_example =
    silent_hive_stays three_flowers-IsField (omega arith) silent_too_early.1
      silent_too_early-Quiet.0 (omega (arith, silent_too_early-Quiet.1)) next_round_begins-Later
