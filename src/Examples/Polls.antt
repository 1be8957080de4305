-- ===== src/Examples/Polls.antt =====
-- exercise06/task2: one consumer and one number.
use ps_os.Base.{ℕ, ◌%◌, ◌<◌, ◌≡◌, refl, arith, [], ℕ_discrete}
use ps_os.Consumers.{Config, int_max}
use ps_os.Consumers.Polling.{
  ended, joining, State, init, Move, see_entry, pop, find_none, end_loop, add, MainMove,
  push_number, values_done, push_int_max, ends_done, join, consumer_runs, main_runs, Reach, start,
  step,
}
use ps_os.Consumers.Polling.Sum.{polled_sum}

abbrev pair : Config
pair = record { consumers = 1; elements = 1 }

abbrev Trace : Type 0
Trace = (s : State) × Reach pair s

abbrev moves : (r : Trace) → {t : State} → Move r.0 0 (r.0.place 0) t → Trace
moves r {t} mv = (t, step r.1 (consumer_runs 0 (omega arith) mv))

abbrev main_moves : (r : Trace) → {t : State} → MainMove pair r.0 (r.0.main) t → Trace
main_moves r {t} mv = (t, step r.1 (main_runs mv))

-- The consumer takes the number, finds the queue empty, and takes the end mark.
joined_one : Trace
unfolding ℕ_discrete
joined_one =
    let r0 : Trace = (init, start) in
    let r1 = main_moves r0 (push_number 0 refl (omega arith) refl) in
    let r2 = moves r1 (see_entry refl refl refl) in
    let r3 = moves r2 (pop 1 [] refl refl refl) in
    let r4 = moves r3 (add 1 refl (omega arith) refl) in
    let r5 = moves r4 (find_none refl refl refl) in
    let r6 = moves r5 (add 0 refl (omega arith) refl) in
    let r7 = main_moves r6 (values_done 1 refl (omega arith) refl) in
    let r8 = main_moves r7 (push_int_max 0 refl (omega arith) refl) in
    let r9 = main_moves r8 (ends_done 1 refl (omega arith) refl) in
    let r10 = moves r9 (pop int_max [] refl refl refl) in
    let r11 = moves r10 (end_loop int_max refl refl refl) in
    main_moves r11 (join 0 0 refl (omega arith) refl refl)

joined_one-main : joined_one.0.main ≡ joining 1 1
unfolding joined_one
joined_one-main = refl

polled_sum_example :
    (1 ≡ 1 % 2) × (joined_one.0.queue ≡ []) × ((j : ℕ) → j < 1 → joined_one.0.place j ≡ ended)
polled_sum_example = polled_sum 1 (omega arith) joined_one.1 joined_one-main
