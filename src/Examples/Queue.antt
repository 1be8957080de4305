-- ===== src/Examples/Queue.antt =====
-- exercise06/task3: one consumer and one number.
use ps_os.Base.{ℕ, ◌%◌, ◌<◌, ◌≡◌, ◌≢◌, ◌⊎◌, refl, arith, false, true, none, [], ℕ_discrete}
use ps_os.MyQueue.{myqueue_pop}
use ps_os.Consumers.Locks.{holds, main_holds, consumers_exclude}
use ps_os.Consumers.Outcome.{final_sum}
use ps_os.Consumers.Progress.{CanRun, AllJoined, no_lost_wakeup}
use ps_os.Consumers.{
  Config, int_max, popping, ended, unlock_value, unlock_end, State, init, Move, lock, wait, relock,
  see_entry, pop, unlock, end_loop, add, MainMove, lock_for_value, push_number, unlock_after_value,
  values_done, lock_for_end, push_int_max, unlock_after_end, ends_done, signal_one, broadcast, join,
  consumer_runs, main_runs, run, Reach, start, step,
}

abbrev pair : Config
pair = record { consumers = 1; elements = 1 }

abbrev Trace : Type 0
Trace = (s : State) × Reach pair s

abbrev moves : (r : Trace) → {t : State} → Move r.0 0 (r.0.place 0) t → Trace
moves r {t} mv = (t, step r.1 (run (consumer_runs 0 (omega arith) mv)))

abbrev main_moves : (r : Trace) → {t : State} → MainMove pair r.0 (r.0.main) t → Trace
main_moves r {t} mv = (t, step r.1 (run (main_runs mv)))

-- The consumer finds the queue empty, waits, is woken, and has seen the number.
about_to_pop : Trace
unfolding ℕ_discrete
about_to_pop =
    let r0 : Trace = (init, start) in
    let r1 = moves r0 (lock refl refl refl) in
    let r2 = moves r1 (wait refl refl refl) in
    let r3 = main_moves r2 (lock_for_value 0 refl (omega arith) refl refl) in
    let r4 = main_moves r3 (push_number 0 refl refl) in
    let r5 = main_moves r4 (signal_one (unlock_value 0) 0 refl (omega arith) refl refl) in
    let r6 = main_moves r5 (unlock_after_value 0 refl refl) in
    let r7 = main_moves r6 (values_done 1 refl (omega arith) refl) in
    let r8 = moves r7 (relock refl refl refl) in moves r8 (see_entry refl refl refl)

-- It has added the number and waits for more.
waits_again : Trace
unfolding about_to_pop
waits_again =
    let r1 = moves about_to_pop (pop 1 [] refl refl refl) in
    let r2 = moves r1 (unlock 1 refl refl) in
    let r3 = moves r2 (add 1 refl (omega arith) refl) in
    let r4 = moves r3 (lock refl refl refl) in moves r4 (wait refl refl refl)

-- `main` ends it and joins it.
joined_one : Trace
unfolding waits_again
joined_one =
    let r1 = main_moves waits_again (lock_for_end 0 refl (omega arith) refl refl) in
    let r2 = main_moves r1 (push_int_max 0 refl refl) in
    let r3 = main_moves r2 (signal_one (unlock_end 0) 0 refl (omega arith) refl refl) in
    let r4 = main_moves r3 (unlock_after_end 0 refl refl) in
    let r5 = main_moves r4 (ends_done 1 refl (omega arith) refl) in
    let r6 = main_moves r5 (broadcast refl refl) in
    let r7 = moves r6 (relock refl refl refl) in
    let r8 = moves r7 (see_entry refl refl refl) in
    let r9 = moves r8 (pop int_max [] refl refl refl) in
    let r10 = moves r9 (unlock int_max refl refl) in
    let r11 = moves r10 (end_loop int_max refl refl refl) in
    main_moves r11 (join 0 0 refl (omega arith) refl refl)

consumers_exclude_example :
    (main_holds (about_to_pop.0.main) ≡ false)
    × ((j : ℕ) → j < 1 → holds (about_to_pop.0.place j) ≡ true → 0 ≡ j)
    × ((about_to_pop.0.place 0 ≡ popping) → myqueue_pop (about_to_pop.0.queue) ≢ none)
unfolding about_to_pop
consumers_exclude_example = consumers_exclude about_to_pop.1 0 (omega arith) refl

final_sum_example :
    (1 ≡ 1 % 2) × (joined_one.0.queue ≡ []) × ((j : ℕ) → j < 1 → joined_one.0.place j ≡ ended)
unfolding joined_one
final_sum_example = final_sum 1 (omega arith) joined_one.1 refl

no_lost_wakeup_example : CanRun pair waits_again.0 ⊎ AllJoined pair waits_again.0
no_lost_wakeup_example = no_lost_wakeup waits_again.1
