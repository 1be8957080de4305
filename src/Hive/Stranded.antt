-- ===== src/Hive/Stranded.antt =====
-- exercise11/task3/beehive.c: how `main` can end the bees in the middle of a round. It sets
-- `must_terminate` while some bees have read the flag for the next round and others have not: those
-- go home, and the others wait at a barrier for as many bees as there were.
use ps_os.Base.{
  ℕ, zero, suc, ◌≤◌, ◌<◌, ◌≡◌, ◌≢◌, inl, refl, true, false, none, some, arith, update, ◌∙◌,
  ℕ_discrete,
}
use ps_os.Hive.{FieldGeometry}
use ps_os.Hive.TailQueue.{null}
use ps_os.Hive.Bees.{
  Place, check, lock_queue, peek, nothing, first_barrier, home, polling, stopping, joining, Hive,
  go, Move, go_home, next_round, lock_queue_mutex, see_empty, unlock_nothing, Step, bee_moves,
  first_release, second_release, stop_polling, set_terminate, join_all, Reach, step,
}
use ps_os.Hive.Moves.{guard}

-- No step is possible, and `main` waits in `pthread_join`.
pub record Deadlocked (d : FieldGeometry) (n : ℕ) (s : Hive) : Type 0 where
  pub stuck : (t : Hive) → ¬ Step d n s t
  pub waiting : s.main ≡ joining

-- A round is over without a bear, all flowers are collected, the queue is empty, and `main` has not
-- looked yet.
pub record RoundOver (d : FieldGeometry) (n : ℕ) (s : Hive) : Type 0 where
  pub at_check : (j : ℕ) → j < n → s.bee j ≡ check
  pub running : s.must_terminate ≡ false
  pub main_polls : s.main ≡ polling
  pub all_collected : d.number_flowers ≤ s.collected
  pub no_report : s.queue.first ≡ null
  pub unlocked : s.queue_mutex ≡ none

-- Bees 1, …, k have gone home.
homes : ℕ → (ℕ → Place) → ℕ → Place
homes zero bee = bee
homes (suc k) bee = update (homes k bee) (suc k) home

homes-home : (k : ℕ) (bee : ℕ → Place) (j : ℕ) → 0 < j → j ≤ k → homes k bee j ≡ home
unfolding homes
homes-home zero bee j pos le = absurd (omega arith)
homes-home (suc k) bee j pos le = ground (arith, homes-home k bee j)

homes-other : (k : ℕ) (bee : ℕ → Place) (j : ℕ) → (0 < j → k < j) → homes k bee j ≡ bee j
unfolding homes
homes-other zero bee j h = refl
homes-other (suc k) bee j h = ground (arith, homes-other k bee j)

no-Move :
    {d : FieldGeometry} {s : Hive} {j : ℕ} {p : Place} {t : Hive}
    → Move d s j p t
    → (p ≢ first_barrier) × (p ≢ home)
no-Move (go_home e more e') = ground arith
no-Move mv = ground (arith, guard mv)

module _ (d : FieldGeometry) (m : ℕ) (s : Hive) (r : Reach d (suc (suc m)) s)
    (over : RoundOver d (suc (suc m)) s) where
  -- Bee 0 begins another round, then `main` notices that all is collected.
  stopped : Hive
  stopped = record (go s 0 lock_queue) { must_terminate = true; main = joining }

  reach_stopped : Reach d (suc (suc m)) stopped
  unfolding stopped
  reach_stopped =
      step {s = record (go s 0 lock_queue) { main = stopping }}
        (step {s = go s 0 lock_queue}
          (step {s = s} r (
            bee_moves 0 (omega arith)
              (next_round (over.at_check 0 (omega arith)) over.running refl)))
          (stop_polling over.main_polls (inl over.all_collected) refl))
        (set_terminate refl refl)

  -- The other bees read the flag and go home.
  sent : ℕ → Hive
  unfolding stopped
  sent k = record stopped { bee = homes k (stopped.bee) }

  reach_sent : (k : ℕ) → k ≤ suc m → Reach d (suc (suc m)) (sent k)
  unfolding sent stopped homes
  reach_sent zero le = reach_stopped
  reach_sent (suc k) le =
      step (reach_sent k (omega arith))
        (bee_moves (suc k) (omega arith) (go_home still_here refl refl))
    where
      still_here : homes k (stopped.bee) (suc k) ≡ check
      still_here =
          homes-other k (stopped.bee) (suc k) (λ pos. omega arith)
          ∙ ground (arith, over.at_check (suc k))

  -- Bee 0 finds the queue empty and waits at the barrier.
  with_lock : Hive
  unfolding sent
  with_lock = record (go (sent (suc m)) 0 peek) { queue_mutex = some 0 }

  reach_with_lock : Reach d (suc (suc m)) with_lock
  unfolding with_lock stopped ℕ_discrete
  reach_with_lock = step (reach_sent (suc m) (omega arith)) (
      bee_moves 0 (omega arith) (
        lock_queue_mutex (homes-other (suc m) (stopped.bee) 0 (λ pos. absurd (omega arith)))
          over.unlocked refl))

  seen_empty : Hive
  unfolding with_lock
  seen_empty = go with_lock 0 nothing

  reach_seen_empty : Reach d (suc (suc m)) seen_empty
  unfolding seen_empty stopped
  reach_seen_empty =
      step reach_with_lock
        (bee_moves 0 (omega arith) (see_empty (ground arith) (ground (arith, over.no_report)) refl))

  waiting : Hive
  unfolding seen_empty
  waiting = record (go seen_empty 0 first_barrier) { queue_mutex = none }

  reach_waiting : Reach d (suc (suc m)) waiting
  unfolding waiting
  reach_waiting =
      step reach_seen_empty (bee_moves 0 (omega arith) (unlock_nothing (ground arith) refl))

  waiting-first : waiting.bee 0 ≡ first_barrier
  unfolding waiting
  waiting-first = ground arith

  waiting-home : (j : ℕ) → 0 < j → j < suc (suc m) → waiting.bee j ≡ home
  unfolding waiting stopped
  waiting-home j pos lt = ground (arith, homes-home (suc m) (stopped.bee) j)

  waiting-main : waiting.main ≡ joining
  unfolding waiting stopped
  waiting-main = refl

  waiting-stuck : (t : Hive) → ¬ Step d (suc (suc m)) waiting t
  waiting-stuck t (bee_moves j lt mv) = elim (ℕ_discrete j 0) [
    | yes first ↦ (no-Move mv).0 (rw first waiting-first)
    | no other ↦ (no-Move mv).1 (waiting-home j (omega arith) lt)
  ]
  waiting-stuck t (first_release k lt all e) = ground (arith, all 1, waiting-home 1)
  waiting-stuck t (second_release all e) = ground (arith, all 0, waiting-first)
  waiting-stuck t (stop_polling at why e) = ground (arith, waiting-main)
  waiting-stuck t (set_terminate at e) = ground (arith, waiting-main)
  waiting-stuck t (join_all at all e) = ground (arith, all 0, waiting-first)

  -- From the end of any round after which all flowers are collected, the queue is empty, no bear has won
  -- and `main` is still in its polling loop, the program with two or more bees can reach a state in which nothing moves: one bee waits at the barrier for bees that have
  -- gone home, and `main` waits for that bee.
  pub stranded_bee : (t : Hive) × Reach d (suc (suc m)) t × Deadlocked d (suc (suc m)) t
  stranded_bee = (waiting, reach_waiting, record { stuck = waiting-stuck; waiting = waiting-main })
