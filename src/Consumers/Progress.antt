-- ===== src/Consumers/Progress.antt =====
-- exercise06/task3/task3.c: which threads can go on.
use ps_os.Base.{
  ℕ, zero, suc, ◌<◌, ◌≡◌, ◌≢◌, ◌⊎◌, inl, inr, refl, arith, true, false, none, some, [], ◌∷◌, dec_lt,
  ℕ_discrete, Bool-cases, Option-cases,
}
use ps_os.MyQueue.{MyQueue, myqueue_is_empty, myqueue_pop}
use ps_os.Consumers.Locks.{Locks, Reach-Locks, holds, main_holds}
use ps_os.Consumers.Totals.{Totals, Reach-Totals}
use ps_os.Consumers.Outcome.{Joined, Reach-Joined}
use ps_os.Consumers.{
  Config, int_max, Place, lock_mutex, testing, waiting, woken, popping, unlocking, deciding, ended,
  MainPlace, lock_value, push_value, signal_value, unlock_value, lock_end, push_end, signal_end,
  unlock_end, broadcasting, joining, producer, consumer, State, lock, wait, relock, see_entry, pop,
  unlock, end_loop, add, after_signal, lock_for_value, push_number, unlock_after_value, values_done,
  lock_for_end, push_int_max, unlock_after_end, ends_done, signal_one, signal_none, broadcast, join,
  Run, consumer_runs, main_runs, Reach,
}

abbrev pub CanRun : Config → State → Type 0
CanRun c s = (t : State) × Run c s t

-- The last loop of `main` is behind.
abbrev pub AllJoined : Config → State → Type 0
AllJoined c s = (total : ℕ) × (s.main ≡ joining (c.consumers) total)

is_waiting : (p : Place) → (p ≡ waiting) ⊎ (p ≢ waiting)
is_waiting waiting = inl refl
is_waiting lock_mutex = inr (λ e. cc)
is_waiting testing = inr (λ e. cc)
is_waiting woken = inr (λ e. cc)
is_waiting popping = inr (λ e. cc)
is_waiting (unlocking v) = inr (λ e. cc)
is_waiting (deciding v) = inr (λ e. cc)
is_waiting ended = inr (λ e. cc)

find_waiting :
    (place : ℕ → Place) (n : ℕ)
    → ((j : ℕ) × (j < n) × (place j ≡ waiting)) ⊎ ((j : ℕ) → j < n → place j ≢ waiting)
find_waiting place zero = inr (λ j lj. absurd (omega arith))
find_waiting place (suc n) = elim (is_waiting (place n)) [
  | inl here ↦ inl (n, omega arith, here)
  | inr not_here ↦ elim (find_waiting place n) [
    | inl (j, lj, at) ↦ inl (j, omega arith, at)
    | inr nowhere ↦ inr (λ j lj. elim (ℕ_discrete j n) [
      | yes same ↦ rw same not_here
      | no other ↦ nowhere j (omega arith)
    ])
  ]
]

module _ {c : Config} {s : State} (locks : Locks c s) where
  -- A consumer between lock and unlock can go on.
  owner_runs : (j : ℕ) (p : Place) → j < c.consumers → s.place j ≡ p → holds p ≡ true → CanRun c s
  owner_runs j testing lj at h = elim (Bool-cases (myqueue_is_empty (s.queue))) [
    | inl empty ↦ (_, consumer_runs j lj (wait at empty refl))
    | inr filled ↦ (_, consumer_runs j lj (see_entry at filled refl))
  ]
  owner_runs j popping lj at h = elim (Option-cases (myqueue_pop (s.queue))) [
    | inl nothing ↦ absurd (pops (s.queue) (locks.filled j lj (ground arith)) nothing)
    | inr ((v, rest), entry) ↦ (_, consumer_runs j lj (pop v rest at entry refl))
  ]
    where
      pops : (q : MyQueue) → myqueue_is_empty q ≡ false → myqueue_pop q ≢ none
      pops [] e = absurd (ground arith)
      pops (v ∷ q) e = λ e'. cc
  owner_runs j (unlocking v) lj at h = (_, consumer_runs j lj (unlock v at refl))
  owner_runs j lock_mutex lj at h = absurd (ground arith)
  owner_runs j waiting lj at h = absurd (ground arith)
  owner_runs j woken lj at h = absurd (ground arith)
  owner_runs j (deciding v) lj at h = absurd (ground arith)
  owner_runs j ended lj at h = absurd (ground arith)

  signals : (m' : MainPlace) → after_signal (s.main) ≡ some m' → CanRun c s
  signals m' after = elim (find_waiting s.place c.consumers) [
    | inl (j, lj, at) ↦ (_, main_runs (signal_one m' j after lj at refl))
    | inr nowhere ↦ (_, main_runs (signal_none m' after nowhere refl))
  ]

  -- So can `main`.
  producer_runs : (m : MainPlace) → s.main ≡ m → main_holds m ≡ true → CanRun c s
  producer_runs (push_value i) at h = (_, main_runs (push_number i at refl))
  producer_runs (signal_value i) at h = signals (unlock_value i) (ground arith)
  producer_runs (unlock_value i) at h = (_, main_runs (unlock_after_value i at refl))
  producer_runs (push_end i) at h = (_, main_runs (push_int_max i at refl))
  producer_runs (signal_end i) at h = signals (unlock_end i) (ground arith)
  producer_runs (unlock_end i) at h = (_, main_runs (unlock_after_end i at refl))
  producer_runs (lock_value i) at h = absurd (ground arith)
  producer_runs (lock_end i) at h = absurd (ground arith)
  producer_runs broadcasting at h = absurd (ground arith)
  producer_runs (joining i total) at h = absurd (ground arith)

  -- With the mutex free, a consumer that `main` has to join can go on, or `main` can.
  joins :
      (i total : ℕ) (p : Place)
      → s.mutex ≡ none
      → s.main ≡ joining i total
      → i < c.consumers
      → s.place i ≡ p
      → p ≢ waiting
      → CanRun c s
  joins i total lock_mutex free m lt at awake = (_, consumer_runs i lt (lock at free refl))
  joins i total woken free m lt at awake = (_, consumer_runs i lt (relock at free refl))
  joins i total (deciding v) free m lt at awake = elim (ℕ_discrete v int_max) [
    | yes last ↦ (_, consumer_runs i lt (end_loop v at last refl))
    | no number ↦ (_, consumer_runs i lt (add v at number refl))
  ]
  joins i total ended free m lt at awake = (_, main_runs (join i total m lt at refl))
  joins i total waiting free m lt at awake = absurd (awake refl)
  joins i total testing free m lt at awake = absurd (ground (arith, locks.held i lt))
  joins i total popping free m lt at awake = absurd (ground (arith, locks.held i lt))
  joins i total (unlocking v) free m lt at awake = absurd (ground (arith, locks.held i lt))

  unlocked_runs :
      (m : MainPlace)
      → Totals c s
      → Joined c s
      → s.mutex ≡ none
      → s.main ≡ m
      → CanRun c s ⊎ AllJoined c s
  unlocked_runs (lock_value i) totals inv free at = elim (dec_lt i c.elements) [
    | yes more ↦ inl (_, main_runs (lock_for_value i at more free refl))
    | no done ↦ inl (_, main_runs (values_done i at (omega arith) refl))
  ]
  unlocked_runs (lock_end i) totals inv free at = elim (dec_lt i c.consumers) [
    | yes more ↦ inl (_, main_runs (lock_for_end i at more free refl))
    | no done ↦ inl (_, main_runs (ends_done i at (omega arith) refl))
  ]
  unlocked_runs broadcasting totals inv free at = inl (_, main_runs (broadcast at refl))
  unlocked_runs (joining i total) totals inv free at = elim (dec_lt i c.consumers) [
    | yes more ↦ inl (joins i total (s.place i) free at more refl (inv.awake i total i at more))
    | no done ↦ inr (total, ground (arith, totals.bounded))
  ]
  unlocked_runs (push_value i) totals inv free at = absurd (ground (arith, locks.main_held))
  unlocked_runs (signal_value i) totals inv free at = absurd (ground (arith, locks.main_held))
  unlocked_runs (unlock_value i) totals inv free at = absurd (ground (arith, locks.main_held))
  unlocked_runs (push_end i) totals inv free at = absurd (ground (arith, locks.main_held))
  unlocked_runs (signal_end i) totals inv free at = absurd (ground (arith, locks.main_held))
  unlocked_runs (unlock_end i) totals inv free at = absurd (ground (arith, locks.main_held))

-- No wake-up is lost: in every reachable state some thread can make a step of the program, spurious
-- wake-ups not counted, or `main` has joined all consumers.
pub no_lost_wakeup : {c : Config} {s : State} → Reach c s → CanRun c s ⊎ AllJoined c s
no_lost_wakeup {c} {s} r =
    let locks = Reach-Locks r in
    elim (Option-cases (s.mutex)) [
      | inl free ↦ unlocked_runs locks s.main (Reach-Totals r) (Reach-Joined r) free refl
      | inr (producer, own) ↦ inl (producer_runs locks s.main refl (locks.main_owner own))
      | inr (consumer j, own) ↦
          let (lj, h) = locks.owner j own in inl (owner_runs locks j (s.place j) lj refl h)
    ]
