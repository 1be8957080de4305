-- ===== src/Philosophers/Progress.antt =====
-- exercise07/task2/task2.c: which calls can come next, and how many there are.
use ps_os.Base.{
  ℕ, zero, suc, ◌+◌, ◌*◌, ◌≤◌, ◌<◌, ◌≡◌, ◌⊎◌, inl, inr, some, arith, sym, refl, sum_below,
  sum_below-update, sum_below-le, sum_below-const, dec_lt, Option-cases, ℕ_discrete,
}
use ps_os.Philosophers.Exclusion.{Inv, Reach-Inv}
use ps_os.Philosophers.{
  num_philosopher, eat_iterations, first_lock, second_lock, Place, thinking, one_chopstick, eating,
  left_returned, Table, init, Step, lock_first, lock_second, unlock_left, unlock_right, Reach,
  start, step, Finished,
}

abbrev pub CanStep : Table → Type 0
CanStep s = (t : Table) × Step s t

-- The locks are taken in ascending order of the chopsticks, the last philosopher's too.
lock_order :
    (n : ℕ)
    → n < num_philosopher
    → (first_lock n < second_lock n) × (second_lock n < num_philosopher)
lock_order n lt = ground arith

module _ {s : Table} (inv : Inv s) where
  -- The owner of chopstick `k` goes on, or stands with it before a higher chopstick.
  owner_goes :
      (k n : ℕ) (p : Place)
      → s.place n ≡ p
      → s.owner k ≡ some n
      → CanStep s
        ⊎ ((i : ℕ) × (n < num_philosopher) × (s.place n ≡ one_chopstick i) × (k ≡ first_lock n))
  owner_goes k n (thinking i) at own = absurd (ground (arith, inv.owned k n))
  owner_goes k n (one_chopstick i) at own =
      inr (i, ground (arith, inv.owned k n), at, ground (arith, inv.owned k n))
  owner_goes k n (eating i) at own =
      inl (_, unlock_left n i (ground (arith, inv.owned k n)) at refl)
  owner_goes k n (left_returned i) at own =
      inl (_, unlock_right n i (ground (arith, inv.owned k n)) at refl)

  -- Among the owners from a locked chopstick upwards some philosopher can go on.
  owner_moves :
      (fuel k n : ℕ)
      → num_philosopher ≤ k + fuel
      → k < num_philosopher
      → s.owner k ≡ some n
      → CanStep s
  owner_moves zero k n enough lt own = absurd (omega arith)
  owner_moves (suc fuel) k n enough lt own = elim (owner_goes k n (s.place n) refl own) [
    | inl moves ↦ moves
    | inr (i, is, at, first) ↦ elim (Option-cases (s.owner (second_lock n))) [
      | inl free ↦ (_, lock_second n i is at free refl)
      | inr (m, held) ↦
          owner_moves fuel (second_lock n) m (omega (arith, lock_order n is)) (lock_order n is).1
            held
    ]
  ]

  -- A philosopher who has not finished goes on, or some owner does.
  philosopher_moves :
      (n : ℕ) (p : Place)
      → n < num_philosopher
      → s.place n ≡ p
      → CanStep s ⊎ (s.place n ≡ thinking eat_iterations)
  philosopher_moves n (thinking i) lt at = elim (dec_lt i eat_iterations) [
    | yes hungry ↦ inl (elim (Option-cases (s.owner (first_lock n))) [
      | inl free ↦ (_, lock_first n i lt at hungry free refl)
      | inr (m, held) ↦
          owner_moves num_philosopher (first_lock n) m (omega arith)
            (omega (arith, lock_order n lt)) held
    ])
    | no done ↦ inr (ground (arith, inv.bounded n))
  ]
  philosopher_moves n (one_chopstick i) lt at = inl (
      owner_moves num_philosopher (first_lock n) n (omega arith) (omega (arith, lock_order n lt))
        (inv.holds (first_lock n) n lt (ground arith)))
  philosopher_moves n (eating i) lt at = inl (_, unlock_left n i lt at refl)
  philosopher_moves n (left_returned i) lt at = inl (_, unlock_right n i lt at refl)

  all_move :
      (b : ℕ)
      → b ≤ num_philosopher
      → CanStep s ⊎ ((n : ℕ) → n < b → s.place n ≡ thinking eat_iterations)
  all_move zero le = inr (λ n lt. absurd (omega arith))
  all_move (suc b) le = elim (philosopher_moves b (s.place b) le refl) [
    | inl moves ↦ inl moves
    | inr last ↦ elim (all_move b (omega arith)) [
      | inl moves ↦ inl moves
      | inr others ↦ inr (λ n lt. elim (ℕ_discrete n b) [
        | yes same ↦ rw same last
        | no other ↦ others n (omega arith)
      ])
    ]
  ]

-- No deadlock: in every reachable state some philosopher can go on, or all have left the table.
pub no_deadlock : {s : Table} → Reach s → CanStep s ⊎ Finished s
no_deadlock r = all_move (Reach-Inv r) num_philosopher (omega arith)

-- Calls of lock and unlock that a philosopher has made.
abbrev pub calls : Place → ℕ
calls (thinking i) = 4 * i
calls (one_chopstick i) = 4 * i + 1
calls (eating i) = 4 * i + 2
calls (left_returned i) = 4 * i + 3

abbrev pub all_calls : Table → ℕ
all_calls s = sum_below calls num_philosopher s.place

Step-calls : {s t : Table} → Step s t → all_calls t ≡ all_calls s + 1
Step-calls {s} (lock_first n i lt at more free e) =
    ground (arith, sum_below-update calls num_philosopher n s.place (one_chopstick i) lt)
Step-calls {s} (lock_second n i lt at free e) =
    ground (arith, sum_below-update calls num_philosopher n s.place (eating i) lt)
Step-calls {s} (unlock_left n i lt at e) =
    ground (arith, sum_below-update calls num_philosopher n s.place (left_returned i) lt)
Step-calls {s} (unlock_right n i lt at e) =
    ground (arith, sum_below-update calls num_philosopher n s.place (thinking (i + 1)) lt)

pub steps_taken : {s : Table} → Reach s → ℕ
steps_taken start = 0
steps_taken (step r st) = steps_taken r + 1

steps_taken-all_calls : {s : Table} → (r : Reach s) → steps_taken r ≡ all_calls s
unfolding steps_taken
steps_taken-all_calls start =
    sym (sum_below-const calls num_philosopher init.place 0 (λ i lt. refl))
steps_taken-all_calls (step r st) = omega (arith, steps_taken-all_calls r, Step-calls st)

-- Dinner ends: no schedule makes more than 4 · 5000 calls for each of the ten philosophers.
pub dinner_ends : {s : Table} → (r : Reach s) → steps_taken r ≤ 10 * (4 * 5000)
dinner_ends {s} r = omega (
  arith,
  steps_taken-all_calls r,
  sum_below-le calls (4 * 5000) num_philosopher s.place
      (λ n lt. ground (arith, (Reach-Inv r).bounded n)),
)
