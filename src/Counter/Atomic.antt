-- ===== src/Counter/Atomic.antt =====
-- exercise06/task1/task1_atomic.c: the counter is an `atomic_uint`, and an addition is one step.
use ps_os.Base.{
  ℕ, ◌+◌, ◌*◌, ◌/◌, ◌%◌, ◌^◌, ◌≤◌, ◌<◌, ◌≡◌, refl, arith, ◌==◌, if◌then◌else◌, update, sum_below,
  sum_below-update, sum_below-const, sum_below-le,
}
use ps_os.Counter.{threads, iterations, even_increase, odd_increase}

-- The counter, and `i` of each thread.
pub record Shared : Type 0 where
  pub counter : ℕ
  pub index : ℕ → ℕ

abbrev pub init : Shared
init = record { counter = 0; index = λ j. 0 }

-- What a thread adds in round `i`.
abbrev pub increase : ℕ → ℕ
increase i = if i % 2 == 0 then even_increase else odd_increase

-- One `atomic_fetch_add` of thread `j`.
pub data Step (s t : Shared) : Type 0 where
  fetch_add :
      (j : ℕ)
      → j < threads
      → s.index j < iterations
      → t ≡ record {
        counter = (s.counter + increase (s.index j)) % 2 ^ 32;
        index = update s.index j (s.index j + 1);
      }
      → Step s t

pub data Reach : Shared → Type 0 where
  start : Reach init
  step : {s t : Shared} → Reach s → Step s t → Reach t

-- What the first additions of a thread come to.
abbrev pub sum_of : ℕ → ℕ
sum_of i = i / 2 + i % 2 * 42

record Inv (s : Shared) : Type 0 where
  total : s.counter ≡ sum_below sum_of threads s.index
  bounded : (j : ℕ) → j < threads → s.index j ≤ iterations

small : {s : Shared} → Inv s → sum_below sum_of threads s.index ≤ threads * 12542
small {s} inv = sum_below-le sum_of 12542 threads s.index (λ k lk. omega (arith, inv.bounded k lk))

Step-Inv : {s t : Shared} → Inv s → Step s t → Inv t
Step-Inv {s} inv (fetch_add j lt more e) = record {
  total =
      ground
        (arith, inv.total, small inv, sum_below-update sum_of threads j s.index (s.index j + 1) lt);
  bounded = λ k lk. ground (arith, inv.bounded k lk);
}

Reach-Inv : {s : Shared} → Reach s → Inv s
Reach-Inv start = record {
  total = omega (arith, sum_below-const sum_of threads (init.index) 0 (λ j lj. refl));
  bounded = λ j lj. omega arith;
}
Reach-Inv (step r st) = Step-Inv (Reach-Inv r) st

-- In every reachable state the counter is what all additions made so far come to, with no
-- wrap-around, whatever their order.
atomic_counter : {s : Shared} → Reach s → s.counter ≡ sum_below sum_of threads s.index
atomic_counter r = (Reach-Inv r).total

-- When every thread has made its 25000 additions the counter is 12500000.
atomic_final_counter :
    {s : Shared} → Reach s → ((j : ℕ) → j < threads → s.index j ≡ iterations) → s.counter ≡ 12500000
atomic_final_counter {s} r all = omega (
  arith,
  atomic_counter r,
  sum_below-const sum_of threads s.index 12500 (λ j lj. omega (arith, all j lj)),
)
