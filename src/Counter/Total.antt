-- ===== src/Counter/Total.antt =====
-- exercise06/task1/task1_mutex.c: the value of the counter.
use ps_os.Base.{
  ℕ, ◌+◌, ◌*◌, ◌/◌, ◌%◌, ◌^◌, ◌≤◌, ◌<◌, ◌≡◌, refl, arith, Bool, true, false, some, update,
  sum_below, sum_below-update, sum_below-const, sum_below-term, sum_below-le,
}
use ps_os.Counter.{
  threads, iterations, temp, Place, locking, loading, storing, unlocking, Shared, init, Step, lock,
  load, store, unlock, Reach, start, step, Finished,
}

-- How many additions of a thread are in the counter, and what they come to.
abbrev pub added : Place → ℕ
added (locking i) = i
added (loading i) = i
added (storing i v) = i
added (unlocking i) = i + 1

abbrev pub share : Place → ℕ
share p = added p / 2 + added p % 2 * 42

abbrev pub begun : Place → ℕ
begun (locking i) = i
begun (loading i) = i + 1
begun (storing i v) = i + 1
begun (unlocking i) = i + 1

abbrev pub holds : Place → Bool
holds (locking i) = false
holds (loading i) = true
holds (storing i v) = true
holds (unlocking i) = true

abbrev pub IsCurrent : ℕ → Place → Type 0
IsCurrent counter (storing i v) = v ≡ counter
IsCurrent counter _ = Unit

-- The counter is what all the additions come to, and the thread with the mutex has its value.
pub record Inv (s : Shared) : Type 0 where
  pub total : s.counter ≡ sum_below share threads s.place
  pub held : (j : ℕ) → j < threads → holds (s.place j) ≡ true → s.mutex ≡ some j
  pub current : (j : ℕ) → j < threads → IsCurrent (s.counter) (s.place j)
  pub bounded : (j : ℕ) → j < threads → begun (s.place j) ≤ iterations

module _ {s : Shared} (inv : Inv s) (j : ℕ) (lt : j < threads) where
  shares :
      (p : Place)
      → sum_below share threads (update s.place j p) + share (s.place j)
        ≡ sum_below share threads s.place + share p
  shares p = sum_below-update share threads j s.place p lt

  small : sum_below share threads s.place < 2 ^ 31
  small =
      omega
        (arith, sum_below-le share 12542 threads s.place (λ k lk. ground (arith, inv.bounded k lk)))

  store-total :
      (i v : ℕ)
      → s.place j ≡ storing i v
      → (v + temp i) % 2 ^ 32 ≡ sum_below share threads (update s.place j (unlocking i))
  store-total i v at = ground (
    arith,
    inv.total,
    inv.current j lt,
    shares (unlocking i),
    small,
    sum_below-term share threads j s.place lt,
  )

Step-total : {s t : Shared} → Inv s → Step s t → t.counter ≡ sum_below share threads t.place
Step-total inv (lock j i lt at more free e) = ground (arith, inv.total, shares inv j lt (loading i))
Step-total {s} inv (load j i lt at e) =
    ground (arith, inv.total, shares inv j lt (storing i s.counter))
Step-total inv (store j i v lt at e) = ground (arith, store-total inv j lt i v at)
Step-total inv (unlock j i lt at e) = ground (arith, inv.total, shares inv j lt (locking (i + 1)))

Step-held :
    {s t : Shared}
    → Inv s
    → Step s t
    → (k : ℕ) → k < threads
    → holds (t.place k) ≡ true
    → t.mutex ≡ some k
Step-held inv (lock j i lt at more free e) k lk h = ground (arith, inv.held k lk)
Step-held inv (load j i lt at e) k lk h = ground (arith, inv.held k lk, inv.held j lt)
Step-held inv (store j i v lt at e) k lk h = ground (arith, inv.held k lk, inv.held j lt)
Step-held inv (unlock j i lt at e) k lk h = ground (arith, inv.held k lk, inv.held j lt)

Step-IsCurrent :
    {s t : Shared} → Inv s → Step s t → (k : ℕ) → k < threads → IsCurrent (t.counter) (t.place k)
Step-IsCurrent inv (lock j i lt at more free e) k lk = ground (arith, inv.current k lk)
Step-IsCurrent inv (load j i lt at e) k lk = ground (arith, inv.current k lk)
Step-IsCurrent inv (store j i v lt at e) k lk =
    ground (arith, inv.current k lk, inv.held k lk, inv.held j lt)
Step-IsCurrent inv (unlock j i lt at e) k lk = ground (arith, inv.current k lk)

Step-bounded :
    {s t : Shared} → Inv s → Step s t → (k : ℕ) → k < threads → begun (t.place k) ≤ iterations
Step-bounded inv (lock j i lt at more free e) k lk = ground (arith, inv.bounded k lk)
Step-bounded inv (load j i lt at e) k lk = ground (arith, inv.bounded k lk)
Step-bounded inv (store j i v lt at e) k lk = ground (arith, inv.bounded k lk)
Step-bounded inv (unlock j i lt at e) k lk = ground (arith, inv.bounded k lk, inv.bounded j lt)

pub Reach-Inv : {s : Shared} → Reach s → Inv s
Reach-Inv start = record {
  total = omega (arith, sum_below-const share threads (init.place) 0 (λ j lj. refl));
  held = λ j lj h. absurd (ground arith);
  current = λ j lj. ground arith;
  bounded = λ j lj. omega arith;
}
Reach-Inv (step r st) =
    let inv = Reach-Inv r in
    record {
      total = Step-total inv st;
      held = Step-held inv st;
      current = Step-IsCurrent inv st;
      bounded = Step-bounded inv st;
    }

-- In every reachable state the counter is exactly what all additions made so far come to, with no
-- wrap-around: no update is lost, whatever the schedule.
pub no_update_lost : {s : Shared} → Reach s → s.counter ≡ sum_below share threads s.place
no_update_lost r = (Reach-Inv r).total

-- Once all threads have left the loop the counter is 1000 · 12500.
final_counter : {s : Shared} → Reach s → Finished s → s.counter ≡ 12500000
final_counter {s} r all = omega (
  arith,
  no_update_lost r,
  sum_below-const share threads s.place 12500 (λ j lj. ground (arith, all j lj)),
)
