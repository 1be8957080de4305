-- ===== src/Philosophers/Exclusion.antt =====
-- exercise07/task2/task2.c: who owns a chopstick.
use ps_os.Base.{ℕ, ◌+◌, ◌≤◌, ◌<◌, ◌≡◌, ◌≢◌, some, ◌==◌, arith, Bool, true, false, ◌||◌}
use ps_os.Philosophers.{
  num_philosopher, eat_iterations, right_chopstick, left_chopstick, first_lock, Place, thinking,
  one_chopstick, eating, left_returned, Table, init, Step, lock_first, lock_second, unlock_left,
  unlock_right, Reach, start, step,
}

-- Whether a philosopher at this place has locked chopstick `k`.
abbrev pub has : ℕ → Place → ℕ → Bool
has n (thinking i) k = false
has n (one_chopstick i) k = k == first_lock n
has n (eating i) k = (k == right_chopstick n) || (k == left_chopstick n)
has n (left_returned i) k = k == right_chopstick n

abbrev pub rounds : Place → ℕ
rounds (thinking i) = i
rounds (one_chopstick i) = i + 1
rounds (eating i) = i + 1
rounds (left_returned i) = i + 1

-- A mutex is owned by the one philosopher whose place says so.
pub record Inv (s : Table) : Type 0 where
  pub owned : (k n : ℕ) → s.owner k ≡ some n → (n < num_philosopher) × (has n (s.place n) k ≡ true)
  pub holds : (k n : ℕ) → n < num_philosopher → has n (s.place n) k ≡ true → s.owner k ≡ some n
  pub bounded : (n : ℕ) → rounds (s.place n) ≤ eat_iterations

init-Inv : Inv init
init-Inv = record {
  owned = λ k n e. ground arith;
  holds = λ k n lt e. ground arith;
  bounded = λ n. omega arith;
}

Step-owned :
    {s t : Table}
    → Inv s
    → Step s t
    → (k m : ℕ) → t.owner k ≡ some m
    → (m < num_philosopher) × (has m (t.place m) k ≡ true)
Step-owned inv (lock_first n i lt at more free e) k m = ground (arith, inv.owned k m, inv.holds k n)
Step-owned inv (lock_second n i lt at free e) k m = ground (arith, inv.owned k m, inv.holds k n)
Step-owned inv (unlock_left n i lt at e) k m = ground (arith, inv.owned k m, inv.holds k n)
Step-owned inv (unlock_right n i lt at e) k m = ground (arith, inv.owned k m, inv.holds k n)

Step-holds :
    {s t : Table}
    → Inv s
    → Step s t
    → (k m : ℕ) → m < num_philosopher
    → has m (t.place m) k ≡ true
    → t.owner k ≡ some m
Step-holds inv (lock_first n i lt at more free e) k m = ground (arith, inv.holds k m, inv.holds k n)
Step-holds inv (lock_second n i lt at free e) k m = ground (arith, inv.holds k m, inv.holds k n)
Step-holds inv (unlock_left n i lt at e) k m = ground (arith, inv.holds k m, inv.holds k n)
Step-holds inv (unlock_right n i lt at e) k m = ground (arith, inv.holds k m, inv.holds k n)

Step-bounded : {s t : Table} → Inv s → Step s t → (m : ℕ) → rounds (t.place m) ≤ eat_iterations
Step-bounded inv (lock_first n i lt at more free e) m = ground (arith, inv.bounded m)
Step-bounded inv (lock_second n i lt at free e) m = ground (arith, inv.bounded m, inv.bounded n)
Step-bounded inv (unlock_left n i lt at e) m = ground (arith, inv.bounded m, inv.bounded n)
Step-bounded inv (unlock_right n i lt at e) m = ground (arith, inv.bounded m, inv.bounded n)

pub Step-Inv : {s t : Table} → Inv s → Step s t → Inv t
Step-Inv inv st = record {
  owned = Step-owned inv st;
  holds = Step-holds inv st;
  bounded = Step-bounded inv st;
}

pub Reach-Inv : {s : Table} → Reach s → Inv s
Reach-Inv start = init-Inv
Reach-Inv (step r st) = Step-Inv (Reach-Inv r) st

-- In every reachable state two philosophers who have locked one chopstick are the same.
pub chopstick_exclusive :
    {s : Table}
    → Reach s
    → (k n m : ℕ) → n < num_philosopher
    → m < num_philosopher
    → has n (s.place n) k ≡ true
    → has m (s.place m) k ≡ true
    → n ≡ m
chopstick_exclusive r k n m ln lm a b =
    ground (arith, (Reach-Inv r).holds k n, (Reach-Inv r).holds k m)

-- Neighbours never eat at the same time.
neighbours_exclude :
    {s : Table}
    → Reach s
    → (n i j : ℕ) → n < num_philosopher
    → s.place n ≡ eating i
    → s.place (left_chopstick n) ≢ eating j
neighbours_exclude r n i j ln a b =
    ground (arith, chopstick_exclusive r (left_chopstick n) n (left_chopstick n))
