-- ===== src/Philosophers.antt =====
-- exercise07/task2/task2.c: ten philosophers at a table, a mutex for each chopstick. Each
-- `pthread_mutex_lock` and `pthread_mutex_unlock` is one atomic step; the scheduler picks any
-- philosopher before each.
pub mod Exclusion
pub mod Progress
use ps_os.Base.{
  ℕ, ◌+◌, ◌-◌, ◌*◌, ◌%◌, ◌≤◌, ◌<◌, ◌≡◌, Option, none, some, update, ◌==◌, if◌then◌else◌,
}

abbrev pub num_philosopher : ℕ
num_philosopher = 10

abbrev pub eat_iterations : ℕ
eat_iterations = 5000

-- `RIGHT_CHOPSTICK(n)` and `LEFT_CHOPSTICK(n)`
abbrev pub right_chopstick : ℕ → ℕ
right_chopstick n = n

abbrev pub left_chopstick : ℕ → ℕ
left_chopstick n = (n + 1) % num_philosopher

-- The order of the two `pthread_mutex_lock` calls: the last philosopher begins on the left.
abbrev pub first_lock : ℕ → ℕ
first_lock n = if n == num_philosopher - 1 then left_chopstick n else right_chopstick n

abbrev pub second_lock : ℕ → ℕ
second_lock n = if n == num_philosopher - 1 then right_chopstick n else left_chopstick n

-- Where a philosopher stands in `dine`, with the rounds `i` that are behind.
pub data Place : Type 0 where
  thinking : ℕ → Place
  one_chopstick : ℕ → Place
  eating : ℕ → Place
  left_returned : ℕ → Place

pub record Table : Type 0 where
  pub place : ℕ → Place
  -- the owner of each mutex
  pub owner : ℕ → Option ℕ

abbrev pub init : Table
init = record { place = λ n. thinking 0; owner = λ k. none }

abbrev pub move : Table → ℕ → Place → ℕ → Option ℕ → Table
move s n p k o = record { place = update s.place n p; owner = update s.owner k o }

pub data Step (s t : Table) : Type 0 where
  lock_first :
      (n i : ℕ)
      → n < num_philosopher
      → s.place n ≡ thinking i
      → i < eat_iterations
      → s.owner (first_lock n) ≡ none
      → t ≡ move s n (one_chopstick i) (first_lock n) (some n)
      → Step s t
  lock_second :
      (n i : ℕ)
      → n < num_philosopher
      → s.place n ≡ one_chopstick i
      → s.owner (second_lock n) ≡ none
      → t ≡ move s n (eating i) (second_lock n) (some n)
      → Step s t
  unlock_left :
      (n i : ℕ)
      → n < num_philosopher
      → s.place n ≡ eating i
      → t ≡ move s n (left_returned i) (left_chopstick n) none
      → Step s t
  unlock_right :
      (n i : ℕ)
      → n < num_philosopher
      → s.place n ≡ left_returned i
      → t ≡ move s n (thinking (i + 1)) (right_chopstick n) none
      → Step s t

pub data Reach : Table → Type 0 where
  start : Reach init
  step : {s t : Table} → Reach s → Step s t → Reach t

-- Every philosopher has left the loop, so `main` can join them.
abbrev pub Finished : Table → Type 0
Finished s = (n : ℕ) → n < num_philosopher → s.place n ≡ thinking eat_iterations
