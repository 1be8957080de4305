-- ===== src/Consumers.antt =====
-- exercise06/task3/task3.c: `main` hands numbers to a group of consumers through one queue, guarded
-- by a mutex and a condition variable, and ends each with the number `INT_MAX`. Each call and each
-- access to shared memory is one atomic step. Numbers are bit patterns: an `int` below 2^32, a `long`
-- below 2^64.

pub mod Moves
pub mod Locks
pub mod Marks
pub mod Totals
pub mod Outcome
pub mod Progress
pub mod Polling
use ps_os.Base.{
  ℕ, ◌+◌, ◌-◌, ◌%◌, ◌^◌, ◌≤◌, ◌<◌, ◌≡◌, ◌≢◌, true, false, Option, none, some, ◌==◌, if◌then◌else◌,
  update,
}
use ps_os.MyQueue.{MyQueue, myqueue_init, myqueue_is_empty, myqueue_push, myqueue_pop, size_of_int}

-- The two arguments; both are positive.
pub record Config : Type 0 where
  pub consumers : ℕ
  pub elements : ℕ

abbrev pub int_max : ℕ
int_max = 2 ^ 31 - 1

-- `(i % 2 == 0) ? 1 : -1`
abbrev pub num : ℕ → ℕ
num i = if i % 2 == 0 then 1 else 2 ^ 32 - 1

-- Where a consumer stands in `thread_func`, with `temp` once it is set.
pub data Place : Type 0 where
  lock_mutex : Place
  testing : Place  -- holds the mutex, before the test of the inner loop
  waiting : Place  -- in `pthread_cond_wait`, without the mutex
  woken : Place  -- in `pthread_cond_wait`, on its way back to the mutex
  popping : Place
  unlocking : ℕ → Place
  deciding : ℕ → Place  -- before the comparison with `INT_MAX`
  ended : Place

-- Where `main` stands, with `i`, and in the last loop with the sum.
pub data MainPlace : Type 0 where
  lock_value : ℕ → MainPlace
  push_value : ℕ → MainPlace
  signal_value : ℕ → MainPlace
  unlock_value : ℕ → MainPlace
  lock_end : ℕ → MainPlace
  push_end : ℕ → MainPlace
  signal_end : ℕ → MainPlace
  unlock_end : ℕ → MainPlace
  broadcasting : MainPlace
  joining : ℕ → ℕ → MainPlace

pub data Owner : Type 0 where
  producer : Owner
  consumer : ℕ → Owner

pub record State : Type 0 where
  pub queue : MyQueue
  pub mutex : Option Owner
  pub place : ℕ → Place
  pub sum : ℕ → ℕ
  pub main : MainPlace

-- After the threads have been created.
abbrev pub init : State
init = record {
  queue = myqueue_init;
  mutex = none;
  place = λ j. lock_mutex;
  sum = λ j. 0;
  main = lock_value 0;
}

abbrev pub go : State → ℕ → Place → State
go s j p = record s { place = update s.place j p }

abbrev pub wake : Place → Place
wake waiting = woken
wake p = p

-- The steps of consumer `j` from place `p`.
pub data Move (s : State) (j : ℕ) (p : Place) (t : State) : Type 0 where
  lock :
      p ≡ lock_mutex
      → s.mutex ≡ none
      → t ≡ record (go s j testing) { mutex = some (consumer j) }
      → Move s j p t
  wait :
      p ≡ testing
      → myqueue_is_empty (s.queue) ≡ true
      → t ≡ record (go s j waiting) { mutex = none }
      → Move s j p t
  relock :
      p ≡ woken
      → s.mutex ≡ none
      → t ≡ record (go s j testing) { mutex = some (consumer j) }
      → Move s j p t
  see_entry : p ≡ testing → myqueue_is_empty (s.queue) ≡ false → t ≡ go s j popping → Move s j p t
  pop :
      (v : ℕ) (rest : MyQueue)
      → p ≡ popping
      → myqueue_pop (s.queue) ≡ some (v, rest)
      → t ≡ record (go s j (unlocking v)) { queue = rest }
      → Move s j p t
  unlock :
      (v : ℕ) → p ≡ unlocking v → t ≡ record (go s j (deciding v)) { mutex = none } → Move s j p t
  end_loop : (v : ℕ) → p ≡ deciding v → v ≡ int_max → t ≡ go s j ended → Move s j p t
  add :
      (v : ℕ)
      → p ≡ deciding v
      → v ≢ int_max
      → t ≡ record (go s j lock_mutex) { sum = update s.sum j ((s.sum j + size_of_int v) % 2 ^ 64) }
      → Move s j p t

-- `main` before `pthread_cond_signal`, and behind it.
abbrev pub after_signal : MainPlace → Option MainPlace
after_signal (signal_value i) = some (unlock_value i)
after_signal (signal_end i) = some (unlock_end i)
after_signal _ = none

-- The steps of `main` from place `m`. A signal wakes one consumer that waits, if there is one.
pub data MainMove (c : Config) (s : State) (m : MainPlace) (t : State) : Type 0 where
  lock_for_value :
      (i : ℕ)
      → m ≡ lock_value i
      → i < c.elements
      → s.mutex ≡ none
      → t ≡ record s { mutex = some producer; main = push_value i }
      → MainMove c s m t
  push_number :
      (i : ℕ)
      → m ≡ push_value i
      → t ≡ record s { queue = myqueue_push (s.queue) (num i); main = signal_value i }
      → MainMove c s m t
  unlock_after_value :
      (i : ℕ)
      → m ≡ unlock_value i
      → t ≡ record s { mutex = none; main = lock_value (i + 1) }
      → MainMove c s m t
  values_done :
      (i : ℕ)
      → m ≡ lock_value i
      → c.elements ≤ i
      → t ≡ record s { main = lock_end 0 }
      → MainMove c s m t
  lock_for_end :
      (i : ℕ)
      → m ≡ lock_end i
      → i < c.consumers
      → s.mutex ≡ none
      → t ≡ record s { mutex = some producer; main = push_end i }
      → MainMove c s m t
  push_int_max :
      (i : ℕ)
      → m ≡ push_end i
      → t ≡ record s { queue = myqueue_push (s.queue) int_max; main = signal_end i }
      → MainMove c s m t
  unlock_after_end :
      (i : ℕ)
      → m ≡ unlock_end i
      → t ≡ record s { mutex = none; main = lock_end (i + 1) }
      → MainMove c s m t
  ends_done :
      (i : ℕ)
      → m ≡ lock_end i
      → c.consumers ≤ i
      → t ≡ record s { main = broadcasting }
      → MainMove c s m t
  signal_one :
      (m' : MainPlace) (j : ℕ)
      → after_signal m ≡ some m'
      → j < c.consumers
      → s.place j ≡ waiting
      → t ≡ record (go s j woken) { main = m' }
      → MainMove c s m t
  signal_none :
      (m' : MainPlace)
      → after_signal m ≡ some m'
      → ((j : ℕ) → j < c.consumers → s.place j ≢ waiting)
      → t ≡ record s { main = m' }
      → MainMove c s m t
  broadcast :
      m ≡ broadcasting
      → t ≡ record s { place = λ j. wake (s.place j); main = joining 0 0 }
      → MainMove c s m t
  join :
      (i total : ℕ)
      → m ≡ joining i total
      → i < c.consumers
      → s.place i ≡ ended
      → t ≡ record s { main = joining (i + 1) ((total + s.sum i) % 2 ^ 32) }
      → MainMove c s m t

-- A step of the program.
pub data Run (c : Config) (s t : State) : Type 0 where
  consumer_runs : (j : ℕ) → j < c.consumers → Move s j (s.place j) t → Run c s t
  main_runs : MainMove c s (s.main) t → Run c s t

-- A step of the program, or a spurious wake-up, which POSIX allows at any time.
pub data Step (c : Config) (s t : State) : Type 0 where
  run : Run c s t → Step c s t
  spurious : (j : ℕ) → j < c.consumers → s.place j ≡ waiting → t ≡ go s j woken → Step c s t

pub data Reach (c : Config) : State → Type 0 where
  start : Reach c init
  step : {s t : State} → Reach c s → Step c s t → Reach c t
