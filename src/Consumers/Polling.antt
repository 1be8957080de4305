-- ===== src/Consumers/Polling.antt =====
-- exercise06/task2/task2.c: the same producer and consumers without a condition variable. A consumer
-- first waits until it sees an entry, without the mutex, and then takes entries until it gets
-- `INT_MAX`; an empty queue gives it 0. What is done between a lock of the mutex and its unlock is one
-- step. Arguments, numbers and their bit patterns are as in task3.c.
pub mod Sum
use ps_os.Base.{ℕ, ◌+◌, ◌%◌, ◌^◌, ◌≤◌, ◌<◌, ◌≡◌, ◌≢◌, false, none, some, update}
use ps_os.MyQueue.{MyQueue, myqueue_init, myqueue_is_empty, myqueue_push, myqueue_pop, size_of_int}
use ps_os.Consumers.{Config, int_max, num}

-- Where a consumer stands in `thread_func`, with `temp` once it is set.
pub data Place : Type 0 where
  polling : Place
  taking : Place
  deciding : ℕ → Place
  ended : Place

pub data MainPlace : Type 0 where
  push_value : ℕ → MainPlace
  push_end : ℕ → MainPlace
  joining : ℕ → ℕ → MainPlace

pub record State : Type 0 where
  pub queue : MyQueue
  pub place : ℕ → Place
  pub sum : ℕ → ℕ
  pub main : MainPlace

abbrev pub init : State
init = record { queue = myqueue_init; place = λ j. polling; sum = λ j. 0; main = push_value 0 }

abbrev pub go : State → ℕ → Place → State
go s j p = record s { place = update s.place j p }

-- The steps of consumer `j` from place `p`.
pub data Move (s : State) (j : ℕ) (p : Place) (t : State) : Type 0 where
  see_entry : p ≡ polling → myqueue_is_empty (s.queue) ≡ false → t ≡ go s j taking → Move s j p t
  pop :
      (v : ℕ) (rest : MyQueue)
      → p ≡ taking
      → myqueue_pop (s.queue) ≡ some (v, rest)
      → t ≡ record (go s j (deciding v)) { queue = rest }
      → Move s j p t
  find_none : p ≡ taking → myqueue_pop (s.queue) ≡ none → t ≡ go s j (deciding 0) → Move s j p t
  end_loop : (v : ℕ) → p ≡ deciding v → v ≡ int_max → t ≡ go s j ended → Move s j p t
  add :
      (v : ℕ)
      → p ≡ deciding v
      → v ≢ int_max
      → t ≡ record (go s j taking) { sum = update s.sum j ((s.sum j + size_of_int v) % 2 ^ 64) }
      → Move s j p t

pub data MainMove (c : Config) (s : State) (m : MainPlace) (t : State) : Type 0 where
  push_number :
      (i : ℕ)
      → m ≡ push_value i
      → i < c.elements
      → t ≡ record s { queue = myqueue_push (s.queue) (num i); main = push_value (i + 1) }
      → MainMove c s m t
  values_done :
      (i : ℕ)
      → m ≡ push_value i
      → c.elements ≤ i
      → t ≡ record s { main = push_end 0 }
      → MainMove c s m t
  push_int_max :
      (i : ℕ)
      → m ≡ push_end i
      → i < c.consumers
      → t ≡ record s { queue = myqueue_push (s.queue) int_max; main = push_end (i + 1) }
      → MainMove c s m t
  ends_done :
      (i : ℕ)
      → m ≡ push_end i
      → c.consumers ≤ i
      → t ≡ record s { main = joining 0 0 }
      → MainMove c s m t
  join :
      (i total : ℕ)
      → m ≡ joining i total
      → i < c.consumers
      → s.place i ≡ ended
      → t ≡ record s { main = joining (i + 1) ((total + s.sum i) % 2 ^ 32) }
      → MainMove c s m t

pub data Step (c : Config) (s t : State) : Type 0 where
  consumer_runs : (j : ℕ) → j < c.consumers → Move s j (s.place j) t → Step c s t
  main_runs : MainMove c s (s.main) t → Step c s t

pub data Reach (c : Config) : State → Type 0 where
  start : Reach c init
  step : {s t : State} → Reach c s → Step c s t → Reach c t
