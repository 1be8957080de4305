-- ===== src/Counter.antt =====
-- exercise06/task1/task1_mutex.c: a thousand threads change one counter under a mutex. The load and the
-- store of `*counter += temp` are steps of their own. An `unsigned int` is a number below 2^32.
pub mod Total
pub mod Atomic
pub mod Refinement
use ps_os.Base.{ℕ, ◌+◌, ◌-◌, ◌%◌, ◌^◌, ◌<◌, ◌≡◌, Option, none, some, ◌==◌, if◌then◌else◌, update}

abbrev pub threads : ℕ
threads = 1000

abbrev pub iterations : ℕ
iterations = 25000

abbrev pub even_increase : ℕ
even_increase = 42

-- -41, added to an `unsigned int`.
abbrev pub odd_increase : ℕ
odd_increase = 2 ^ 32 - 41

abbrev pub temp : ℕ → ℕ
temp i = if i % 2 == 0 then even_increase else odd_increase

-- Where a thread stands in `thread_func`, with `i`, and the value that it has loaded.
pub data Place : Type 0 where
  locking : ℕ → Place
  loading : ℕ → Place
  storing : ℕ → ℕ → Place
  unlocking : ℕ → Place

pub record Shared : Type 0 where
  pub counter : ℕ
  pub mutex : Option ℕ
  pub place : ℕ → Place

abbrev pub init : Shared
init = record { counter = 0; mutex = none; place = λ j. locking 0 }

abbrev pub go : Shared → ℕ → Place → Shared
go s j p = record s { place = update s.place j p }

pub data Step (s t : Shared) : Type 0 where
  lock :
      (j i : ℕ)
      → j < threads
      → s.place j ≡ locking i
      → i < iterations
      → s.mutex ≡ none
      → t ≡ record (go s j (loading i)) { mutex = some j }
      → Step s t
  load :
      (j i : ℕ) → j < threads → s.place j ≡ loading i → t ≡ go s j (storing i s.counter) → Step s t
  store :
      (j i v : ℕ)
      → j < threads
      → s.place j ≡ storing i v
      → t ≡ record (go s j (unlocking i)) { counter = (v + temp i) % 2 ^ 32 }
      → Step s t
  unlock :
      (j i : ℕ)
      → j < threads
      → s.place j ≡ unlocking i
      → t ≡ record (go s j (locking (i + 1))) { mutex = none }
      → Step s t

pub data Reach : Shared → Type 0 where
  start : Reach init
  step : {s t : Shared} → Reach s → Step s t → Reach t

-- All threads have left the loop.
abbrev pub Finished : Shared → Type 0
Finished s = (j : ℕ) → j < threads → s.place j ≡ locking iterations
