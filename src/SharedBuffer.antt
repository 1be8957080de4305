-- ===== src/SharedBuffer.antt =====
-- exercise05/task3/task3.c: two processes pass `K` numbers through a ring of `L` cells in shared
-- memory, guarded by two counting semaphores. Each `sem_wait`, `sem_post` and shared access is one
-- atomic step, and the scheduler picks either process before each.
pub mod Checksum
pub mod Invariant
pub mod Progress
pub mod Unguarded
pub mod Setup
use ps_os.Base.{
  ltb, if◌then◌else◌, Bool, ℕ, ◌+◌, ◌-◌, ◌*◌, ◌%◌, ◌^◌, ◌≤◌, ◌<◌, ◌≡◌, List, get_or, set, replicate,
}

-- `argv`: the factor `N`, the number of operations `K`, the length `L` of the ring.
pub record Config : Type 0 where
  pub factor : ℕ
  pub ops : ℕ
  pub cells : ℕ

-- `todo_t`: `sem_fd_1` counts the filled cells, `sem_fd_2` the free ones.
pub record Shared : Type 0 where
  pub result : ℕ
  pub filled : ℕ
  pub free : ℕ
  pub buffer : List ℕ

-- Where child A stands in its loop, with its counter `i`.
pub data Producer : Type 0 where
  wait_free : ℕ → Producer
  store : ℕ → Producer
  post_filled : ℕ → Producer

-- Where child B stands in its loop, with `i` and, after the load, the value read.
pub data Consumer : Type 0 where
  wait_filled : ℕ → Consumer
  fetch : ℕ → Consumer
  accumulate : ℕ → ℕ → Consumer
  post_free : ℕ → Consumer

pub record State : Type 0 where
  pub mem : Shared
  pub producer : Producer
  pub consumer : Consumer

-- `uint64_t`
abbrev pub u64 : ℕ → ℕ
u64 n = n % 2 ^ 64

-- `sem_init` takes an `unsigned int`, refuses a value above `SEM_VALUE_MAX`, and then leaves the zeros
-- that `ftruncate` has put there.
abbrev pub unsigned : ℕ → ℕ
unsigned v = v % 2 ^ 32

abbrev pub is_sem_value : ℕ → Bool
is_sem_value v = ltb v (2 ^ 31)

abbrev pub sem_init : ℕ → ℕ
sem_init v = if is_sem_value v then v else 0

-- After `ftruncate` (which zeroes), the two `sem_init` and the two `fork`.
abbrev pub init : Config → State
init c = record {
  mem = record {
    result = 0;
    filled = 0;
    free = sem_init (unsigned c.cells);
    buffer = replicate c.cells 0;
  };
  producer = wait_free 1;
  consumer = wait_filled 1;
}

-- One step of one child. A `sem_wait` at 0 blocks: no step. A child whose counter has passed
-- `ops` has left its loop.
pub data Step (c : Config) (s t : State) : Type 0 where
  producer_wait :
      (i : ℕ)
      → s.producer ≡ wait_free i
      → i ≤ c.ops
      → 0 < s.mem.free
      → t ≡ record s { mem = record (s.mem) { free = s.mem.free - 1 }; producer = store i }
      → Step c s t
  producer_store :
      (i : ℕ)
      → s.producer ≡ store i
      → t ≡ record s {
        mem = record (s.mem) { buffer = set (s.mem.buffer) (i % c.cells) (u64 (i * c.factor)) };
        producer = post_filled i;
      }
      → Step c s t
  producer_post :
      (i : ℕ)
      → s.producer ≡ post_filled i
      → t ≡ record s {
        mem = record (s.mem) { filled = s.mem.filled + 1 };
        producer = wait_free (u64 (i + 1));
      }
      → Step c s t
  consumer_wait :
      (i : ℕ)
      → s.consumer ≡ wait_filled i
      → i ≤ c.ops
      → 0 < s.mem.filled
      → t ≡ record s { mem = record (s.mem) { filled = s.mem.filled - 1 }; consumer = fetch i }
      → Step c s t
  consumer_fetch :
      (i : ℕ)
      → s.consumer ≡ fetch i
      → t ≡ record s { consumer = accumulate i (get_or (s.mem.buffer) (i % c.cells) 0) }
      → Step c s t
  consumer_add :
      (i v : ℕ)
      → s.consumer ≡ accumulate i v
      → t ≡ record s {
        mem = record (s.mem) { result = u64 (s.mem.result + v) };
        consumer = post_free i;
      }
      → Step c s t
  consumer_post :
      (i : ℕ)
      → s.consumer ≡ post_free i
      → t ≡ record s {
        mem = record (s.mem) { free = s.mem.free + 1 };
        consumer = wait_filled (u64 (i + 1));
      }
      → Step c s t

pub data Reach (c : Config) : State → Type 0 where
  start : Reach c (init c)
  step : {s t : State} → Reach c s → Step c s t → Reach c t

-- A child whose counter has passed `ops` has left its loop.
abbrev pub ProducerLeft : ℕ → Producer → Type 0
ProducerLeft ops (wait_free i) = ops < i
ProducerLeft ops (store i) = ⊥
ProducerLeft ops (post_filled i) = ⊥

abbrev pub ConsumerLeft : ℕ → Consumer → Type 0
ConsumerLeft ops (wait_filled i) = ops < i
ConsumerLeft ops (fetch i) = ⊥
ConsumerLeft ops (accumulate i v) = ⊥
ConsumerLeft ops (post_free i) = ⊥

-- Both children have exited, so `wait` in the parent returns.
abbrev pub Finished : Config → State → Type 0
Finished c s = ProducerLeft c.ops s.producer × ConsumerLeft c.ops s.consumer
