-- ===== src/SharedBuffer/Invariant.antt =====
-- exercise05/task3/task3.c: what the two semaphores, the cells and the sum say about how far each
-- child has come.
use ps_os.Base.{
  ℕ, ◌+◌, ◌-◌, ◌*◌, ◌%◌, ◌^◌, ◌≤◌, ◌<◌, ◌≡◌, ◌≢◌, refl, arith, length, get_or, set, length-set,
  ℕ_discrete, ◌∙◌, ap, length-replicate, get_or-set_self, get_or-set_ne,
}
use ps_os.SharedBuffer.Checksum.{sum_to, sum_to_pred, validate_result, validate_result-eq_zero}
use ps_os.SharedBuffer.{
  Config, Producer, wait_free, store, post_filled, Consumer, wait_filled, fetch, accumulate,
  post_free, State, u64, unsigned, sem_init, init, Finished, Step, producer_wait, producer_store,
  producer_post, consumer_wait, consumer_fetch, consumer_add, consumer_post, Reach, start, step,
}

-- How often a child has passed each statement of its loop.
abbrev pub waited : Producer → ℕ
waited (wait_free i) = i - 1
waited (store i) = i
waited (post_filled i) = i

abbrev pub stored : Producer → ℕ
stored (wait_free i) = i - 1
stored (store i) = i - 1
stored (post_filled i) = i

abbrev pub posted : Producer → ℕ
posted (wait_free i) = i - 1
posted (store i) = i - 1
posted (post_filled i) = i - 1

abbrev pub taken : Consumer → ℕ
taken (wait_filled i) = i - 1
taken (fetch i) = i
taken (accumulate i v) = i
taken (post_free i) = i

abbrev pub fetched : Consumer → ℕ
fetched (wait_filled i) = i - 1
fetched (fetch i) = i - 1
fetched (accumulate i v) = i
fetched (post_free i) = i

abbrev pub added : Consumer → ℕ
added (wait_filled i) = i - 1
added (fetch i) = i - 1
added (accumulate i v) = i - 1
added (post_free i) = i

abbrev pub returned : Consumer → ℕ
returned (wait_filled i) = i - 1
returned (fetch i) = i - 1
returned (accumulate i v) = i - 1
returned (post_free i) = i - 1

abbrev pub ProducerInRange : ℕ → Producer → Type 0
ProducerInRange ops (wait_free i) = (1 ≤ i) × (i ≤ ops + 1)
ProducerInRange ops (store i) = (1 ≤ i) × (i ≤ ops)
ProducerInRange ops (post_filled i) = (1 ≤ i) × (i ≤ ops)

abbrev pub ConsumerInRange : Config → Consumer → Type 0
ConsumerInRange c (wait_filled i) = (1 ≤ i) × (i ≤ c.ops + 1)
ConsumerInRange c (fetch i) = (1 ≤ i) × (i ≤ c.ops)
ConsumerInRange c (accumulate i v) = (1 ≤ i) × (i ≤ c.ops) × (v ≡ u64 (i * c.factor))
ConsumerInRange c (post_free i) = (1 ≤ i) × (i ≤ c.ops)

pub record Inv (c : Config) (s : State) : Type 0 where
  pub filled : s.mem.filled + taken s.consumer ≡ posted s.producer
  pub free : s.mem.free + waited s.producer ≡ sem_init (unsigned c.cells) + returned s.consumer
  pub producer : ProducerInRange c.ops s.producer
  pub consumer : ConsumerInRange c s.consumer
  pub size : length (s.mem.buffer) ≡ c.cells
  pub sum : s.mem.result ≡ sum_to c.factor (added s.consumer) % 2 ^ 64
  pub cells :
      (j : ℕ)
      → fetched s.consumer < j
      → j ≤ stored s.producer
      → get_or (s.mem.buffer) (j % c.cells) 0 ≡ u64 (j * c.factor)

-- The semaphore of the free cells counts no more of them than there are.
pub sem_init-le : (cells : ℕ) → sem_init (unsigned cells) ≤ cells
sem_init-le cells = ground arith

-- What `main` checks, and that the loop counter, a `uint64_t`, can pass `ops`.
pub record IsConfig (c : Config) : Type 0 where
  pub some_cells : 0 < c.cells
  pub counted : c.ops + 1 < 2 ^ 64

-- Numbers less than `n` apart have different remainders.
mod-ne : (n i j : ℕ) → j < i → i < j + n → i % n ≢ j % n
mod-ne n i j h k = grind arith

init-Inv : (c : Config) → IsConfig c → Inv c (init c)
unfolding sum_to
init-Inv c is = record {
  filled = refl;
  free = omega arith;
  producer = omega arith;
  consumer = omega arith;
  size = length-replicate c.cells 0;
  sum = refl;
  cells = λ j a b. absurd (omega arith);
}

-- Child A overwrites a cell that child B has read: the others keep their numbers.
store-cells :
    {c : Config} {s : State} (i : ℕ)
    → IsConfig c
    → Inv c s
    → s.producer ≡ store i
    → (j : ℕ) → fetched s.consumer < j
    → j ≤ i
    → get_or (set (s.mem.buffer) (i % c.cells) (u64 (i * c.factor))) (j % c.cells) 0
      ≡ u64 (j * c.factor)
store-cells {c} {s} i is inv at j above below = elim (ℕ_discrete j i) [
  | yes same ↦ rw same (get_or-set_self s.mem.buffer (i % c.cells) (u64 (i * c.factor)) 0 inside)
  | no other ↦
      get_or-set_ne s.mem.buffer (i % c.cells) (j % c.cells) (u64 (i * c.factor)) 0
        (mod-ne c.cells i j (omega arith) near)
      ∙ inv.cells j above (ground arith)
]
  where
    inside : i % c.cells < length (s.mem.buffer)
    inside = ground arith

    near : i < j + c.cells
    near = ground (arith, sem_init-le c.cells)

fetch-value :
    {c : Config} {s : State} (i : ℕ)
    → Inv c s
    → s.consumer ≡ fetch i
    → get_or (s.mem.buffer) (i % c.cells) 0 ≡ u64 (i * c.factor)
fetch-value i inv at = inv.cells i (ground arith) (ground arith)

-- Every step of either child keeps the invariant.
pub Step-Inv : {c : Config} {s t : State} → IsConfig c → Inv c s → Step c s t → Inv c t
Step-Inv is inv (producer_wait i at le pos e) = ground arith
Step-Inv {c} {s} is inv (producer_store i at e) =
    ground
      (arith, length-set (s.mem.buffer) (i % c.cells) (u64 (i * c.factor)), store-cells i is inv at)
Step-Inv is inv (producer_post i at e) = ground arith
Step-Inv is inv (consumer_wait i at le pos e) = ground arith
Step-Inv is inv (consumer_fetch i at e) = ground (arith, fetch-value i inv at)
Step-Inv {c} is inv (consumer_add i v at e) = ground (arith, sum_to_pred c.factor i)
Step-Inv is inv (consumer_post i at e) = ground arith

pub Reach-Inv : {c : Config} {s : State} → IsConfig c → Reach c s → Inv c s
Reach-Inv {c} is start = init-Inv c is
Reach-Inv is (step r st) = Step-Inv is (Reach-Inv is r) st

-- Whatever the schedule: once both children have left their loops, the result is
-- N + 2 N + … + K N modulo 2^64, and the parent prints the checksum 0.
pub ring_result :
    {c : Config} {s : State}
    → IsConfig c
    → Reach c s
    → Finished c s
    → (s.mem.result ≡ sum_to c.factor c.ops % 2 ^ 64)
      × (validate_result (s.mem.result) c.ops c.factor ≡ 0)
ring_result {c} {s} is r done =
    (sum, (validate_result-eq_zero (s.mem.result) c.ops c.factor (omega (arith, sum))).1 sum)
  where
    inv : Inv c s
    inv = Reach-Inv is r

    all_added : added s.consumer ≡ c.ops
    all_added = ground (arith, inv)

    sum : s.mem.result ≡ sum_to c.factor c.ops % 2 ^ 64
    sum = inv.sum ∙ ap (λ n. sum_to c.factor n % 2 ^ 64) all_added

-- Neither semaphore ever counts more than the cells, together or alone: `sem_post` cannot
-- overflow, and the child that is about to access a cell stays inside the ring.
semaphore_bounds :
    {c : Config} {s : State}
    → IsConfig c
    → Reach c s
    → (s.mem.filled + s.mem.free ≤ c.cells) × ((i : ℕ) → i % c.cells < length (s.mem.buffer))
semaphore_bounds {c} {s} is r = ground (arith, inv, sem_init-le c.cells)
  where
    inv : Inv c s
    inv = Reach-Inv is r
