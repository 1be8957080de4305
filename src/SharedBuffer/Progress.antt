-- ===== src/SharedBuffer/Progress.antt =====
-- exercise05/task3/task3.c: which child can go on, and how many steps there are.
use ps_os.Base.{ℕ, ◌+◌, ◌*◌, ◌≤◌, ◌≡◌, ◌⊎◌, ◌<◌, inl, inr, refl, arith, dec_lt, dec_le}
use ps_os.SharedBuffer.Invariant.{
  IsConfig, Inv, Reach-Inv, waited, stored, posted, taken, fetched, added, returned,
}
use ps_os.SharedBuffer.{
  Config, Producer, wait_free, store, post_filled, Consumer, wait_filled, fetch, accumulate,
  post_free, State, unsigned, sem_init, Finished, Step, producer_wait, producer_store,
  producer_post, consumer_wait, consumer_fetch, consumer_add, consumer_post, Reach, start, step,
}

abbrev pub CanStep : Config → State → Type 0
CanStep c s = (t : State) × Step c s t

consumer_moves :
    {c : Config} {s : State} (q : Consumer)
    → s.consumer ≡ q
    → ((i : ℕ) → q ≡ wait_filled i → CanStep c s ⊎ Finished c s)
    → CanStep c s ⊎ Finished c s
consumer_moves (wait_filled i) at blocked = blocked i refl
consumer_moves (fetch i) at blocked = inl (_, consumer_fetch i at refl)
consumer_moves (accumulate i v) at blocked = inl (_, consumer_add i v at refl)
consumer_moves (post_free i) at blocked = inl (_, consumer_post i at refl)

producer_moves :
    {c : Config} {s : State} (p : Producer)
    → s.producer ≡ p
    → ((i : ℕ) → p ≡ wait_free i → CanStep c s ⊎ Finished c s)
    → CanStep c s ⊎ Finished c s
producer_moves (wait_free i) at blocked = blocked i refl
producer_moves (store i) at blocked = inl (_, producer_store i at refl)
producer_moves (post_filled i) at blocked = inl (_, producer_post i at refl)

-- Both children stand at their `sem_wait`, or have left.
both_wait :
    {c : Config} {s : State} (i j : ℕ)
    → IsConfig c
    → 0 < sem_init (unsigned c.cells)
    → Inv c s
    → s.producer ≡ wait_free i
    → s.consumer ≡ wait_filled j
    → CanStep c s ⊎ Finished c s
both_wait {c} {s} i j is some_free inv p q = elim (dec_lt 0 s.mem.filled) [
  | yes ready ↦ inl (_, consumer_wait j q (ground arith) ready refl)
  | no empty ↦ elim (dec_le i c.ops) [
    | yes more ↦ inl (_, producer_wait i p more (ground arith) refl)
    | no done ↦ inr (ground arith)
  ]
]

-- No deadlock where the semaphore of the free cells has been started with a number other than 0, that
-- is, where the length modulo 2^32 is from 1 to 2^31 - 1: in every reachable state some child can
-- make a step, or both have left.
pub children_progress :
    {c : Config} {s : State}
    → IsConfig c
    → 0 < sem_init (unsigned c.cells)
    → Reach c s
    → CanStep c s ⊎ Finished c s
children_progress {c} {s} is some_free r =
    producer_moves s.producer refl
      λ i p. consumer_moves s.consumer refl λ j q. both_wait i j is some_free (Reach-Inv is r) p q

-- How many statements of both loops have been executed.
abbrev pub executed : State → ℕ
executed s =
    waited s.producer
    + stored s.producer
    + posted s.producer
    + (taken s.consumer + fetched s.consumer + added s.consumer + returned s.consumer)

-- Every step executes one statement, and there are seven for each of the `ops` rounds.
Step-executed :
    {c : Config} {s t : State} → IsConfig c → Inv c s → Step c s t → executed t ≡ executed s + 1
Step-executed is inv (producer_wait i at le pos e) = ground arith
Step-executed is inv (producer_store i at e) = ground arith
Step-executed is inv (producer_post i at e) = ground arith
Step-executed is inv (consumer_wait i at le pos e) = ground arith
Step-executed is inv (consumer_fetch i at e) = ground arith
Step-executed is inv (consumer_add i v at e) = ground arith
Step-executed is inv (consumer_post i at e) = ground arith

executed-le : {c : Config} {s : State} → Inv c s → executed s ≤ 7 * c.ops
executed-le inv = ground arith

pub steps_taken : {c : Config} {s : State} → Reach c s → ℕ
steps_taken start = 0
steps_taken (step r st) = steps_taken r + 1

steps_taken-executed :
    {c : Config} {s : State} → IsConfig c → (r : Reach c s) → steps_taken r ≡ executed s
unfolding steps_taken
steps_taken-executed is start = refl
steps_taken-executed is (step r st) =
    omega (arith, steps_taken-executed is r, Step-executed is (Reach-Inv is r) st)

-- Every run is short: no schedule takes more than seven steps for each operation.
pub buffer_run_ends :
    {c : Config} {s : State} → IsConfig c → (r : Reach c s) → steps_taken r ≤ 7 * c.ops
buffer_run_ends is r = omega (arith, steps_taken-executed is r, executed-le (Reach-Inv is r))
