-- ===== src/MyQueue.antt =====
-- myqueue.h (exercise11/task3, the same text in the other exercises): a FIFO of `int` over the
-- tail queue of sys/queue.h. A value is the bit pattern of an `int`, a number below 2^32.
use ps_os.Base.{
  ℕ, ◌+◌, ◌-◌, ◌%◌, ◌^◌, Bool, true, false, Option, none, some, List, [], ◌∷◌, ◌++◌, ltb,
  if◌then◌else◌,
}

abbrev pub MyQueue : Type 0
MyQueue = List ℕ

abbrev pub myqueue_init : MyQueue
myqueue_init = []

abbrev pub myqueue_is_empty : MyQueue → Bool
myqueue_is_empty [] = true
myqueue_is_empty (x ∷ q) = false

-- `malloc` is taken to succeed.
abbrev pub myqueue_push : MyQueue → ℕ → MyQueue
myqueue_push q value = q ++ value ∷ []

-- `none` is the failed `assert` on an empty queue.
abbrev pub myqueue_pop : MyQueue → Option (ℕ × MyQueue)
myqueue_pop [] = none
myqueue_pop (x ∷ q) = some (x, q)

-- A `size_t` handed over as an `int`, and an `int` taken as a `size_t` (with its sign extended).
abbrev pub int_of_size : ℕ → ℕ
int_of_size n = n % 2 ^ 32

abbrev pub size_of_int : ℕ → ℕ
size_of_int v = if ltb v (2 ^ 31) then v else v + (2 ^ 64 - 2 ^ 32)
