-- ===== src/Hive/TailQueue.antt =====
-- exercise11/task3/myqueue.h over the tail queue of sys/queue.h, as the bees of beehive.c see it: a bee
-- pushes under `field_mutex` and another pops under `queue_mutex`, so a push and a pop can meet. An
-- entry is an address from 1 on, and 0 is `NULL`. `malloc` is taken to succeed and not to hand out the
-- address of a freed entry again: a push that writes into a freed entry harms nothing else here. A pop
-- loads the first entry once.
use ps_os.Base.{ℕ, ◌+◌, Bool, ◌==◌, if◌then◌else◌, update}

-- `last` is the entry whose `stqe_next` `stqh_last` points to, or `null` where it points to
-- `stqh_first`.
pub record TailQueue : Type 0 where
  pub value : ℕ → ℕ
  pub next : ℕ → ℕ
  pub first : ℕ
  pub last : ℕ
  pub allocated : ℕ

abbrev pub null : ℕ
null = 0

-- `STAILQ_INIT`
abbrev pub empty_queue : TailQueue
empty_queue = record { value = λ e. 0; next = λ e. null; first = null; last = null; allocated = 0 }

-- `STAILQ_EMPTY`
abbrev pub is_empty : TailQueue → Bool
is_empty q = q.first == null

-- The address that the next `malloc` returns.
abbrev pub new_entry : TailQueue → ℕ
new_entry q = q.allocated + 1

-- `malloc`, the value, and the first assignment of `STAILQ_INSERT_TAIL`, in memory that no other bee
-- knows.
abbrev pub allocate : TailQueue → ℕ → TailQueue
allocate q v = record q {
  value = update q.value (new_entry q) v;
  next = update q.next (new_entry q) null;
  allocated = q.allocated + 1;
}

-- `*stqh_last = entry`, with `stqh_last` as it was loaded.
abbrev pub link : TailQueue → ℕ → ℕ → TailQueue
link q last e =
    if last == null then record q { first = e } else record q { next = update q.next last e }

abbrev pub set_last : TailQueue → ℕ → TailQueue
set_last q e = record q { last = e }

abbrev pub set_first : TailQueue → ℕ → TailQueue
set_first q e = record q { first = e }

-- `myqueue_push` while no other bee is at the queue.
abbrev pub push_alone : TailQueue → ℕ → TailQueue
push_alone q v = set_last (link (allocate q v) q.last (new_entry q)) (new_entry q)
