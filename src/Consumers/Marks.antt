-- ===== src/Consumers/Marks.antt =====
-- exercise06/task3/task3.c: the numbers and the end marks in the queue.
use ps_os.Base.{
  ℕ, ◌+◌, ◌≡◌, ◌≢◌, ◌⊎◌, refl, arith, Bool, true, false, some, [], ◌∷◌, ◌==◌, if◌then◌else◌,
}
use ps_os.MyQueue.{MyQueue, myqueue_is_empty, myqueue_push, myqueue_pop, size_of_int}
use ps_os.Consumers.{int_max}

-- What a number in the queue adds to some sum, as a `long`; the end mark adds nothing.
abbrev pub worth : ℕ → ℕ
worth v = if v == int_max then 0 else size_of_int v

abbrev pub is_end : ℕ → ℕ
is_end v = if v == int_max then 1 else 0

abbrev pub queue_worth : MyQueue → ℕ
queue_worth [] = 0
queue_worth (v ∷ q) = worth v + queue_worth q

abbrev pub queue_ends : MyQueue → ℕ
queue_ends [] = 0
queue_ends (v ∷ q) = is_end v + queue_ends q

-- Nothing stands behind the last end mark.
abbrev pub closed : MyQueue → Bool
closed [] = true
closed (v ∷ []) = v == int_max
closed (v ∷ (w ∷ q)) = closed (w ∷ q)

pub pop-parts :
    (q : MyQueue) (v : ℕ) (rest : MyQueue)
    → myqueue_pop q ≡ some (v, rest)
    → (queue_worth q ≡ worth v + queue_worth rest)
      × (queue_ends q ≡ is_end v + queue_ends rest)
      × ((closed q ≡ false) ⊎ (closed rest ≡ true))
pop-parts [] v rest e = cc
pop-parts (x ∷ []) v rest e = ground arith
pop-parts (x ∷ (y ∷ q)) v rest e = ground arith

pub push-parts :
    (q : MyQueue) (v : ℕ)
    → (queue_worth (myqueue_push q v) ≡ queue_worth q + worth v)
      × (queue_ends (myqueue_push q v) ≡ queue_ends q + is_end v)
push-parts [] v = ground arith
push-parts (x ∷ q) v = omega (arith, push-parts q v)

pub push-closed : (q : MyQueue) → closed (myqueue_push q int_max) ≡ true
push-closed [] = refl
push-closed (x ∷ []) = refl
push-closed (x ∷ (y ∷ q)) = push-closed (y ∷ q)

pub some_end : (q : MyQueue) → queue_ends q ≢ 0 → myqueue_is_empty q ≡ false
some_end [] h = absurd (h refl)
some_end (v ∷ q) h = refl

-- A queue without end marks at whose end one stands.
pub emptied : (q : MyQueue) → queue_ends q ≡ 0 → closed q ≡ true → q ≡ []
emptied [] h e = refl
emptied (v ∷ []) h e = absurd (ground arith)
emptied (v ∷ (w ∷ q)) h e = absurd (ground (arith, emptied (w ∷ q)))
