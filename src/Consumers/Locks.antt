-- ===== src/Consumers/Locks.antt =====
-- exercise06/task3/task3.c: who holds the mutex.
use ps_os.Base.{ℕ, ◌<◌, ◌≡◌, ◌≢◌, refl, arith, Bool, true, false, none, some, [], ◌∷◌}
use ps_os.MyQueue.{MyQueue, myqueue_is_empty, myqueue_push, myqueue_pop}
use ps_os.Consumers.Moves.{premises, main_premises}
use ps_os.Consumers.{
  Config, Place, testing, waiting, woken, popping, unlocking, MainPlace, push_value, signal_value,
  unlock_value, push_end, signal_end, unlock_end, producer, consumer, State, go, wake, Move,
  MainMove, consumer_runs, main_runs, Step, run, spurious, Reach, start, step,
}

abbrev pub holds : Place → Bool
holds testing = true
holds popping = true
holds (unlocking v) = true
holds _ = false

abbrev pub main_holds : MainPlace → Bool
main_holds (push_value i) = true
main_holds (signal_value i) = true
main_holds (unlock_value i) = true
main_holds (push_end i) = true
main_holds (signal_end i) = true
main_holds (unlock_end i) = true
main_holds _ = false

abbrev pub is_popping : Place → Bool
is_popping popping = true
is_popping _ = false

-- The mutex is owned by the one thread between lock and unlock, and a consumer that has seen an
-- entry can rely on it.
pub record Locks (c : Config) (s : State) : Type 0 where
  pub held : (j : ℕ) → j < c.consumers → holds (s.place j) ≡ true → s.mutex ≡ some (consumer j)
  pub main_held : main_holds (s.main) ≡ true → s.mutex ≡ some producer
  pub owner : (j : ℕ) → s.mutex ≡ some (consumer j) → (j < c.consumers) × (holds (s.place j) ≡ true)
  pub main_owner : s.mutex ≡ some producer → main_holds (s.main) ≡ true
  pub filled :
      (j : ℕ) → j < c.consumers → is_popping (s.place j) ≡ true → myqueue_is_empty (s.queue) ≡ false

push-filled : (q : MyQueue) (v : ℕ) → myqueue_is_empty (myqueue_push q v) ≡ false
push-filled [] v = refl
push-filled (x ∷ q) v = refl

wake_holds : (p : Place) → (holds (wake p) ≡ holds p) × (is_popping (wake p) ≡ is_popping p)
wake_holds p = ground arith

module _ {c : Config} {s : State} (inv : Locks c s) (i : ℕ) (lt : i < c.consumers) where
  Move-Locks : {p : Place} {t : State} → s.place i ≡ p → Move s i p t → Locks c t
  Move-Locks at mv = record {
    held = λ j lj h. ground (arith, premises mv, inv.held j lj, inv.held i lt);
    main_held = λ h. ground (arith, premises mv, inv.main_held, inv.held i lt);
    owner = λ j h. ground (arith, premises mv, inv.owner j, inv.held i lt);
    main_owner = λ h. ground (arith, premises mv, inv.main_owner, inv.held i lt);
    filled = λ j lj h. ground (arith, premises mv, inv.filled j lj, inv.held j lj, inv.held i lt);
  }

  woken-Locks : {t : State} → s.place i ≡ waiting → t ≡ go s i woken → Locks c t
  woken-Locks at e = record {
    held = λ j lj h. ground (arith, inv.held j lj);
    main_held = λ h. ground (arith, inv.main_held);
    owner = λ j h. ground (arith, inv.owner j);
    main_owner = λ h. ground (arith, inv.main_owner);
    filled = λ j lj h. ground (arith, inv.filled j lj);
  }

MainMove-Locks :
    {c : Config} {s t : State} {m : MainPlace}
    → Locks c s
    → s.main ≡ m
    → MainMove c s m t
    → Locks c t
MainMove-Locks {s} inv at mv = record {
  held = λ j lj h.
      ground (arith, main_premises mv, inv.held j lj, inv.main_held, wake_holds (s.place j));
  main_held = λ h. ground (arith, main_premises mv, inv.main_held);
  owner =
      λ j h. ground (arith, main_premises mv, inv.owner j, inv.main_held, wake_holds (s.place j));
  main_owner = λ h. ground (arith, main_premises mv, inv.main_owner, inv.main_held);
  filled = λ j lj h. ground (
    arith,
    main_premises mv,
    inv.filled j lj,
    inv.held j lj,
    inv.main_held,
    wake_holds (s.place j),
    push-filled (s.queue),
  );
}

Step-Locks : {c : Config} {s t : State} → Locks c s → Step c s t → Locks c t
Step-Locks inv (run (consumer_runs i lt mv)) = Move-Locks inv i lt refl mv
Step-Locks inv (run (main_runs mv)) = MainMove-Locks inv refl mv
Step-Locks inv (spurious i lt at e) = woken-Locks inv i lt at e

pub Reach-Locks : {c : Config} {s : State} → Reach c s → Locks c s
Reach-Locks start = record {
  held = λ j lj h. cc;
  main_held = λ h. cc;
  owner = λ j h. cc;
  main_owner = λ h. cc;
  filled = λ j lj h. cc;
}
Reach-Locks (step r st) = Step-Locks (Reach-Locks r) st

-- In every reachable state at most one consumer is between the lock of the mutex and its unlock, and
-- if `main` is, none; and a consumer that is about to pop finds an entry.
pub consumers_exclude :
    {c : Config} {s : State}
    → Reach c s
    → (i : ℕ) → i < c.consumers
    → holds (s.place i) ≡ true
    → (main_holds (s.main) ≡ false)
      × ((j : ℕ) → j < c.consumers → holds (s.place j) ≡ true → i ≡ j)
      × ((s.place i ≡ popping) → myqueue_pop (s.queue) ≢ none)
consumers_exclude {s} r i li hi =
    let inv = Reach-Locks r in
    (
      ground (arith, inv.held i li, inv.main_held),
      λ j lj hj. ground (arith, inv.held i li, inv.held j lj),
      λ at. pop-none (s.queue) (inv.filled i li (ground arith)),
    )
  where
    pop-none : (q : MyQueue) → myqueue_is_empty q ≡ false → myqueue_pop q ≢ none
    pop-none [] h = cc
    pop-none (v ∷ rest) h = ground arith
