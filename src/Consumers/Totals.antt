-- ===== src/Consumers/Totals.antt =====
-- exercise06/task3/task3.c: where the numbers and the end marks are that `main` has pushed.
use ps_os.Base.{
  ℕ, ◌+◌, ◌%◌, ◌^◌, ◌≤◌, ◌<◌, ◌≡◌, ◌⊎◌, inl, refl, arith, true, update, sum_below, sum_below-update,
  own, sum_below-congr, sum_below-const,
}
use ps_os.MyQueue.{size_of_int}
use ps_os.Consumers.Moves.{premises, main_premises}
use ps_os.Consumers.Marks.{
  worth, is_end, queue_worth, queue_ends, closed, pop-parts, push-parts, push-closed,
}
use ps_os.Consumers.{
  Config, int_max, num, Place, lock_mutex, waiting, woken, unlocking, deciding, ended, MainPlace,
  lock_value, push_value, signal_value, unlock_value, lock_end, push_end, signal_end, unlock_end,
  broadcasting, joining, State, init, go, wake, Move, pop, add, MainMove, push_number, push_int_max,
  signal_one, broadcast, consumer_runs, main_runs, Step, run, spurious, Reach, start, step,
}

-- What a consumer carries.
abbrev pub in_hand : Place → ℕ
in_hand (unlocking v) = worth v
in_hand (deciding v) = worth v
in_hand _ = 0

-- The end marks that a consumer carries or has ended with.
abbrev pub ends_in_hand : Place → ℕ
ends_in_hand (unlocking v) = is_end v
ends_in_hand (deciding v) = is_end v
ends_in_hand ended = 1
ends_in_hand _ = 0

-- How many numbers and how many end marks `main` has pushed.
abbrev pub numbers_pushed : Config → MainPlace → ℕ
numbers_pushed c (lock_value i) = i
numbers_pushed c (push_value i) = i
numbers_pushed c (signal_value i) = i + 1
numbers_pushed c (unlock_value i) = i + 1
numbers_pushed c _ = c.elements

abbrev pub ends_pushed : Config → MainPlace → ℕ
ends_pushed c (lock_end i) = i
ends_pushed c (push_end i) = i
ends_pushed c (signal_end i) = i + 1
ends_pushed c (unlock_end i) = i + 1
ends_pushed c broadcasting = c.consumers
ends_pushed c (joining i total) = c.consumers
ends_pushed c _ = 0

abbrev pub InBounds : Config → MainPlace → Type 0
InBounds c (lock_value i) = i ≤ c.elements
InBounds c (push_value i) = i < c.elements
InBounds c (signal_value i) = i < c.elements
InBounds c (unlock_value i) = i < c.elements
InBounds c (lock_end i) = i ≤ c.consumers
InBounds c (push_end i) = i < c.consumers
InBounds c (signal_end i) = i < c.consumers
InBounds c (unlock_end i) = i < c.consumers
InBounds c broadcasting = Unit
InBounds c (joining i total) = i ≤ c.consumers

-- The numbers are 1 and -1 in turn, so that those pushed add up to 1 or 0.
pub record Totals (c : Config) (s : State) : Type 0 where
  pub bounded : InBounds c (s.main)
  pub numbers :
      (queue_worth (s.queue)
          + sum_below in_hand (c.consumers) s.place
          + sum_below own (c.consumers) s.sum)
        % 2 ^ 64
      ≡ numbers_pushed c (s.main) % 2
  pub ends :
      queue_ends (s.queue) + sum_below ends_in_hand (c.consumers) s.place ≡ ends_pushed c (s.main)
  pub order : (ends_pushed c (s.main) ≡ 0) ⊎ (closed (s.queue) ≡ true)

module _ {c : Config} {s : State} (inv : Totals c s) (i : ℕ) (lt : i < c.consumers) where
  hands :
      (p : Place)
      → sum_below in_hand c.consumers (update s.place i p) + in_hand (s.place i)
        ≡ sum_below in_hand c.consumers s.place + in_hand p
  hands p = sum_below-update in_hand c.consumers i s.place p lt

  ends_of :
      (p : Place)
      → sum_below ends_in_hand c.consumers (update s.place i p) + ends_in_hand (s.place i)
        ≡ sum_below ends_in_hand c.consumers s.place + ends_in_hand p
  ends_of p = sum_below-update ends_in_hand c.consumers i s.place p lt

  sums :
      (x : ℕ)
      → sum_below own c.consumers (update s.sum i x) + s.sum i ≡ sum_below own c.consumers s.sum + x
  sums x = sum_below-update own c.consumers i s.sum x lt

  Move-Totals : {p : Place} {t : State} → s.place i ≡ p → Move s i p t → Totals c t
  Move-Totals at (pop v rest e0 e1 e2) =
      let parts = pop-parts (s.queue) v rest e1 in
      record {
        bounded = ground (arith, inv.bounded);
        numbers = ground (arith, inv.numbers, hands (unlocking v), parts);
        ends = ground (arith, inv.ends, ends_of (unlocking v), parts);
        order = ground (arith, inv.order, parts);
      }
  Move-Totals at (add v e0 e1 e2) = record {
    bounded = ground (arith, inv.bounded);
    numbers =
        ground (arith, inv.numbers, hands lock_mutex, sums ((s.sum i + size_of_int v) % 2 ^ 64));
    ends = ground (arith, inv.ends, ends_of lock_mutex);
    order = ground (arith, inv.order);
  }
  Move-Totals at mv = record {
    bounded = ground (arith, premises mv, inv.bounded);
    numbers = grind (arith, premises mv, inv.numbers, hands);
    ends = grind (arith, premises mv, inv.ends, ends_of);
    order = ground (arith, premises mv, inv.order);
  }

  woken-Totals : {t : State} → s.place i ≡ waiting → t ≡ go s i woken → Totals c t
  woken-Totals at e = record {
    bounded = ground (arith, inv.bounded);
    numbers = ground (arith, inv.numbers, hands woken);
    ends = ground (arith, inv.ends, ends_of woken);
    order = ground (arith, inv.order);
  }

wake-in_hand :
    (p : Place) → (in_hand (wake p) ≡ in_hand p) × (ends_in_hand (wake p) ≡ ends_in_hand p)
wake-in_hand p = ground arith

MainMove-Totals :
    {c : Config} {s t : State} {m : MainPlace}
    → Totals c s
    → s.main ≡ m
    → MainMove c s m t
    → Totals c t
MainMove-Totals {c} {s} inv at (signal_one m' j e0 lt e2 e3) = record {
  bounded = ground (arith, inv.bounded);
  numbers = ground (arith, inv.numbers, hands inv j lt woken);
  ends = ground (arith, inv.ends, ends_of inv j lt woken);
  order = ground (arith, inv.order);
}
MainMove-Totals {c} {s} inv at (broadcast e0 e1) = record {
  bounded = ground (arith, inv.bounded);
  numbers = ground (
    arith,
    inv.numbers,
    sum_below-congr in_hand c.consumers (λ j. wake (s.place j)) s.place
        (λ j lj. (wake-in_hand (s.place j)).0),
  );
  ends = ground (
    arith,
    inv.ends,
    sum_below-congr ends_in_hand c.consumers (λ j. wake (s.place j)) s.place
        (λ j lj. (wake-in_hand (s.place j)).1),
  );
  order = ground (arith, inv.order);
}
MainMove-Totals {s} inv at (push_number i e0 e1) = record {
  bounded = ground (arith, inv.bounded);
  numbers = ground (arith, inv.numbers, push-parts (s.queue) (num i));
  ends = ground (arith, inv.ends, push-parts (s.queue) (num i));
  order = ground (arith, inv.order);
}
MainMove-Totals {s} inv at (push_int_max i e0 e1) = record {
  bounded = ground (arith, inv.bounded);
  numbers = ground (arith, inv.numbers, push-parts (s.queue) int_max);
  ends = ground (arith, inv.ends, push-parts (s.queue) int_max);
  order = ground (arith, push-closed (s.queue));
}
MainMove-Totals inv at mv = record {
  bounded = ground (arith, main_premises mv, inv.bounded);
  numbers = ground (arith, main_premises mv, inv.numbers, inv.bounded);
  ends = ground (arith, main_premises mv, inv.ends, inv.bounded);
  order = ground (arith, main_premises mv, inv.order, inv.bounded);
}

Step-Totals : {c : Config} {s t : State} → Totals c s → Step c s t → Totals c t
Step-Totals inv (run (consumer_runs i lt mv)) = Move-Totals inv i lt refl mv
Step-Totals inv (run (main_runs mv)) = MainMove-Totals inv refl mv
Step-Totals inv (spurious i lt at e) = woken-Totals inv i lt at e

pub Reach-Totals : {c : Config} {s : State} → Reach c s → Totals c s
Reach-Totals {c} start = record {
  bounded = omega arith;
  numbers = omega (
    arith,
    sum_below-const in_hand c.consumers (init.place) 0 (λ j lj. refl),
    sum_below-const own c.consumers (init.sum) 0 (λ j lj. refl),
  );
  ends = omega (arith, sum_below-const ends_in_hand c.consumers (init.place) 0 (λ j lj. refl));
  order = inl refl;
}
Reach-Totals (step r st) = Step-Totals (Reach-Totals r) st
