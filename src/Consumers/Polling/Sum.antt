-- ===== src/Consumers/Polling/Sum.antt =====
-- exercise06/task2/task2.c: the sum that `main` prints.
use ps_os.Base.{
  ℕ, suc, ◌+◌, ◌%◌, ◌^◌, ◌≤◌, ◌<◌, ◌≡◌, ◌⊎◌, inl, refl, arith, true, [], own, sum_below,
  sum_below-update, sum_below-update_beyond, sum_below-const, dec_lt,
}
use ps_os.MyQueue.{size_of_int}
use ps_os.Consumers.{Config, int_max, num}
use ps_os.Consumers.Marks.{
  worth, is_end, queue_worth, queue_ends, closed, pop-parts, push-parts, push-closed, emptied,
}
use ps_os.Consumers.Polling.{
  Place, taking, deciding, ended, MainPlace, push_value, push_end, joining, State, init, Move,
  see_entry, pop, find_none, end_loop, add, MainMove, push_number, values_done, push_int_max,
  ends_done, join, consumer_runs, main_runs, Reach, start, step,
}

-- What a consumer carries, and the end mark that it carries or has ended with.
abbrev in_hand : Place → ℕ
in_hand (deciding v) = worth v
in_hand _ = 0

abbrev ends_in_hand : Place → ℕ
ends_in_hand (deciding v) = is_end v
ends_in_hand ended = 1
ends_in_hand _ = 0

abbrev numbers_pushed : Config → MainPlace → ℕ
numbers_pushed c (push_value i) = i
numbers_pushed c _ = c.elements

abbrev ends_pushed : Config → MainPlace → ℕ
ends_pushed c (push_value i) = 0
ends_pushed c (push_end i) = i
ends_pushed c (joining i total) = c.consumers

abbrev InBounds : Config → MainPlace → Type 0
InBounds c (push_value i) = i ≤ c.elements
InBounds c (push_end i) = i ≤ c.consumers
InBounds c (joining i total) = i ≤ c.consumers

record Totals (c : Config) (s : State) : Type 0 where
  bounded : InBounds c (s.main)
  numbers :
      (queue_worth (s.queue)
          + sum_below in_hand (c.consumers) s.place
          + sum_below own (c.consumers) s.sum)
        % 2 ^ 64
      ≡ numbers_pushed c (s.main) % 2
  ends :
      queue_ends (s.queue) + sum_below ends_in_hand (c.consumers) s.place ≡ ends_pushed c (s.main)
  order : (ends_pushed c (s.main) ≡ 0) ⊎ (closed (s.queue) ≡ true)
  gone : (i total j : ℕ) → s.main ≡ joining i total → j < i → s.place j ≡ ended
  total_of : (i total : ℕ) → s.main ≡ joining i total → total ≡ sum_below own i s.sum % 2 ^ 32

module _ {c : Config} {s t : State} (inv : Totals c s) where
  Move-Totals : (j : ℕ) → j < c.consumers → Move s j (s.place j) t → Totals c t
  Move-Totals j lt (see_entry at e0 e) = record {
    bounded = ground (arith, inv.bounded);
    numbers = ground (arith, inv.numbers, sum_below-update in_hand c.consumers j s.place taking lt);
    ends = ground (arith, inv.ends, sum_below-update ends_in_hand c.consumers j s.place taking lt);
    order = ground (arith, inv.order);
    gone = λ i total k m lk. ground (arith, inv.gone i total k);
    total_of = λ i total m. ground (arith, inv.total_of i total);
  }
  Move-Totals j lt (pop v rest at e0 e) = record {
    bounded = ground (arith, inv.bounded);
    numbers = ground (
      arith,
      inv.numbers,
      sum_below-update in_hand c.consumers j s.place (deciding v) lt,
      pop-parts s.queue v rest e0,
    );
    ends = ground (
      arith,
      inv.ends,
      sum_below-update ends_in_hand c.consumers j s.place (deciding v) lt,
      pop-parts s.queue v rest e0,
    );
    order = ground (arith, inv.order, pop-parts s.queue v rest e0);
    gone = λ i total k m lk. ground (arith, inv.gone i total k);
    total_of = λ i total m. ground (arith, inv.total_of i total);
  }
  Move-Totals j lt (find_none at e0 e) = record {
    bounded = ground (arith, inv.bounded);
    numbers =
        ground (arith, inv.numbers, sum_below-update in_hand c.consumers j s.place (deciding 0) lt);
    ends =
        ground
          (arith, inv.ends, sum_below-update ends_in_hand c.consumers j s.place (deciding 0) lt);
    order = ground (arith, inv.order);
    gone = λ i total k m lk. ground (arith, inv.gone i total k);
    total_of = λ i total m. ground (arith, inv.total_of i total);
  }
  Move-Totals j lt (end_loop v at e0 e) = record {
    bounded = ground (arith, inv.bounded);
    numbers = ground (arith, inv.numbers, sum_below-update in_hand c.consumers j s.place ended lt);
    ends = ground (arith, inv.ends, sum_below-update ends_in_hand c.consumers j s.place ended lt);
    order = ground (arith, inv.order);
    gone = λ i total k m lk. ground (arith, inv.gone i total k);
    total_of = λ i total m. ground (arith, inv.total_of i total);
  }
  Move-Totals j lt (add v at e0 e) = record {
    bounded = ground (arith, inv.bounded);
    numbers = ground (
      arith,
      inv.numbers,
      sum_below-update in_hand c.consumers j s.place taking lt,
      sum_below-update own c.consumers j s.sum ((s.sum j + size_of_int v) % 2 ^ 64) lt,
    );
    ends = ground (arith, inv.ends, sum_below-update ends_in_hand c.consumers j s.place taking lt);
    order = ground (arith, inv.order);
    gone = λ i total k m lk. ground (arith, inv.gone i total k);
    total_of = λ i total m. elim (dec_lt j i) [
      | yes before ↦ absurd (ground (arith, inv.gone i total j))
      | no beyond ↦ ground (
        arith,
        inv.total_of i total,
        sum_below-update_beyond own i j s.sum ((s.sum j + size_of_int v) % 2 ^ 64) (omega arith),
      )
    ];
  }

  MainMove-Totals : MainMove c s (s.main) t → Totals c t
  unfolding sum_below
  MainMove-Totals (push_number i at lt e) = record {
    bounded = ground arith;
    numbers = ground (arith, inv.numbers, push-parts s.queue (num i));
    ends = ground (arith, inv.ends, push-parts s.queue (num i));
    order = inl (ground arith);
    gone = λ i total k m lk. absurd (ground arith);
    total_of = λ i total m. absurd (ground arith);
  }
  MainMove-Totals (values_done i at le e) = record {
    bounded = ground arith;
    numbers = ground (arith, inv.numbers, inv.bounded);
    ends = ground (arith, inv.ends);
    order = inl (ground arith);
    gone = λ i total k m lk. absurd (ground arith);
    total_of = λ i total m. absurd (ground arith);
  }
  MainMove-Totals (push_int_max i at lt e) = record {
    bounded = ground arith;
    numbers = ground (arith, inv.numbers, push-parts s.queue int_max);
    ends = ground (arith, inv.ends, push-parts s.queue int_max);
    order = ground (arith, push-closed s.queue);
    gone = λ i total k m lk. absurd (ground arith);
    total_of = λ i total m. absurd (ground arith);
  }
  MainMove-Totals (ends_done i at le e) = record {
    bounded = ground arith;
    numbers = ground (arith, inv.numbers);
    ends = ground (arith, inv.ends, inv.bounded);
    order = ground (arith, inv.order, inv.bounded);
    gone = λ i total k m lk. absurd (ground arith);
    total_of =
        λ i total m. let none_yet : sum_below own 0 s.sum ≡ 0 = refl in ground (arith, none_yet);
  }
  MainMove-Totals (join i total at lt over e) = record {
    bounded = ground arith;
    numbers = ground (arith, inv.numbers);
    ends = ground (arith, inv.ends);
    order = ground (arith, inv.order);
    gone = λ i' total' k m lk. ground (arith, inv.gone i total k);
    total_of = λ i' total' m.
        let one_more : sum_below own (suc i) s.sum ≡ s.sum i + sum_below own i s.sum = refl in
        ground (arith, one_more, inv.total_of i total);
  }

Reach-Totals : {c : Config} {s : State} → Reach c s → Totals c s
Reach-Totals {c} start = record {
  bounded = omega arith;
  numbers = omega (
    arith,
    sum_below-const in_hand c.consumers (init.place) 0 (λ j lj. refl),
    sum_below-const own c.consumers (init.sum) 0 (λ j lj. refl),
  );
  ends = omega (arith, sum_below-const ends_in_hand c.consumers (init.place) 0 (λ j lj. refl));
  order = inl refl;
  gone = λ i total j m lj. cc;
  total_of = λ i total m. cc;
}
Reach-Totals (step r (consumer_runs j lt mv)) = Move-Totals (Reach-Totals r) j lt mv
Reach-Totals (step r (main_runs mv)) = MainMove-Totals (Reach-Totals r) mv

-- When `main` has joined all consumers, of which there is at least one, each has ended, the queue is
-- empty, and the sum that is printed is 1 for an odd number of elements and 0 for an even one,
-- whatever the consumers saw of the queue while they polled.
pub polled_sum :
    {c : Config} {s : State} (total : ℕ)
    → 0 < c.consumers
    → Reach c s
    → s.main ≡ joining (c.consumers) total
    → (total ≡ c.elements % 2) × (s.queue ≡ []) × ((j : ℕ) → j < c.consumers → s.place j ≡ ended)
polled_sum {c} {s} total pos r at =
    let inv = Reach-Totals r in
    let all_ended : (j : ℕ) → j < c.consumers → s.place j ≡ ended =
      λ j lj. inv.gone c.consumers total j at lj in
    let hands =
      sum_below-const in_hand c.consumers s.place 0 (λ j lj. ground (arith, all_ended j lj)) in
    let ends =
      sum_below-const ends_in_hand c.consumers s.place 1 (λ j lj. ground (arith, all_ended j lj)) in
    let empty = emptied (s.queue) (ground (arith, inv.ends, ends)) (ground (arith, inv.order)) in
    (ground (arith, inv.numbers, hands, empty, inv.total_of c.consumers total at), empty, all_ended)
