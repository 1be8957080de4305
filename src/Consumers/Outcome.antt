-- ===== src/Consumers/Outcome.antt =====
-- exercise06/task3/task3.c: the sum that `main` prints, and the consumers that it joins.
use ps_os.Base.{
  ℕ, suc, ◌+◌, ◌%◌, ◌^◌, ◌≤◌, ◌<◌, ◌≡◌, ◌≢◌, refl, arith, false, [], update, sum_below, own,
  sum_below-update, sum_below-update_beyond, sum_below-const, sum_below-le, dec_lt,
}
use ps_os.MyQueue.{myqueue_is_empty, size_of_int}
use ps_os.Consumers.Moves.{premises, main_premises}
use ps_os.Consumers.Marks.{some_end, emptied}
use ps_os.Consumers.Totals.{in_hand, ends_in_hand, Totals, Reach-Totals}
use ps_os.Consumers.{
  Config, Place, waiting, woken, ended, MainPlace, joining, State, go, Move, wait, add, MainMove,
  broadcast, join, consumer_runs, main_runs, Step, run, spurious, Reach, start, step,
}

-- From the broadcast on no consumer waits; those that `main` has joined have ended, and their sums
-- are in the total.
pub record Joined (c : Config) (s : State) : Type 0 where
  pub awake : (i total j : ℕ) → s.main ≡ joining i total → j < c.consumers → s.place j ≢ waiting
  pub gone : (i total j : ℕ) → s.main ≡ joining i total → j < i → s.place j ≡ ended
  pub total_of : (i total : ℕ) → s.main ≡ joining i total → total ≡ sum_below own i s.sum % 2 ^ 32

ends_in_hand-le : (p : Place) → ends_in_hand p ≤ 1
ends_in_hand-le p = ground arith

-- While some consumer has not taken an end mark and all have been pushed, one is in the queue.
end_queued :
    {c : Config} {s : State} (i i' total : ℕ)
    → Totals c s
    → s.main ≡ joining i' total
    → i < c.consumers
    → ends_in_hand (s.place i) ≡ 0
    → myqueue_is_empty (s.queue) ≡ false
end_queued {c} {s} i i' total totals at lt none_yet = some_end (s.queue) (
    ground (
      arith,
      totals.ends,
      sum_below-update ends_in_hand c.consumers i s.place ended lt,
      sum_below-le ends_in_hand 1 c.consumers (update s.place i ended)
          (λ j lj. ends_in_hand-le (update s.place i ended j)),
    ))

module _ {c : Config} {s : State} (totals : Totals c s) (inv : Joined c s) (i : ℕ)
    (lt : i < c.consumers) where
  Move-Joined : {p : Place} {t : State} → s.place i ≡ p → Move s i p t → Joined c t
  Move-Joined at (wait e0 e1 e2) = record {
    awake = λ i' total j m lj. ground (
      arith,
      inv.awake i' total j,
      end_queued i i' total totals (ground arith) lt (ground arith),
    );
    gone = λ i' total j m lj. ground (arith, inv.gone i' total j);
    total_of = λ i' total m. ground (arith, inv.total_of i' total);
  }
  Move-Joined at (add v e0 e1 e2) = record {
    awake = λ i' total j m lj. ground (arith, inv.awake i' total j);
    gone = λ i' total j m lj. ground (arith, inv.gone i' total j);
    total_of = λ i' total m. elim (dec_lt i i') [
      | yes before ↦ absurd (ground (arith, inv.gone i' total i))
      | no beyond ↦ ground (
        arith,
        inv.total_of i' total,
        sum_below-update_beyond own i' i s.sum ((s.sum i + size_of_int v) % 2 ^ 64) (omega arith),
      )
    ];
  }
  Move-Joined at mv = record {
    awake = λ i' total j m lj. ground (arith, premises mv, inv.awake i' total j);
    gone = λ i' total j m lj. ground (arith, premises mv, inv.gone i' total j);
    total_of = λ i' total m. ground (arith, premises mv, inv.total_of i' total);
  }

  woken-Joined : {t : State} → s.place i ≡ waiting → t ≡ go s i woken → Joined c t
  woken-Joined at e = record {
    awake = λ i' total j m lj. ground (arith, inv.awake i' total j);
    gone = λ i' total j m lj. ground (arith, inv.gone i' total j);
    total_of = λ i' total m. ground (arith, inv.total_of i' total);
  }

MainMove-Joined :
    {c : Config} {s t : State} {m : MainPlace}
    → Joined c s
    → s.main ≡ m
    → MainMove c s m t
    → Joined c t
unfolding sum_below
MainMove-Joined {s} inv at (broadcast e0 e1) = record {
  awake = λ i' total j m lj. ground arith;
  gone = λ i' total j m lj. absurd (ground arith);
  total_of =
      λ i' total m. let none_yet : sum_below own 0 s.sum ≡ 0 = refl in ground (arith, none_yet);
}
MainMove-Joined {s} inv at (join i total e0 lt e2 e3) = record {
  awake = λ i' total' j m lj. ground (arith, inv.awake i total j);
  gone = λ i' total' j m lj. ground (arith, inv.gone i total j);
  total_of = λ i' total' m.
      let one_more : sum_below own (suc i) s.sum ≡ s.sum i + sum_below own i s.sum = refl in
      ground (arith, one_more, inv.total_of i total);
}
MainMove-Joined {s} inv at mv = record {
  awake = λ i' total j m lj. absurd (ground (arith, main_premises mv));
  gone = λ i' total j m lj. absurd (ground (arith, main_premises mv));
  total_of = λ i' total m. absurd (ground (arith, main_premises mv));
}

Step-Joined : {c : Config} {s t : State} → Totals c s → Joined c s → Step c s t → Joined c t
Step-Joined totals inv (run (consumer_runs i lt mv)) = Move-Joined totals inv i lt refl mv
Step-Joined totals inv (run (main_runs mv)) = MainMove-Joined inv refl mv
Step-Joined totals inv (spurious i lt at e) = woken-Joined totals inv i lt at e

pub Reach-Joined : {c : Config} {s : State} → Reach c s → Joined c s
Reach-Joined start = record {
  awake = λ i total j m lj. cc;
  gone = λ i total j m lj. cc;
  total_of = λ i total m. cc;
}
Reach-Joined (step r st) = Step-Joined (Reach-Totals r) (Reach-Joined r) st

-- When `main` has joined all consumers, each has ended, no number is left in the queue, and the sum
-- that is printed is that of the numbers pushed: 1 for an odd number of elements, 0 for an even one.
pub final_sum :
    {c : Config} {s : State} (total : ℕ)
    → 0 < c.consumers
    → Reach c s
    → s.main ≡ joining (c.consumers) total
    → (total ≡ c.elements % 2) × (s.queue ≡ []) × ((j : ℕ) → j < c.consumers → s.place j ≡ ended)
final_sum {c} {s} total pos r at =
    let totals = Reach-Totals r in
    let all_ended : (j : ℕ) → j < c.consumers → s.place j ≡ ended =
      λ j lj. (Reach-Joined r).gone c.consumers total j at lj in
    let hands =
      sum_below-const in_hand c.consumers s.place 0 (λ j lj. ground (arith, all_ended j lj)) in
    let ends =
      sum_below-const ends_in_hand c.consumers s.place 1 (λ j lj. ground (arith, all_ended j lj)) in
    let empty =
      emptied (s.queue) (ground (arith, totals.ends, ends)) (ground (arith, totals.order)) in
    (
      ground (arith, totals.numbers, hands, empty, (Reach-Joined r).total_of c.consumers total),
      empty,
      all_ended,
    )
