-- ===== src/Dice/Outcome.antt =====
-- exercise10/task1/task1.c: the barriers, and the end of the game.
use ps_os.Base.{
  ℕ, ◌<◌, ◌≡◌, inl, inr, refl, arith, false, ◌==◌, if◌then◌else◌, sum_below, own, sum_below-const,
  sum_below-congr,
}
use ps_os.Dice.Invariant.{Inv, Settled, Move-Inv, counts}
use ps_os.Dice.{
  Place, check, scanning, second_barrier, deciding, fourth_barrier, ended, Game, Step, player_moves,
  pass_first, pass_second, pass_third, pass_fourth, Reach, start, step,
}

-- The release of a barrier takes all players to the next phase.
placed-number :
    {players : ℕ} {s : Game} (place' : ℕ → Place)
    → Inv players s
    → ((j : ℕ) → j < players → counts false (s.place j) ≡ counts false (place' j))
    → s.n ≡ sum_below own players (λ j. counts (s.loser j) (place' j))
placed-number {players} {s} place' inv same = omega (
  arith,
  inv.number,
  sum_below-congr own players (λ j. counts (s.loser j) (s.place j))
      (λ j. counts (s.loser j) (place' j)) (λ j lj. ground (arith, same j lj)),
)

pass_second-Settled :
    {players : ℕ} (s : Game)
    → Settled players s
    → Settled players (record s { place = λ j. deciding })
pass_second-Settled s (inl stays) = inl stays
pass_second-Settled s (inr (even, none_compares)) = inr (even, λ j lj. refl)

Step-Inv : {players : ℕ} {s t : Game} → Inv players s → Step players s t → Inv players t
Step-Inv inv (player_moves i lt mv) = Move-Inv inv i lt refl mv
Step-Inv {players} {s} inv (pass_first k lk all e) = rw e (record {
  together = λ i j li lj. ground arith;
  number =
      placed-number (λ j. if j == k then scanning else second_barrier) inv
        (λ j lj. ground (arith, all j lj));
  some_left = inv.some_left;
  lost = inv.lost;
  rolled = λ j lj h. inv.rolled j lj (ground (arith, all j lj));
  playing = λ j lj h. absurd (ground arith);
  gone = λ j lj h. absurd (ground arith);
  in_game = λ j lj h. absurd (ground arith);
  highest = λ j lj h. absurd (ground arith);
  settled = λ i li ph. inl (k, lk, ground arith);
})
Step-Inv {players} {s} inv (pass_second all e) = rw e (record {
  together = λ i j li lj. refl;
  number = placed-number (λ j. deciding) inv (λ j lj. ground (arith, all j lj));
  some_left = inv.some_left;
  lost = inv.lost;
  rolled = λ j lj h. absurd (ground arith);
  playing = λ j lj h. absurd (ground arith);
  gone = λ j lj h. absurd (ground arith);
  in_game = λ j lj h. absurd (ground arith);
  highest = λ j lj h. absurd (ground arith);
  settled = λ i li ph. elim (inv.settled i li (inl (ground (arith, all i li)))) [
    | inl (k, lk, scans) ↦ absurd (ground (arith, all k lk))
    | inr settled ↦ inr (pass_second-Settled s settled)
  ];
})
Step-Inv {players} {s} inv (pass_third all e) = rw e (record {
  together = λ i j li lj. refl;
  number = placed-number (λ j. fourth_barrier) inv (λ j lj. ground (arith, all j lj));
  some_left = inv.some_left;
  lost = inv.lost;
  rolled = λ j lj h. absurd (ground arith);
  playing = λ j lj h. absurd (ground arith);
  gone = λ j lj h. absurd (ground arith);
  in_game = λ j lj h. absurd (ground arith);
  highest = λ j lj h. absurd (ground arith);
  settled = λ i li ph. absurd (ground arith);
})
Step-Inv {players} {s} inv (pass_fourth all e) = rw e (record {
  together = λ i j li lj. refl;
  number = placed-number (λ j. check) inv (λ j lj. ground (arith, all j lj));
  some_left = inv.some_left;
  lost = inv.lost;
  rolled = λ j lj h. absurd (ground arith);
  playing = λ j lj h. absurd (ground arith);
  gone = λ j lj h. absurd (ground arith);
  in_game = λ j lj h. absurd (ground arith);
  highest = λ j lj h. absurd (ground arith);
  settled = λ i li ph. absurd (ground arith);
})

pub Reach-Inv : {players : ℕ} {s : Game} → 0 < players → Reach players s → Inv players s
Reach-Inv {players} pos start = record {
  together = λ i j li lj. refl;
  number = omega (arith, sum_below-const own players (λ j. counts false check) 1 (λ j lj. refl));
  some_left = pos;
  lost = λ j lj h. cc;
  rolled = λ j lj h. absurd (ground arith);
  playing = λ j lj h. absurd (ground arith);
  gone = λ j lj h. absurd (ground arith);
  in_game = λ j lj h. refl;
  highest = λ j lj h. absurd (ground arith);
  settled = λ i li ph. absurd (ground arith);
}
Reach-Inv pos (step r st) = Step-Inv (Reach-Inv pos r) st

-- A player prints that it has won if it has not lost.
abbrev pub winners : ℕ → Game → ℕ
winners players s = sum_below own players (λ j. if s.loser j then 0 else 1)

-- When any player has left the loop, `n` is 1 and exactly one of the players has not lost: whatever
-- the rolls and the schedule, the game never ends without a winner or with two.
pub one_winner :
    {players : ℕ} {s : Game}
    → 0 < players
    → Reach players s
    → (i : ℕ) → i < players
    → s.place i ≡ ended
    → (s.n ≡ 1) × (winners players s ≡ 1)
one_winner {players} {s} pos r i li at =
    let inv = Reach-Inv pos r in
    let same =
      sum_below-congr own players (λ j. counts (s.loser j) (s.place j))
        (λ j. if s.loser j then 0 else 1) (λ j lj. ground (arith, inv.together i j li lj)) in
    (
      omega (arith, inv.some_left, inv.gone i li at),
      omega (arith, inv.some_left, inv.gone i li at, inv.number, same),
    )
