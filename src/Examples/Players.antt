-- ===== src/Examples/Players.antt =====
-- exercise10/task1: two players, of whom one rolls higher and leaves.
use ps_os.Base.{ℕ, zero, suc, ◌<◌, ◌≡◌, refl, arith, ℕ_discrete}
use ps_os.Dice.Outcome.{winners, one_winner}
use ps_os.Dice.{
  Game, init, scan, Move, leave, play, roll, scan_rolls, look_at_roll, stay, lose, take_off, clear,
  Step, player_moves, pass_first, pass_second, pass_third, pass_fourth, Reach, start, step,
}

abbrev Trace : Type 0
Trace = (s : Game) × Reach 2 s

abbrev moves : (r : Trace) (j : ℕ) → j < 2 → {t : Game} → Move 2 r.0 j (r.0.place j) t → Trace
moves r j lt {t} mv = (t, step r.1 (player_moves j lt mv))

abbrev steps : (r : Trace) {t : Game} → Step 2 r.0 t → Trace
steps r {t} st = (t, step r.1 st)

two : (P : ℕ → Type 0) → P 0 → P 1 → (j : ℕ) → j < 2 → P j
two P a b zero lt = a
two P a b (suc zero) lt = b
two P a b (suc (suc j)) lt = absurd (omega arith)

rolled_and_scanned : Trace
unfolding ℕ_discrete scan
rolled_and_scanned =
    let r0 : Trace = (init 2, start) in
    let r1 = moves r0 0 (omega arith) (play refl (omega arith) refl refl) in
    let r2 = moves r1 0 (omega arith) (roll 0 refl refl) in
    let r3 = moves r2 1 (omega arith) (play refl (omega arith) refl refl) in
    let r4 = moves r3 1 (omega arith) (roll 7 refl refl) in
    let r5 = steps r4 (pass_first 1 (omega arith) (two _ refl refl) refl) in
    let r6 = moves r5 1 (omega arith) (scan_rolls 2 1 refl refl refl) in
    steps r6 (pass_second (two _ refl refl) refl)

both_decided : Trace
unfolding rolled_and_scanned
both_decided =
    let r1 = moves rolled_and_scanned 1 (omega arith) (look_at_roll refl refl (omega arith) refl) in
    let r2 = moves r1 1 (omega arith) (lose refl refl refl) in
    let r3 = moves r2 0 (omega arith) (look_at_roll refl refl (omega arith) refl) in
    moves r3 0 (omega arith) (stay refl (omega arith) refl)

cleared : Trace
unfolding both_decided
cleared =
    let r5 = moves both_decided 1 (omega arith) (take_off refl refl) in
    moves r5 1 (omega arith) (clear refl refl)

next_round : Trace
unfolding cleared
next_round =
    let r7 = steps cleared (pass_third (two _ refl refl) refl) in
    steps r7 (pass_fourth (two _ refl refl) refl)

one_out : Trace
unfolding next_round
one_out = moves next_round 0 (omega arith) (leave refl (omega arith) refl)

one_winner_example : (one_out.0.n ≡ 1) × (winners 2 one_out.0 ≡ 1)
unfolding one_out
one_winner_example = one_winner (omega arith) one_out.1 0 (omega arith) refl
