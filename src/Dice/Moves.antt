-- ===== src/Dice/Moves.antt =====
-- exercise10/task1/task1.c: the premises of a player's step as one tuple.
use ps_os.Base.{ℕ, ◌+◌, ◌-◌, ◌%◌, ◌≤◌, ◌<◌, ◌≡◌, ◌≢◌, true, false, update}
use ps_os.Dice.{
  Place, check, rolling, first_barrier, scanning, second_barrier, deciding, comparing, eliminating,
  clearing, third_barrier, ended, Game, scan, go, Move, leave, play, watch, roll, scan_rolls,
  pass_over, repeat_round, look_at_roll, stay, lose, take_off, clear,
}

abbrev pub Premises :
    {players : ℕ} {s : Game} {j : ℕ} {p : Place} {t : Game} → Move players s j p t → Type 0
Premises {players} {s} {j} {p} {t} (leave _ _ _) = (p ≡ check) × (s.n ≤ 1) × (t ≡ go s j ended)
Premises {players} {s} {j} {p} {t} (play _ _ _ _) =
    (p ≡ check) × (1 < s.n) × (s.loser j ≡ false) × (t ≡ go s j rolling)
Premises {players} {s} {j} {p} {t} (watch _ _ _ _) =
    (p ≡ check) × (1 < s.n) × (s.loser j ≡ true) × (t ≡ go s j first_barrier)
Premises {players} {s} {j} {p} {t} (roll random _ _) =
    (p ≡ rolling)
    × (t ≡ record (go s j first_barrier) { rolls = update s.rolls j (random % 6 + 1) })
Premises {players} {s} {j} {p} {t} (scan_rolls max count _ _ _) =
    (p ≡ scanning)
    × (scan players s.rolls ≡ (max, count))
    × (t ≡ record (go s j second_barrier) { current_max = max; current_max_count = count })
Premises {players} {s} {j} {p} {t} (pass_over _ _ _) =
    (p ≡ deciding) × (s.loser j ≡ true) × (t ≡ go s j third_barrier)
Premises {players} {s} {j} {p} {t} (repeat_round _ _ _ _) =
    (p ≡ deciding) × (s.loser j ≡ false) × (s.current_max_count ≡ s.n) × (t ≡ go s j third_barrier)
Premises {players} {s} {j} {p} {t} (look_at_roll _ _ _ _) =
    (p ≡ deciding) × (s.loser j ≡ false) × (s.current_max_count ≢ s.n) × (t ≡ go s j comparing)
Premises {players} {s} {j} {p} {t} (stay _ _ _) =
    (p ≡ comparing) × (s.rolls j ≢ s.current_max) × (t ≡ go s j third_barrier)
Premises {players} {s} {j} {p} {t} (lose _ _ _) =
    (p ≡ comparing) × (s.rolls j ≡ s.current_max) × (t ≡ go s j eliminating)
Premises {players} {s} {j} {p} {t} (take_off _ _) =
    (p ≡ eliminating) × (t ≡ record (go s j clearing) { n = s.n - 1 })
Premises {players} {s} {j} {p} {t} (clear _ _) =
    (p ≡ clearing)
    × (t ≡ record (go s j third_barrier) {
      rolls = update s.rolls j 0;
      loser = update s.loser j true;
    })

pub premises :
    {players : ℕ} {s : Game} {j : ℕ} {p : Place} {t : Game} (mv : Move players s j p t)
    → Premises mv
premises (leave e0 e1 e2) = (e0, e1, e2)
premises (play e0 e1 e2 e3) = (e0, e1, e2, e3)
premises (watch e0 e1 e2 e3) = (e0, e1, e2, e3)
premises (roll random e0 e1) = (e0, e1)
premises (scan_rolls max count e0 e1 e2) = (e0, e1, e2)
premises (pass_over e0 e1 e2) = (e0, e1, e2)
premises (repeat_round e0 e1 e2 e3) = (e0, e1, e2, e3)
premises (look_at_roll e0 e1 e2 e3) = (e0, e1, e2, e3)
premises (stay e0 e1 e2) = (e0, e1, e2)
premises (lose e0 e1 e2) = (e0, e1, e2)
premises (take_off e0 e1) = (e0, e1)
premises (clear e0 e1) = (e0, e1)
