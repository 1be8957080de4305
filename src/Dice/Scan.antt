-- ===== src/Dice/Scan.antt =====
-- exercise10/task1/task1.c: what the scan of the serial player finds.
use ps_os.Base.{
  ℕ, zero, suc, ◌+◌, ◌≤◌, ◌<◌, ◌≡◌, refl, arith, ◌==◌, ltb, if◌then◌else◌, sum_below, own,
  sum_below-const, dec_lt,
}
use ps_os.Dice.{scan}

abbrev pub hits : ℕ → ℕ → ℕ
hits max r = if r == max then 1 else 0

pub record Scanned (n : ℕ) (rolls : ℕ → ℕ) (max count : ℕ) : Type 0 where
  pub bound : (j : ℕ) → j < n → rolls j ≤ max
  pub counted : count ≡ sum_below own n (λ j. hits max (rolls j))

abbrev scan_next : ℕ → ℕ → ℕ → ℕ × ℕ
scan_next max count r =
    if ltb max r then (r, 1) else (if r == max then (max, count + 1) else (max, count))

scan_next-Scanned :
    (i max count : ℕ) (rolls : ℕ → ℕ)
    → Scanned i rolls max count
    → Scanned (suc i) rolls (scan_next max count (rolls i)).0 (scan_next max count (rolls i)).1
unfolding sum_below
scan_next-Scanned i max count rolls before = record {
  bound = λ j lj. elim (dec_lt j i) [
    | yes earlier ↦ ground (arith, before.bound j earlier)
    | no last ↦ ground arith
  ];
  counted = elim (dec_lt max (rolls i)) [
    | yes higher ↦ ground (
      arith,
      sum_below-const own i (λ j. hits (rolls i) (rolls j)) 0
          (λ j lj. ground (arith, before.bound j lj)),
    )
    | no not_higher ↦ ground (arith, before.counted)
  ];
}

pub scan-Scanned : (n : ℕ) (rolls : ℕ → ℕ) → Scanned n rolls (scan n rolls).0 (scan n rolls).1
unfolding scan sum_below
scan-Scanned zero rolls = record { bound = λ j lj. absurd (omega arith); counted = refl }
scan-Scanned (suc i) rolls =
    scan_next-Scanned i (scan i rolls).0 (scan i rolls).1 rolls (scan-Scanned i rolls)
