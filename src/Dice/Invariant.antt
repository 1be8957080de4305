-- ===== src/Dice/Invariant.antt =====
-- exercise10/task1/task1.c: the phases of a round, and who stays in the game.
use ps_os.Base.{
  ℕ, zero, suc, ◌+◌, ◌≤◌, ◌<◌, ◌≡◌, ◌≢◌, ◌⊎◌, inl, inr, subst, arith, Bool, true, false, sum_below,
  sum_below-const, own, sum_below-congr, sum_below-change, sum_below-term, ℕ_discrete, Bool-cases,
}
use ps_os.Dice.Scan.{hits, Scanned, scan-Scanned}
use ps_os.Dice.Moves.{premises}
use ps_os.Dice.{
  Place, check, rolling, first_barrier, scanning, second_barrier, comparing, eliminating, clearing,
  fourth_barrier, ended, Game, scan, go, Move, scan_rolls, take_off,
}

-- The barriers cut a round into four phases.
abbrev pub phase : Place → ℕ
phase check = 0
phase rolling = 0
phase first_barrier = 0
phase ended = 0
phase scanning = 1
phase second_barrier = 1
phase fourth_barrier = 3
phase _ = 2

-- Whether a player still counts in `n`.
abbrev pub counts : Bool → Place → ℕ
counts true p = 0
counts false clearing = 0
counts false p = 1

abbrev pub has_rolled : Place → Bool
has_rolled first_barrier = true
has_rolled scanning = true
has_rolled second_barrier = true
has_rolled _ = false

abbrev pub leaving : Place → Bool
leaving eliminating = true
leaving clearing = true
leaving _ = false

abbrev pub compares : Place → Bool
compares comparing = true
compares eliminating = true
compares clearing = true
compares _ = false

abbrev pub plays : Place → Bool
plays rolling = true
plays p = compares p

abbrev pub joins : Place → Bool
joins rolling = true
joins first_barrier = true
joins _ = false

-- After the scan some player stays for sure, or nobody leaves.
abbrev pub Settled : ℕ → Game → Type 0
Settled players s =
    ((w : ℕ) × (w < players) × (s.loser w ≡ false) × (s.rolls w ≢ s.current_max))
    ⊎ ((s.current_max_count ≡ s.n) × ((j : ℕ) → j < players → compares (s.place j) ≡ false))

pub record Inv (players : ℕ) (s : Game) : Type 0 where
  pub together : (i j : ℕ) → i < players → j < players → phase (s.place i) ≡ phase (s.place j)
  pub number : s.n ≡ sum_below own players (λ j. counts (s.loser j) (s.place j))
  pub some_left : 1 ≤ s.n
  pub lost : (j : ℕ) → j < players → s.loser j ≡ true → s.rolls j ≡ 0
  pub rolled :
      (j : ℕ) → j < players → has_rolled (s.place j) ≡ true → s.loser j ≡ false → 1 ≤ s.rolls j
  pub playing : (j : ℕ) → j < players → joins (s.place j) ≡ true → 1 < s.n
  pub gone : (j : ℕ) → j < players → s.place j ≡ ended → s.n ≤ 1
  pub in_game : (j : ℕ) → j < players → plays (s.place j) ≡ true → s.loser j ≡ false
  pub highest : (j : ℕ) → j < players → leaving (s.place j) ≡ true → s.rolls j ≡ s.current_max
  pub settled :
      (i : ℕ)
      → i < players
      → (phase (s.place i) ≡ 1) ⊎ (phase (s.place i) ≡ 2)
      → ((k : ℕ) × (k < players) × (s.place k ≡ scanning)) ⊎ Settled players s

module _ {players : ℕ} {s : Game} (inv : Inv players s) (i : ℕ) (lt : i < players) where
  -- A move stays in its phase.
  Move-phase :
      {p : Place} {t : Game}
      → s.place i ≡ p
      → Move players s i p t
      → (j : ℕ) → phase (t.place j) ≡ phase (s.place j)
  Move-phase at mv j = ground (arith, premises mv)

  changes :
      (g : ℕ → ℕ)
      → ((j : ℕ) → j < players → j ≢ i → g j ≡ counts (s.loser j) (s.place j))
      → sum_below own players g + counts (s.loser i) (s.place i)
        ≡ sum_below own players (λ j. counts (s.loser j) (s.place j)) + g i
  changes g same = sum_below-change own players i (λ j. counts (s.loser j) (s.place j)) g lt same

  Move-number :
      {p : Place} {t : Game}
      → s.place i ≡ p
      → Move players s i p t
      → t.n ≡ sum_below own players (λ j. counts (t.loser j) (t.place j))
  Move-number {t} at mv =
      let step_sum =
        changes (λ j. counts (t.loser j) (t.place j)) (λ j lj other. ground (arith, premises mv)) in
      ground (arith, premises mv, inv.number, step_sum, inv.some_left, inv.in_game i lt)

  Move-rolled :
      {p : Place} {t : Game}
      → s.place i ≡ p
      → Move players s i p t
      → (j : ℕ) → j < players
      → has_rolled (t.place j) ≡ true
      → t.loser j ≡ false
      → 1 ≤ t.rolls j
  Move-rolled at mv j lj h alive = ground (arith, premises mv, inv.rolled j lj)

  Move-lost :
      {p : Place} {t : Game}
      → s.place i ≡ p
      → Move players s i p t
      → (j : ℕ) → j < players
      → t.loser j ≡ true
      → t.rolls j ≡ 0
  Move-lost at mv j lj h = ground (arith, premises mv, inv.lost j lj, inv.in_game i lt)

  Move-highest :
      {p : Place} {t : Game}
      → s.place i ≡ p
      → Move players s i p t
      → (j : ℕ) → j < players
      → leaving (t.place j) ≡ true
      → t.rolls j ≡ t.current_max
  Move-highest at mv j lj h = ground (arith, premises mv, inv.highest j lj, inv.together i j lt lj)

  Move-in_game :
      {p : Place} {t : Game}
      → s.place i ≡ p
      → Move players s i p t
      → (j : ℕ) → j < players
      → plays (t.place j) ≡ true
      → t.loser j ≡ false
  Move-in_game at mv j lj h = ground (arith, premises mv, inv.in_game j lj)

  Move-playing :
      {p : Place} {t : Game}
      → s.place i ≡ p
      → Move players s i p t
      → (j : ℕ) → j < players
      → joins (t.place j) ≡ true
      → 1 < t.n
  Move-playing at mv j lj h = ground (arith, premises mv, inv.playing j lj, inv.together i j lt lj)

  Move-gone :
      {p : Place} {t : Game}
      → s.place i ≡ p
      → Move players s i p t
      → (j : ℕ) → j < players
      → t.place j ≡ ended
      → t.n ≤ 1
  Move-gone at mv j lj h = ground (arith, premises mv, inv.gone j lj)

  Move-some_left : {p : Place} {t : Game} → s.place i ≡ p → Move players s i p t → 1 ≤ t.n
  Move-some_left {t} at (take_off e0 e1) = elim (inv.settled i lt (inr (ground arith))) [
    | inl (k, lk, scans) ↦ absurd (ground (arith, inv.together i k lt lk))
    | inr (inl (w, lw, alive, lower)) ↦
        let stays = sum_below-term own players w (λ j. counts (t.loser j) (t.place j)) lw in
        ground (arith, stays, Move-number at (take_off e0 e1), inv.highest w lw, inv.highest i lt)
    | inr (inr (even, none_compares)) ↦ absurd (ground (arith, none_compares i lt))
  ]
  Move-some_left at mv = ground (arith, premises mv, inv.some_left)

  -- The player that stays for sure does not leave, and nobody leaves an even round.
  keeps-Settled :
      {p : Place} {t : Game}
      → s.place i ≡ p
      → p ≢ scanning
      → Move players s i p t
      → phase p ≢ 0
      → Settled players s
      → Settled players t
  keeps-Settled at other mv later (inl (w, lw, alive, lower)) = inl (
    w,
    lw,
    ground (arith, premises mv, inv.highest i lt),
    ground (arith, premises mv, inv.highest i lt),
  )
  keeps-Settled at other mv later (inr (even, none_compares)) = inr (
    ground (arith, premises mv, none_compares i lt),
    λ j lj. ground (arith, premises mv, none_compares j lj, none_compares i lt),
  )

  find_lower :
      (max b : ℕ)
      → b ≤ players
      → ((w : ℕ) × (w < players) × (s.loser w ≡ false) × (s.rolls w ≢ max))
        ⊎ ((j : ℕ) → j < b → s.loser j ≡ false → s.rolls j ≡ max)
  find_lower max zero le = inr (λ j lj. absurd (omega arith))
  find_lower max (suc b) le = elim (find_lower max b (omega arith)) [
    | inl found ↦ inl found
    | inr others ↦ elim (Bool-cases (s.loser b)) [
      | inl lost ↦ inr (λ j lj alive. elim (ℕ_discrete j b) [
        | yes same ↦ absurd (ground arith)
        | no other ↦ others j (omega arith) alive
      ])
      | inr alive_b ↦ elim (ℕ_discrete (s.rolls b) max) [
        | yes hit ↦ inr (λ j lj alive. elim (ℕ_discrete j b) [
          | yes same ↦ rw same hit
          | no other ↦ others j (omega arith) alive
        ])
        | no lower ↦ inl (b, le, alive_b, lower)
      ]
    ]
  ]

  -- If all players in the game have rolled the maximum, its count is their number.
  scan-even :
      (max count : ℕ)
      → s.place i ≡ scanning
      → Scanned players s.rolls max count
      → ((j : ℕ) → j < players → s.loser j ≡ false → s.rolls j ≡ max)
      → count ≡ s.n
  scan-even max count at scanned all_hit = elim (ℕ_discrete max 0) [
    | yes nothing ↦
        let none_counts =
          sum_below-const own players (λ j. counts (s.loser j) (s.place j)) 0
            (λ j lj. ground (arith, all_hit j lj, inv.rolled j lj, inv.together i j lt lj)) in
        absurd (omega (arith, none_counts, inv.number, inv.some_left))
    | no something ↦
        let same =
          sum_below-congr own players (λ j. hits max (s.rolls j))
            (λ j. counts (s.loser j) (s.place j))
            (λ j lj. ground (arith, all_hit j lj, inv.lost j lj, inv.together i j lt lj)) in
        omega (arith, scanned.counted, same, inv.number)
  ]

  -- The scan settles the round.
  scan-Settled :
      {t : Game} (max count : ℕ)
      → s.place i ≡ scanning
      → scan players s.rolls ≡ (max, count)
      → t ≡ record (go s i second_barrier) { current_max = max; current_max_count = count }
      → Settled players t
  scan-Settled {t} max count at e e' =
      let scanned = subst (λ r. Scanned players s.rolls r.0 r.1) e (scan-Scanned players s.rolls) in
      elim (find_lower max players (omega arith)) [
        | inl (w, lw, alive, lower) ↦ inl (w, lw, ground arith, ground arith)
        | inr all_hit ↦ inr (
          ground (arith, scan-even max count at scanned all_hit),
          λ j lj. ground (arith, inv.together i j lt lj),
        )
      ]

  Move-Settled :
      {p : Place} {t : Game}
      → s.place i ≡ p
      → Move players s i p t
      → (j : ℕ) → j < players
      → (phase (t.place j) ≡ 1) ⊎ (phase (t.place j) ≡ 2)
      → ((k : ℕ) × (k < players) × (t.place k ≡ scanning)) ⊎ Settled players t
  Move-Settled at (scan_rolls max count e0 e1 e2) j lj ph =
      inr (scan-Settled max count (ground arith) e1 e2)
  Move-Settled at mv j lj ph = elim (inv.settled j lj (ground (arith, Move-phase at mv j))) [
    | inl (k, lk, scans) ↦ absurd (ground (arith, premises mv, inv.together i k lt lk))
    | inr settled ↦ inr (
        keeps-Settled at (ground (arith, premises mv)) mv
          (ground (arith, inv.together i j lt lj, Move-phase at mv j)) settled)
  ]

  pub Move-Inv : {p : Place} {t : Game} → s.place i ≡ p → Move players s i p t → Inv players t
  Move-Inv at mv = record {
    together =
        λ j k lj lk. ground (arith, Move-phase at mv j, Move-phase at mv k, inv.together j k lj lk);
    number = Move-number at mv;
    some_left = Move-some_left at mv;
    lost = Move-lost at mv;
    rolled = Move-rolled at mv;
    playing = Move-playing at mv;
    gone = Move-gone at mv;
    in_game = Move-in_game at mv;
    highest = Move-highest at mv;
    settled = Move-Settled at mv;
  }
