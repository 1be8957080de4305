-- ===== src/Dice.antt =====
-- exercise10/task1/task1.c: players roll dice in rounds, kept in step by a barrier, and those with the
-- highest roll leave the game. Each access to a shared atomic and each release of the barrier is one
-- atomic step; the scan of the rolls, during which every other player waits, is one step too.
pub mod Scan
pub mod Moves
pub mod Invariant
pub mod Outcome
use ps_os.Base.{
  ℕ, zero, suc, ◌+◌, ◌-◌, ◌%◌, ◌≤◌, ◌<◌, ◌≡◌, ◌≢◌, Bool, true, false, ◌==◌, ltb, if◌then◌else◌,
  update,
}

-- Where a player stands in `thread_func`.
pub data Place : Type 0 where
  check : Place  -- the test of the outer loop
  rolling : Place
  first_barrier : Place
  scanning : Place  -- the serial player
  second_barrier : Place
  deciding : Place  -- before the test of `current_max_count != n`
  comparing : Place  -- before the test of the own roll
  eliminating : Place
  clearing : Place  -- has taken itself off `n`
  third_barrier : Place
  fourth_barrier : Place
  ended : Place

-- `game_state`, and the `loser` and the place of each player.
pub record Game : Type 0 where
  pub n : ℕ
  pub current_max : ℕ
  pub current_max_count : ℕ
  pub rolls : ℕ → ℕ
  pub loser : ℕ → Bool
  pub place : ℕ → Place

abbrev pub init : ℕ → Game
init players = record {
  n = players;
  current_max = 0;
  current_max_count = 0;
  rolls = λ j. 0;
  loser = λ j. false;
  place = λ j. check;
}

-- The loop of the serial player over the first rolls: the maximum and its count.
unfoldable pub scan : ℕ → (ℕ → ℕ) → ℕ × ℕ
scan zero rolls = (0, 0)
scan (suc i) rolls =
    let (max, count) = scan i rolls in
    if ltb max (rolls i)
    then (rolls i, 1)
    else (if rolls i == max then (max, count + 1) else (max, count))

abbrev pub go : Game → ℕ → Place → Game
go s j p = record s { place = update s.place j p }

-- The steps of player `j` from place `p` in a game of so many players.
pub data Move (players : ℕ) (s : Game) (j : ℕ) (p : Place) (t : Game) : Type 0 where
  leave : p ≡ check → s.n ≤ 1 → t ≡ go s j ended → Move players s j p t
  play : p ≡ check → 1 < s.n → s.loser j ≡ false → t ≡ go s j rolling → Move players s j p t
  watch : p ≡ check → 1 < s.n → s.loser j ≡ true → t ≡ go s j first_barrier → Move players s j p t
  roll :
      (random : ℕ)
      → p ≡ rolling
      → t ≡ record (go s j first_barrier) { rolls = update s.rolls j (random % 6 + 1) }
      → Move players s j p t
  scan_rolls :
      (max count : ℕ)
      → p ≡ scanning
      → scan players s.rolls ≡ (max, count)
      → t ≡ record (go s j second_barrier) { current_max = max; current_max_count = count }
      → Move players s j p t
  pass_over : p ≡ deciding → s.loser j ≡ true → t ≡ go s j third_barrier → Move players s j p t
  repeat_round :
      p ≡ deciding
      → s.loser j ≡ false
      → s.current_max_count ≡ s.n
      → t ≡ go s j third_barrier
      → Move players s j p t
  look_at_roll :
      p ≡ deciding
      → s.loser j ≡ false
      → s.current_max_count ≢ s.n
      → t ≡ go s j comparing
      → Move players s j p t
  stay : p ≡ comparing → s.rolls j ≢ s.current_max → t ≡ go s j third_barrier → Move players s j p t
  lose : p ≡ comparing → s.rolls j ≡ s.current_max → t ≡ go s j eliminating → Move players s j p t
  take_off : p ≡ eliminating → t ≡ record (go s j clearing) { n = s.n - 1 } → Move players s j p t
  clear :
      p ≡ clearing
      → t ≡ record (go s j third_barrier) {
        rolls = update s.rolls j 0;
        loser = update s.loser j true;
      }
      → Move players s j p t

-- A step of a player, or the release of the barrier that all have reached; at the first barrier player
-- `k` is the serial one.
pub data Step (players : ℕ) (s t : Game) : Type 0 where
  player_moves : (j : ℕ) → j < players → Move players s j (s.place j) t → Step players s t
  pass_first :
      (k : ℕ)
      → k < players
      → ((j : ℕ) → j < players → s.place j ≡ first_barrier)
      → t ≡ record s { place = λ j. if j == k then scanning else second_barrier }
      → Step players s t
  pass_second :
      ((j : ℕ) → j < players → s.place j ≡ second_barrier)
      → t ≡ record s { place = λ j. deciding }
      → Step players s t
  pass_third :
      ((j : ℕ) → j < players → s.place j ≡ third_barrier)
      → t ≡ record s { place = λ j. fourth_barrier }
      → Step players s t
  pass_fourth :
      ((j : ℕ) → j < players → s.place j ≡ fourth_barrier)
      → t ≡ record s { place = λ j. check }
      → Step players s t

pub data Reach (players : ℕ) : Game → Type 0 where
  start : Reach players (init players)
  step : {s t : Game} → Reach players s → Step players s t → Reach players t
