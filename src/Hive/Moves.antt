-- ===== src/Hive/Moves.antt =====
-- exercise11/task3/beehive.c: what a step of a bee tells of the state before and after it.
use ps_os.Base.{ℕ, ◌+◌, ◌≡◌, ◌≢◌, ◌⊎◌, inl, inr, arith, true, false, none, some, [], ◌∷◌}
use ps_os.MyQueue.{int_of_size, size_of_int}
use ps_os.Hive.TailQueue.{null, is_empty, new_entry, allocate, link, set_last, set_first}
use ps_os.Hive.{
  FieldGeometry, calculate_positions, nectar, error_value, take_nectar, bear_attack, size,
}
use ps_os.Hive.Bees.{
  Place, check, lock_queue, peek, popping, took, nothing, fly, arrived, harvest, tally, report,
  leave_field, first_barrier, watch, ruin, second_barrier, home, Hive, go, Move, unlinking,
  advancing, resetting, appending, linking, linked, go_home, next_round, lock_queue_mutex,
  see_empty, see_entry, load_first, load_next, store_first, store_null, reset_last, unlock_nothing,
  unlock_took, lock_field_mutex, see_nectar, see_none, clear_nectar, count_flower, skip_error,
  skip_empty, new_report, load_last, link_entry, store_last, report_done, unlock_field, bear_away,
  bear_wins, destroy,
}

-- The premises of a move as one tuple, for proofs that treat all moves alike.
abbrev pub Guard :
    {d : FieldGeometry} {s : Hive} {j : ℕ} {p : Place} {t : Hive} → Move d s j p t → Type 0
Guard {d} {s} {j} {p} {t} (go_home _ _ _) =
    (p ≡ check) × (s.must_terminate ≡ true) × (t ≡ go s j home)
Guard {d} {s} {j} {p} {t} (next_round _ _ _) =
    (p ≡ check) × (s.must_terminate ≡ false) × (t ≡ go s j lock_queue)
Guard {d} {s} {j} {p} {t} (lock_queue_mutex _ _ _) =
    (p ≡ lock_queue) × (s.queue_mutex ≡ none) × (t ≡ record (go s j peek) { queue_mutex = some j })
Guard {d} {s} {j} {p} {t} (see_empty _ _ _) =
    (p ≡ peek) × (is_empty (s.queue) ≡ true) × (t ≡ go s j nothing)
Guard {d} {s} {j} {p} {t} (see_entry _ _ _) =
    (p ≡ peek) × (is_empty (s.queue) ≡ false) × (t ≡ go s j popping)
Guard {d} {s} {j} {p} {t} (load_first _ _ _) =
    (p ≡ popping)
    × (s.queue.first ≢ null)
    × (t ≡ go s j (unlinking s.queue.first (s.queue.value s.queue.first)))
Guard {d} {s} {j} {p} {t} (load_next e v _ _) =
    (p ≡ unlinking e v) × (t ≡ go s j (advancing (s.queue.next e) v))
Guard {d} {s} {j} {p} {t} (store_first e v _ _ _) =
    (p ≡ advancing e v)
    × (e ≢ null)
    × (t ≡ record (go s j (took (size_of_int v))) { queue = set_first s.queue e })
Guard {d} {s} {j} {p} {t} (store_null e v _ _ _) =
    (p ≡ advancing e v)
    × (e ≡ null)
    × (t ≡ record (go s j (resetting v)) { queue = set_first s.queue null })
Guard {d} {s} {j} {p} {t} (reset_last v _ _) =
    (p ≡ resetting v)
    × (t ≡ record (go s j (took (size_of_int v))) { queue = set_last s.queue null })
Guard {d} {s} {j} {p} {t} (unlock_nothing _ _) =
    (p ≡ nothing) × (t ≡ record (go s j first_barrier) { queue_mutex = none })
Guard {d} {s} {j} {p} {t} (unlock_took a _ _) =
    (p ≡ took a) × (t ≡ record (go s j (fly a)) { queue_mutex = none })
Guard {d} {s} {j} {p} {t} (lock_field_mutex a _ _ _) =
    (p ≡ fly a)
    × (s.field_mutex ≡ none)
    × (t ≡ record (go s j (arrived a)) { field_mutex = some j })
Guard {d} {s} {j} {p} {t} (see_nectar a _ _ _) =
    (p ≡ arrived a) × (nectar (s.flower_field) a ≡ true) × (t ≡ go s j (harvest a))
Guard {d} {s} {j} {p} {t} (see_none a _ _ _) =
    (p ≡ arrived a) × (nectar (s.flower_field) a ≡ false) × (t ≡ go s j leave_field)
Guard {d} {s} {j} {p} {t} (clear_nectar a _ _) =
    (p ≡ harvest a)
    × (t ≡ record (go s j (tally a)) { flower_field = take_nectar (s.flower_field) a })
Guard {d} {s} {j} {p} {t} (count_flower a _ _) =
    (p ≡ tally a)
    × (t
        ≡ record (go s j (report (calculate_positions a d))) { collected = size (s.collected + 1) })
Guard {d} {s} {j} {p} {t} (skip_error ps _ _) =
    (p ≡ report (error_value ∷ ps)) × (t ≡ go s j (report ps))
Guard {d} {s} {j} {p} {t} (skip_empty a ps _ _ _ _) =
    (p ≡ report (a ∷ ps))
    × (a ≢ error_value)
    × (nectar (s.flower_field) a ≡ false)
    × (t ≡ go s j (report ps))
Guard {d} {s} {j} {p} {t} (new_report a ps _ _ _ _) =
    (p ≡ report (a ∷ ps))
    × (a ≢ error_value)
    × (nectar (s.flower_field) a ≡ true)
    × (t ≡ record (go s j (appending (new_entry s.queue) ps)) {
      queue = allocate s.queue (int_of_size a);
    })
Guard {d} {s} {j} {p} {t} (load_last e ps _ _) =
    (p ≡ appending e ps) × (t ≡ go s j (linking e s.queue.last ps))
Guard {d} {s} {j} {p} {t} (link_entry e last ps _ _) =
    (p ≡ linking e last ps) × (t ≡ record (go s j (linked e ps)) { queue = link s.queue last e })
Guard {d} {s} {j} {p} {t} (store_last e ps _ _) =
    (p ≡ linked e ps) × (t ≡ record (go s j (report ps)) { queue = set_last s.queue e })
Guard {d} {s} {j} {p} {t} (report_done _ _) = (p ≡ report []) × (t ≡ go s j leave_field)
Guard {d} {s} {j} {p} {t} (unlock_field _ _) =
    (p ≡ leave_field) × (t ≡ record (go s j first_barrier) { field_mutex = none })
Guard {d} {s} {j} {p} {t} (bear_away attack success _ _ _) =
    (p ≡ watch) × (bear_attack attack success ≡ false) × (t ≡ go s j second_barrier)
Guard {d} {s} {j} {p} {t} (bear_wins attack success _ _ _) =
    (p ≡ watch)
    × (bear_attack attack success ≡ true)
    × (t ≡ record (go s j ruin) { must_terminate = true })
Guard {d} {s} {j} {p} {t} (destroy _ _) =
    (p ≡ ruin) × (t ≡ record (go s j second_barrier) { destroyed = true })

pub guard :
    {d : FieldGeometry} {s : Hive} {j : ℕ} {p : Place} {t : Hive} (mv : Move d s j p t) → Guard mv
guard (go_home e0 e1 e2) = (e0, e1, e2)
guard (next_round e0 e1 e2) = (e0, e1, e2)
guard (lock_queue_mutex e0 e1 e2) = (e0, e1, e2)
guard (see_empty e0 e1 e2) = (e0, e1, e2)
guard (see_entry e0 e1 e2) = (e0, e1, e2)
guard (load_first e0 e1 e2) = (e0, e1, e2)
guard (load_next e v e0 e1) = (e0, e1)
guard (store_first e v e0 e1 e2) = (e0, e1, e2)
guard (store_null e v e0 e1 e2) = (e0, e1, e2)
guard (reset_last v e0 e1) = (e0, e1)
guard (unlock_nothing e0 e1) = (e0, e1)
guard (unlock_took a e0 e1) = (e0, e1)
guard (lock_field_mutex a e0 e1 e2) = (e0, e1, e2)
guard (see_nectar a e0 e1 e2) = (e0, e1, e2)
guard (see_none a e0 e1 e2) = (e0, e1, e2)
guard (clear_nectar a e0 e1) = (e0, e1)
guard (count_flower a e0 e1) = (e0, e1)
guard (skip_error ps e0 e1) = (e0, e1)
guard (skip_empty a ps e0 e1 e2 e3) = (e0, e1, e2, e3)
guard (new_report a ps e0 e1 e2 e3) = (e0, e1, e2, e3)
guard (load_last e ps e0 e1) = (e0, e1)
guard (link_entry e last ps e0 e1) = (e0, e1)
guard (store_last e ps e0 e1) = (e0, e1)
guard (report_done e0 e1) = (e0, e1)
guard (unlock_field e0 e1) = (e0, e1)
guard (bear_away attack success e0 e1 e2) = (e0, e1, e2)
guard (bear_wins attack success e0 e1 e2) = (e0, e1, e2)
guard (destroy e0 e1) = (e0, e1)

-- A move of bee `i` leaves the other bees where they are.
pub Move-others :
    {d : FieldGeometry} {s : Hive} {i : ℕ} {p : Place} {t : Hive} (j : ℕ)
    → Move d s i p t
    → j ≢ i
    → t.bee j ≡ s.bee j
Move-others j (go_home e more e') other = ground arith
Move-others j mv other = ground (arith, guard mv)

-- Only the clearing of a flower changes the field.
pub Move-field :
    {d : FieldGeometry} {s : Hive} {i : ℕ} {p : Place} {t : Hive}
    → Move d s i p t
    → (t.flower_field ≡ s.flower_field)
      ⊎ ((a : ℕ) × (p ≡ harvest a)
          × (t.bee i ≡ tally a)
          × (t.flower_field ≡ take_nectar (s.flower_field) a))
Move-field (go_home e more e') = inl (ground arith)
Move-field (clear_nectar a e e') = inr (a, e, ground arith, ground arith)
Move-field mv = inl (ground (arith, guard mv))
