-- ===== src/Hive/Ranges.antt =====
-- exercise11/task3/beehive.c: the positions in the queue and with the bees.
use ps_os.Base.{
  ℕ, zero, suc, ◌+◌, ◌*◌, ◌/◌, ◌<◌, ◌≡◌, ◌≢◌, ◌⊎◌, inl, inr, refl, ap, Bool, false, List, [], ◌∷◌,
  arith, length, length-set, get_or, All,
}
use ps_os.MyQueue.{int_of_size, size_of_int}
use ps_os.Hive.TailQueue.{TailQueue, allocate}
use ps_os.Hive.{FieldGeometry, IsField, error_value, calculate_positions, no_flower}
use ps_os.Hive.Geometry.{
  calculate_positions-neighbours, column_row, position_of-lt, above, below, before, after,
}
use ps_os.Hive.Bees.{
  Place, took, fly, arrived, harvest, tally, report, MainPlace, stopping, joining, joined, Hive,
  init, plant, area, Move, unlinking, advancing, resetting, appending, linking, linked, store_first,
  reset_last, new_report, count_flower, clear_nectar, Step, bee_moves, first_release,
  second_release, stop_polling, set_terminate, join_all, Reach, start, step,
}
use ps_os.Hive.Moves.{guard}

-- A neighbour: inside the field, or the error value.
abbrev pub InReport : FieldGeometry → List ℕ → Type 0
InReport d ps = All (λ p. (p < area d) ⊎ (p ≡ error_value)) ps

abbrev pub InPlace : FieldGeometry → Place → Type 0
InPlace d (took a) = a < area d
InPlace d (fly a) = a < area d
InPlace d (arrived a) = a < area d
InPlace d (harvest a) = a < area d
InPlace d (tally a) = a < area d
InPlace d (unlinking e v) = v < area d
InPlace d (advancing e v) = v < area d
InPlace d (resetting v) = v < area d
InPlace d (report ps) = InReport d ps
InPlace d (appending e ps) = InReport d ps
InPlace d (linking e last ps) = InReport d ps
InPlace d (linked e ps) = InReport d ps
InPlace d _ = Unit

-- The value of an entry, linked or not.
abbrev pub InQueue : FieldGeometry → TailQueue → Type 0
InQueue d queue = (e : ℕ) → queue.value e < area d

pub record Ranges (d : FieldGeometry) (n : ℕ) (s : Hive) : Type 0 where
  pub size : length (s.flower_field) ≡ area d
  pub queued : InQueue d (s.queue)
  pub carried : (j : ℕ) → j < n → InPlace d (s.bee j)

module _ (d : FieldGeometry) (is : IsField d) where
  above-in :
      (x y : ℕ) → x < d.width → y < d.height → (above d x y < area d) ⊎ (above d x y ≡ error_value)
  above-in x zero in_x in_y = inr refl
  above-in x (suc y) in_x in_y = inl (position_of-lt d x y in_x (omega arith))

  before-in :
      (x y : ℕ)
      → x < d.width
      → y < d.height
      → (before d x y < area d) ⊎ (before d x y ≡ error_value)
  before-in zero y in_x in_y = inr refl
  before-in (suc x) y in_x in_y = inl (position_of-lt d x y (omega arith) in_y)

  below-in :
      (x y : ℕ) → x < d.width → y < d.height → (below d x y < area d) ⊎ (below d x y ≡ error_value)
  below-in x y in_x in_y = ground (arith, position_of-lt d x (y + 1) in_x)

  after-in :
      (x y : ℕ) → x < d.width → y < d.height → (after d x y < area d) ⊎ (after d x y ≡ error_value)
  after-in x y in_x in_y = ground (arith, position_of-lt d (x + 1) y)

  -- The neighbours of a flower of the field are flowers of the field, or the error value.
  pub calculate_positions-InReport : (a : ℕ) → a < area d → InReport d (calculate_positions a d)
  calculate_positions-InReport a lt =
      let (x, y, in_x, in_y, e) = column_row d a is lt in
      rw (e, calculate_positions-neighbours d x y is in_x in_y)
        (
          above-in x y in_x in_y,
          (below-in x y in_x in_y, (before-in x y in_x in_y, (after-in x y in_x in_y, tt))),
        )

  some_flower : 0 < area d
  some_flower = let pos : 0 < d.height * d.width = grind arith in omega arith

  allocate-InQueue :
      (queue : TailQueue) (a : ℕ)
      → a < area d
      → InQueue d queue
      → InQueue d (allocate queue (int_of_size a))
  allocate-InQueue queue a lt in_q e = ground (arith, in_q e, is.small)

  size_of_int-in : (v : ℕ) → v < area d → size_of_int v < area d
  size_of_int-in v lt = ground (arith, is.small)

  module _ {n : ℕ} {s : Hive} (inv : Ranges d n s) (i : ℕ) (lt : i < n) where
    Move-size :
        {p : Place} {t : Hive} → s.bee i ≡ p → Move d s i p t → length (t.flower_field) ≡ area d
    Move-size at (clear_nectar a e e') = ground (
      arith,
      length-set (s.flower_field) a
          (record (get_or (s.flower_field) a no_flower) { has_nectar = false }),
    )
    Move-size at mv = ground (arith, guard mv)

    Move-queued : {p : Place} {t : Hive} → s.bee i ≡ p → Move d s i p t → InQueue d (t.queue)
    Move-queued at (new_report a ps e ne has e') k =
        rw e' (allocate-InQueue s.queue a (ground (arith, inv.carried i lt)) inv.queued k)
    Move-queued at mv k = ground (arith, guard mv, inv.queued k)

    Move-carried :
        {p : Place} {t : Hive}
        → s.bee i ≡ p
        → Move d s i p t
        → (j : ℕ) → j < n
        → InPlace d (t.bee j)
    Move-carried at (count_flower a e e') j lj =
        ground (arith, inv.carried j lj, inv.carried i lt, calculate_positions-InReport a)
    Move-carried at (store_first e v at_e some_e e') j lj =
        ground (arith, inv.carried j lj, inv.carried i lt, size_of_int-in v)
    Move-carried at (reset_last v at_v e') j lj =
        ground (arith, inv.carried j lj, inv.carried i lt, size_of_int-in v)
    Move-carried at mv j lj =
        ground (arith, guard mv, inv.carried j lj, inv.carried i lt, inv.queued s.queue.first)

  Ranges-main :
      {n : ℕ} {s : Hive} (m : MainPlace) (stop : Bool)
      → Ranges d n s
      → Ranges d n (record s { main = m; must_terminate = stop })
  Ranges-main m stop inv = record { size = inv.size; queued = inv.queued; carried = inv.carried }

  Step-Ranges : {n : ℕ} {s t : Hive} → Ranges d n s → Step d n s t → Ranges d n t
  Step-Ranges inv (bee_moves i lt mv) = record {
    size = Move-size inv i lt refl mv;
    queued = Move-queued inv i lt refl mv;
    carried = Move-carried inv i lt refl mv;
  }
  Step-Ranges inv (first_release k lt all e) =
      rw e (record { size = inv.size; queued = inv.queued; carried = λ j lj. ground arith })
  Step-Ranges inv (second_release all e) =
      rw e (record { size = inv.size; queued = inv.queued; carried = λ j lj. tt })
  Step-Ranges inv (stop_polling at why e) = rw e (Ranges-main stopping _ inv)
  Step-Ranges inv (set_terminate at e) = rw e (Ranges-main joining _ inv)
  Step-Ranges inv (join_all at all e) = rw e (Ranges-main joined _ inv)

  length-plant : (left i : ℕ) → length (plant left i) ≡ left
  unfolding plant
  length-plant zero i = refl
  length-plant (suc left) i = ap suc (length-plant left (i + 1))

  pub middle-lt : int_of_size (d.height * d.width / 2) < area d
  middle-lt = let pos : 0 < d.height * d.width = grind arith in omega (arith, is.small)

  pub Reach-Ranges : {n : ℕ} {s : Hive} → Reach d n s → Ranges d n s
  unfolding init
  Reach-Ranges start = record {
    size = length-plant (area d) 0;
    queued = λ e. ground (arith, middle-lt, some_flower);
    carried = λ j lj. tt;
  }
  Reach-Ranges (step r st) = Step-Ranges (Reach-Ranges r) st

-- The flower that a place of `thread_func` is about to read or write.
abbrev pub Accesses : Place → ℕ → Type 0
Accesses (arrived a) p = p ≡ a
Accesses (harvest a) p = p ≡ a
Accesses (report (a ∷ ps)) p = (p ≡ a) × (p ≢ error_value)
Accesses _ p = ⊥

-- In every reachable state each access of a bee to the field stays inside the array.
pub bees_in_bounds :
    {d : FieldGeometry} {n : ℕ} {s : Hive}
    → IsField d
    → Reach d n s
    → (j p : ℕ) → j < n
    → Accesses (s.bee j) p
    → p < length (s.flower_field)
bees_in_bounds {d} {n} {s} is r j p lj acc = inside (s.bee j) refl acc
  where
    inv : Ranges d n s
    inv = Reach-Ranges d is r

    inside : (q : Place) → s.bee j ≡ q → Accesses q p → p < length (s.flower_field)
    inside (arrived a) at h = ground (arith, inv.size, inv.carried j lj)
    inside (harvest a) at h = ground (arith, inv.size, inv.carried j lj)
    inside (report (a ∷ ps)) at h = ground (arith, inv.size, inv.carried j lj)
    inside (report []) at h = elim h [ ]
    inside _ at h = elim h [ ]
