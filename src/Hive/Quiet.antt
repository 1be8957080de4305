-- ===== src/Hive/Quiet.antt =====
-- exercise11/task3/beehive.c: a hive in which no bee has anything to do.
use ps_os.Base.{ℕ, ◌<◌, ◌≡◌, ◌≢◌, refl, ◌∙◌, arith, true, []}
use ps_os.Hive.{FieldGeometry, IsField}
use ps_os.Hive.TailQueue.{null, is_empty}
use ps_os.Hive.Bees.{
  Place, popping, unlinking, advancing, resetting, took, fly, arrived, harvest, tally, report,
  appending, linking, linked, polling, Hive, Move, Step, bee_moves, first_release, second_release,
  stop_polling, set_terminate, join_all, Reach, step,
}
use ps_os.Hive.Outcome.{Reach-Outcome}
use ps_os.Hive.Moves.{guard}

-- A bee that has no flower at hand and is about neither to pop nor to push.
abbrev pub Idle : Place → Type 0
Idle popping = ⊥
Idle (unlinking e v) = ⊥
Idle (advancing e v) = ⊥
Idle (resetting v) = ⊥
Idle (took a) = ⊥
Idle (fly a) = ⊥
Idle (arrived a) = ⊥
Idle (harvest a) = ⊥
Idle (tally a) = ⊥
Idle (report ps) = ps ≡ []
Idle (appending e ps) = ⊥
Idle (linking e last ps) = ⊥
Idle (linked e ps) = ⊥
Idle _ = Unit

pub record Quiet (n : ℕ) (s : Hive) : Type 0 where
  pub no_entry : s.queue.first ≡ null
  pub idle : (j : ℕ) → j < n → Idle (s.bee j)

-- What comes behind a state.
pub data Later (d : FieldGeometry) (n : ℕ) (s : Hive) : Hive → Type 0 where
  now : Later d n s s
  further : {t u : Hive} → Later d n s t → Step d n t u → Later d n s u

module _ {d : FieldGeometry} {n : ℕ} where
  Move-Quiet :
      {s t : Hive}
      → Quiet n s
      → (i : ℕ) → i < n
      → {p : Place} → s.bee i ≡ p
      → Move d s i p t
      → Quiet n t × (t.collected ≡ s.collected) × (t.flower_field ≡ s.flower_field)
  Move-Quiet inv i lt at mv =
      let idle = inv.idle i lt in
      (
        record {
          no_entry = ground (arith, guard mv, idle, inv.no_entry);
          idle = λ j lj. ground (arith, guard mv, idle, inv.no_entry, inv.idle j lj);
        },
        ground (arith, guard mv, idle, inv.no_entry),
        ground (arith, guard mv, idle, inv.no_entry),
      )

  Step-Quiet :
      {s t : Hive}
      → Quiet n s
      → Step d n s t
      → Quiet n t × (t.collected ≡ s.collected) × (t.flower_field ≡ s.flower_field)
  Step-Quiet inv (bee_moves i lt mv) = Move-Quiet inv i lt refl mv
  Step-Quiet inv (first_release k lt all e) =
      rw e (record { no_entry = inv.no_entry; idle = λ j lj. ground arith }, refl, refl)
  Step-Quiet inv (second_release all e) =
      rw e (record { no_entry = inv.no_entry; idle = λ j lj. tt }, refl, refl)
  Step-Quiet inv (stop_polling at why e) =
      rw e (record { no_entry = inv.no_entry; idle = inv.idle }, refl, refl)
  Step-Quiet inv (set_terminate at e) =
      rw e (record { no_entry = inv.no_entry; idle = inv.idle }, refl, refl)
  Step-Quiet inv (join_all at all e) =
      rw e (record { no_entry = inv.no_entry; idle = inv.idle }, refl, refl)

  Later-Quiet :
      {s t : Hive}
      → Quiet n s
      → Later d n s t
      → Quiet n t × (t.collected ≡ s.collected) × (t.flower_field ≡ s.flower_field)
  Later-Quiet inv now = (inv, refl, refl)
  Later-Quiet inv (further l st) =
      let (before, counted, field) = Later-Quiet inv l in
      let (after, counted', field') = Step-Quiet before st in
      (after, counted' ∙ counted, field' ∙ field)

Later-Reach : {d : FieldGeometry} {n : ℕ} {s t : Hive} → Reach d n s → Later d n s t → Reach d n t
Later-Reach r now = r
Later-Reach r (further l st) = step (Later-Reach r l) st

-- From a reachable state in which the queue is empty, no bee has a flower at hand or is at the queue,
-- and not all flowers are collected, the hive stays so: in every later state the queue is empty and
-- the counter is what it was, and `main` has left its polling loop only if the bear has destroyed the
-- hive.
pub silent_hive_stays :
    {d : FieldGeometry} {n : ℕ} {s t : Hive}
    → IsField d
    → 0 < n
    → Reach d n s
    → Quiet n s
    → s.collected < d.number_flowers
    → Later d n s t
    → (is_empty t.queue ≡ true)
      × (t.collected ≡ s.collected)
      × (t.main ≢ polling → t.destroyed ≡ true)
silent_hive_stays {d} {n} {s} {t} is some_bee r quiet more l =
    let (still, counted, field) = Later-Quiet quiet l in
    (
      ground (arith, still.no_entry),
      counted,
      λ left. ground (arith, counted, (Reach-Outcome is some_bee (Later-Reach r l)).reason left),
    )
