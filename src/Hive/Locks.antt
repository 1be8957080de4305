-- ===== src/Hive/Locks.antt =====
-- exercise11/task3/beehive.c: who holds `queue_mutex` and `field_mutex`.
use ps_os.Base.{ℕ, ◌<◌, ◌≡◌, ◌≢◌, ◌⊎◌, inl, inr, Bool, true, false, some, arith, refl}
use ps_os.Hive.TailQueue.{null}
use ps_os.Hive.{FieldGeometry}
use ps_os.Hive.Bees.{
  Place, peek, popping, took, nothing, arrived, harvest, tally, report, leave_field, MainPlace,
  stopping, joining, joined, Hive, init, unlinking, advancing, resetting, appending, linking,
  linked, Move, go_home, Step, bee_moves, first_release, second_release, stop_polling,
  set_terminate, join_all, Reach, start, step,
}
use ps_os.Hive.Moves.{guard}

abbrev pub in_queue : Place → Bool
in_queue peek = true
in_queue popping = true
in_queue (unlinking e v) = true
in_queue (advancing e v) = true
in_queue (resetting v) = true
in_queue (took a) = true
in_queue nothing = true
in_queue _ = false

abbrev pub in_field : Place → Bool
in_field (arrived a) = true
in_field (harvest a) = true
in_field (tally a) = true
in_field (report ps) = true
in_field (appending e ps) = true
in_field (linking e last ps) = true
in_field (linked e ps) = true
in_field leave_field = true
in_field _ = false

abbrev pub is_popping : Place → Bool
is_popping popping = true
is_popping _ = false

-- An entry that a bee pushes is none of address `NULL`.
abbrev pub HasEntry : Place → Type 0
HasEntry (appending e ps) = e ≢ null
HasEntry (linking e last ps) = e ≢ null
HasEntry (linked e ps) = e ≢ null
HasEntry _ = Unit

-- A bee between lock and unlock owns the mutex, and what a bee has seen of the queue stays true:
-- the others only add to it.
pub record Locks (n : ℕ) (s : Hive) : Type 0 where
  pub queue_owner : (j : ℕ) → j < n → in_queue (s.bee j) ≡ true → s.queue_mutex ≡ some j
  pub field_owner : (j : ℕ) → j < n → in_field (s.bee j) ≡ true → s.field_mutex ≡ some j
  pub filled : (j : ℕ) → j < n → is_popping (s.bee j) ≡ true → s.queue.first ≢ null
  pub entry : (j : ℕ) → j < n → HasEntry (s.bee j)

module _ {d : FieldGeometry} {n : ℕ} {s : Hive} (inv : Locks n s) (i : ℕ) (lt : i < n) where
  Move-queue_owner :
      {p : Place} {t : Hive}
      → s.bee i ≡ p
      → Move d s i p t
      → (j : ℕ) → j < n
      → in_queue (t.bee j) ≡ true
      → t.queue_mutex ≡ some j
  Move-queue_owner at (go_home e more e') j below holds = ground (arith, inv.queue_owner j below)
  Move-queue_owner at mv j below holds =
      ground (arith, guard mv, inv.queue_owner j below, inv.queue_owner i lt)

  Move-field_owner :
      {p : Place} {t : Hive}
      → s.bee i ≡ p
      → Move d s i p t
      → (j : ℕ) → j < n
      → in_field (t.bee j) ≡ true
      → t.field_mutex ≡ some j
  Move-field_owner at (go_home e more e') j below holds = ground (arith, inv.field_owner j below)
  Move-field_owner at mv j below holds =
      ground (arith, guard mv, inv.field_owner j below, inv.field_owner i lt)

  Move-filled :
      {p : Place} {t : Hive}
      → s.bee i ≡ p
      → Move d s i p t
      → (j : ℕ) → j < n
      → is_popping (t.bee j) ≡ true
      → t.queue.first ≢ null
  Move-filled at mv j below holds = ground (
    arith,
    guard mv,
    inv.filled j below,
    inv.entry i lt,
    inv.queue_owner j below,
    inv.queue_owner i lt,
  )

  Move-entry :
      {p : Place} {t : Hive} → s.bee i ≡ p → Move d s i p t → (j : ℕ) → j < n → HasEntry (t.bee j)
  Move-entry at mv j below = ground (arith, guard mv, inv.entry j below, inv.entry i lt)

  pub Move-Locks : {t : Hive} → Move d s i (s.bee i) t → Locks n t
  Move-Locks mv = record {
    queue_owner = Move-queue_owner refl mv;
    field_owner = Move-field_owner refl mv;
    filled = Move-filled refl mv;
    entry = Move-entry refl mv;
  }

-- What `main` does concerns no lock.
Locks-main :
    {n : ℕ} {s : Hive} (m : MainPlace) (stop : Bool)
    → Locks n s
    → Locks n (record s { main = m; must_terminate = stop })
Locks-main m stop inv = record {
  queue_owner = inv.queue_owner;
  field_owner = inv.field_owner;
  filled = inv.filled;
  entry = inv.entry;
}

Step-Locks : {d : FieldGeometry} {n : ℕ} {s t : Hive} → Locks n s → Step d n s t → Locks n t
Step-Locks inv (bee_moves i lt mv) = Move-Locks inv i lt mv
Step-Locks inv (first_release k lt all e) = record {
  queue_owner = λ j below holds. absurd (ground arith);
  field_owner = λ j below holds. absurd (ground arith);
  filled = λ j below holds. absurd (ground arith);
  entry = λ j below. ground arith;
}
Step-Locks inv (second_release all e) = record {
  queue_owner = λ j below holds. absurd (ground arith);
  field_owner = λ j below holds. absurd (ground arith);
  filled = λ j below holds. absurd (ground arith);
  entry = λ j below. ground arith;
}
Step-Locks inv (stop_polling at why e) = rw e (Locks-main stopping _ inv)
Step-Locks inv (set_terminate at e) = rw e (Locks-main joining _ inv)
Step-Locks inv (join_all at all e) = rw e (Locks-main joined _ inv)

pub Reach-Locks : {d : FieldGeometry} {n : ℕ} {s : Hive} → Reach d n s → Locks n s
unfolding init
Reach-Locks start = record {
  queue_owner = λ j below holds. cc;
  field_owner = λ j below holds. cc;
  filled = λ j below holds. cc;
  entry = λ j below. tt;
}
Reach-Locks (step r st) = Step-Locks (Reach-Locks r) st

-- In every reachable state each mutex has one bee at most between its lock and its unlock.
pub mutual_exclusion :
    {d : FieldGeometry} {n : ℕ} {s : Hive}
    → Reach d n s
    → (i j : ℕ) → i < n
    → j < n
    → (((in_queue (s.bee i) ≡ true) × (in_queue (s.bee j) ≡ true))
        ⊎ ((in_field (s.bee i) ≡ true) × (in_field (s.bee j) ≡ true)))
    → i ≡ j
mutual_exclusion r i j li lj (inl (hi, hj)) =
    ground (arith, (Reach-Locks r).queue_owner i li hi, (Reach-Locks r).queue_owner j lj hj)
mutual_exclusion r i j li lj (inr (hi, hj)) =
    ground (arith, (Reach-Locks r).field_owner i li hi, (Reach-Locks r).field_owner j lj hj)

-- A bee that is about to pop finds an entry: the `assert` of `myqueue_pop` never fails.
pop_finds_entry :
    {d : FieldGeometry} {n : ℕ} {s : Hive}
    → Reach d n s
    → (j : ℕ) → j < n
    → s.bee j ≡ popping
    → s.queue.first ≢ null
pop_finds_entry r j lj at = (Reach-Locks r).filled j lj (ground arith)
