-- ===== src/Hive/Bees.antt =====
-- exercise11/task3/beehive.c: the bee threads (`thread_func`) and `main`, interleaved in any order.
-- Each access to shared memory, lock operation and barrier release is one atomic step.
use ps_os.Base.{
  ℕ, zero, suc, ◌+◌, ◌*◌, ◌/◌, ◌≤◌, ◌<◌, ◌≡◌, ◌≢◌, ◌⊎◌, Bool, true, false, Option, none, some, List,
  [], ◌∷◌, update, ◌==◌, if◌then◌else◌,
}
use ps_os.MyQueue.{int_of_size, size_of_int}
use ps_os.Hive.TailQueue.{
  TailQueue, null, empty_queue, is_empty, new_entry, allocate, link, set_last, set_first,
  push_alone,
}
use ps_os.Hive.{
  FieldGeometry, Flower, calculate_positions, nectar, error_value, take_nectar, bear_attack, size,
}

-- Where a bee stands in `thread_func`, with the position that it carries.
pub data Place : Type 0 where
  check : Place  -- the test of `must_terminate`
  lock_queue : Place
  peek : Place  -- holds `queue_mutex`
  popping : Place  -- has seen a queue that is not empty
  unlinking : ℕ → ℕ → Place  -- in `myqueue_pop`, with the entry and its value
  advancing : ℕ → ℕ → Place  -- has loaded the next entry
  resetting : ℕ → Place  -- has stored `NULL` as the first entry, before `stqh_last`
  took : ℕ → Place  -- before `pthread_mutex_unlock(queue_mutex)`
  nothing : Place  -- the same, with an empty queue
  fly : ℕ → Place  -- before `pthread_mutex_lock(field_mutex)`
  arrived : ℕ → Place  -- holds `field_mutex`
  harvest : ℕ → Place  -- has seen nectar
  tally : ℕ → Place  -- has cleared it, before `atomic_fetch_add`
  report : List ℕ → Place  -- in the loop of `check_nearby_flowers`
  appending : ℕ → List ℕ → Place  -- in `myqueue_push`, with the new entry
  linking : ℕ → ℕ → List ℕ → Place  -- has loaded `stqh_last`
  linked : ℕ → List ℕ → Place  -- has stored the entry there, before `stqh_last`
  leave_field : Place  -- before `pthread_mutex_unlock(field_mutex)`
  first_barrier : Place
  watch : Place  -- the one serial thread
  ruin : Place  -- has set `must_terminate`, before `beehive_destroyed`
  second_barrier : Place
  home : Place  -- has returned

-- Where `main` stands: in the polling loop, before the store that ends the bees, in
-- `pthread_join`, or behind it.
pub data MainPlace : Type 0 where
  polling : MainPlace
  stopping : MainPlace
  joining : MainPlace
  joined : MainPlace

pub record Hive : Type 0 where
  pub flower_field : List Flower
  pub queue : TailQueue
  pub collected : ℕ  -- `number_collected_flowers`
  pub must_terminate : Bool
  pub destroyed : Bool
  pub queue_mutex : Option ℕ
  pub field_mutex : Option ℕ
  pub bee : ℕ → Place
  pub main : MainPlace

-- The field that `main` fills: flower `i` at position `i`, with nectar.
unfoldable pub plant : ℕ → ℕ → List Flower
plant zero i = []
plant (suc left) i = record { position = i; has_nectar = true } ∷ plant left (i + 1)

abbrev pub area : FieldGeometry → ℕ
area d = d.width * d.height

-- `main` up to the polling loop.
unfoldable pub init : FieldGeometry → Hive
init d = record {
  flower_field = plant (area d) 0;
  queue = push_alone empty_queue (int_of_size (d.height * d.width / 2));
  collected = 0;
  must_terminate = false;
  destroyed = false;
  queue_mutex = none;
  field_mutex = none;
  bee = λ j. check;
  main = polling;
}

abbrev pub go : Hive → ℕ → Place → Hive
go s j p = record s { bee = update s.bee j p }

-- All bees pass a barrier at once, and bee `k` is the serial one.
abbrev pub pass_first : Hive → ℕ → Hive
pass_first s k = record s { bee = λ j. if j == k then watch else second_barrier }

abbrev pub pass_second : Hive → Hive
pass_second s = record s { bee = λ j. check }

-- The steps of bee `j` from place `p`.
pub data Move (d : FieldGeometry) (s : Hive) (j : ℕ) (p : Place) (t : Hive) : Type 0 where
  go_home : p ≡ check → s.must_terminate ≡ true → t ≡ go s j home → Move d s j p t
  next_round : p ≡ check → s.must_terminate ≡ false → t ≡ go s j lock_queue → Move d s j p t
  lock_queue_mutex :
      p ≡ lock_queue
      → s.queue_mutex ≡ none
      → t ≡ record (go s j peek) { queue_mutex = some j }
      → Move d s j p t
  see_empty : p ≡ peek → is_empty (s.queue) ≡ true → t ≡ go s j nothing → Move d s j p t
  see_entry : p ≡ peek → is_empty (s.queue) ≡ false → t ≡ go s j popping → Move d s j p t
  load_first :
      p ≡ popping
      → s.queue.first ≢ null
      → t ≡ go s j (unlinking s.queue.first (s.queue.value s.queue.first))
      → Move d s j p t
  load_next :
      (e v : ℕ) → p ≡ unlinking e v → t ≡ go s j (advancing (s.queue.next e) v) → Move d s j p t
  store_first :
      (e v : ℕ)
      → p ≡ advancing e v
      → e ≢ null
      → t ≡ record (go s j (took (size_of_int v))) { queue = set_first s.queue e }
      → Move d s j p t
  store_null :
      (e v : ℕ)
      → p ≡ advancing e v
      → e ≡ null
      → t ≡ record (go s j (resetting v)) { queue = set_first s.queue null }
      → Move d s j p t
  reset_last :
      (v : ℕ)
      → p ≡ resetting v
      → t ≡ record (go s j (took (size_of_int v))) { queue = set_last s.queue null }
      → Move d s j p t
  unlock_nothing :
      p ≡ nothing → t ≡ record (go s j first_barrier) { queue_mutex = none } → Move d s j p t
  unlock_took :
      (a : ℕ) → p ≡ took a → t ≡ record (go s j (fly a)) { queue_mutex = none } → Move d s j p t
  lock_field_mutex :
      (a : ℕ)
      → p ≡ fly a
      → s.field_mutex ≡ none
      → t ≡ record (go s j (arrived a)) { field_mutex = some j }
      → Move d s j p t
  see_nectar :
      (a : ℕ)
      → p ≡ arrived a
      → nectar (s.flower_field) a ≡ true
      → t ≡ go s j (harvest a)
      → Move d s j p t
  see_none :
      (a : ℕ)
      → p ≡ arrived a
      → nectar (s.flower_field) a ≡ false
      → t ≡ go s j leave_field
      → Move d s j p t
  clear_nectar :
      (a : ℕ)
      → p ≡ harvest a
      → t ≡ record (go s j (tally a)) { flower_field = take_nectar (s.flower_field) a }
      → Move d s j p t
  count_flower :
      (a : ℕ)
      → p ≡ tally a
      → t
        ≡ record (go s j (report (calculate_positions a d))) { collected = size (s.collected + 1) }
      → Move d s j p t
  skip_error :
      (ps : List ℕ) → p ≡ report (error_value ∷ ps) → t ≡ go s j (report ps) → Move d s j p t
  skip_empty :
      (a : ℕ) (ps : List ℕ)
      → p ≡ report (a ∷ ps)
      → a ≢ error_value
      → nectar (s.flower_field) a ≡ false
      → t ≡ go s j (report ps)
      → Move d s j p t
  new_report :
      (a : ℕ) (ps : List ℕ)
      → p ≡ report (a ∷ ps)
      → a ≢ error_value
      → nectar (s.flower_field) a ≡ true
      → t ≡ record (go s j (appending (new_entry s.queue) ps)) {
        queue = allocate s.queue (int_of_size a);
      }
      → Move d s j p t
  load_last :
      (e : ℕ) (ps : List ℕ)
      → p ≡ appending e ps
      → t ≡ go s j (linking e s.queue.last ps)
      → Move d s j p t
  link_entry :
      (e last : ℕ) (ps : List ℕ)
      → p ≡ linking e last ps
      → t ≡ record (go s j (linked e ps)) { queue = link s.queue last e }
      → Move d s j p t
  store_last :
      (e : ℕ) (ps : List ℕ)
      → p ≡ linked e ps
      → t ≡ record (go s j (report ps)) { queue = set_last s.queue e }
      → Move d s j p t
  report_done : p ≡ report [] → t ≡ go s j leave_field → Move d s j p t
  unlock_field :
      p ≡ leave_field → t ≡ record (go s j first_barrier) { field_mutex = none } → Move d s j p t
  bear_away :
      (attack success : ℕ)
      → p ≡ watch
      → bear_attack attack success ≡ false
      → t ≡ go s j second_barrier
      → Move d s j p t
  bear_wins :
      (attack success : ℕ)
      → p ≡ watch
      → bear_attack attack success ≡ true
      → t ≡ record (go s j ruin) { must_terminate = true }
      → Move d s j p t
  destroy : p ≡ ruin → t ≡ record (go s j second_barrier) { destroyed = true } → Move d s j p t

-- One step of the program with `n` bees.
pub data Step (d : FieldGeometry) (n : ℕ) (s t : Hive) : Type 0 where
  bee_moves : (j : ℕ) → j < n → Move d s j (s.bee j) t → Step d n s t
  first_release :
      (k : ℕ)
      → k < n
      → ((j : ℕ) → j < n → s.bee j ≡ first_barrier)
      → t ≡ pass_first s k
      → Step d n s t
  second_release : ((j : ℕ) → j < n → s.bee j ≡ second_barrier) → t ≡ pass_second s → Step d n s t
  stop_polling :
      s.main ≡ polling
      → (d.number_flowers ≤ s.collected) ⊎ (s.destroyed ≡ true)
      → t ≡ record s { main = stopping }
      → Step d n s t
  set_terminate :
      s.main ≡ stopping → t ≡ record s { must_terminate = true; main = joining } → Step d n s t
  join_all :
      s.main ≡ joining
      → ((j : ℕ) → j < n → s.bee j ≡ home)
      → t ≡ record s { main = joined }
      → Step d n s t

pub data Reach (d : FieldGeometry) (n : ℕ) : Hive → Type 0 where
  start : Reach d n (init d)
  step : {s t : Hive} → Reach d n s → Step d n s t → Reach d n t
