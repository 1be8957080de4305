-- ===== src/Hive.antt =====
-- exercise11/task3/beehive.c (task1 and task2 hold an earlier copy): the flower field and what one
-- bee does with it. A `size_t` is a number below 2^64.
pub mod Geometry
pub mod TailQueue
pub mod Bees
pub mod Moves
pub mod Locks
pub mod Ranges
pub mod Count
pub mod Quiet
pub mod Stranded
pub mod Outcome
use ps_os.Base.{
  ℕ, ◌+◌, ◌-◌, ◌*◌, ◌%◌, ◌^◌, ◌≤◌, ◌<◌, ◌≡◌, Bool, true, false, not, List, [], ◌∷◌, ltb, leb, ◌==◌,
  if◌then◌else◌, get_or, set,
}
use ps_os.MyQueue.{MyQueue, myqueue_push, int_of_size}

abbrev pub work_max : ℕ
work_max = 500

abbrev pub work_min : ℕ
work_min = 100

abbrev pub hive_max : ℕ
hive_max = 500

abbrev pub hive_min : ℕ
hive_min = 100

abbrev pub bear_attack_chance : ℕ
bear_attack_chance = 10

abbrev pub bear_success_chance : ℕ
bear_success_chance = 50

-- `field_geometry_t`
pub record FieldGeometry : Type 0 where
  pub width : ℕ
  pub height : ℕ
  pub number_flowers : ℕ

-- `flower_t`
pub record Flower : Type 0 where
  pub position : ℕ
  pub has_nectar : Bool

-- What a read outside the array gives; the bees never make one.
abbrev pub no_flower : Flower
no_flower = record { position = 0; has_nectar = false }

abbrev pub error_value : ℕ
error_value = 2 ^ 64 - 1

abbrev pub size : ℕ → ℕ
size n = n % 2 ^ 64

-- `result[0..3]`: top, bottom, left, right. (A width of 0 is a division by zero in the source.)
unfoldable pub calculate_positions : ℕ → FieldGeometry → List ℕ
calculate_positions pos dimensions =
    (if leb dimensions.width pos then pos - dimensions.width else error_value)
    ∷ (if ltb (size (pos + dimensions.width)) (size (dimensions.width * dimensions.height))
        then size (pos + dimensions.width)
        else error_value)
    ∷ (if ltb 0 (pos % dimensions.width) then pos - 1 else error_value)
    ∷ (if ltb (pos % dimensions.width) (size (dimensions.width + 2 ^ 64 - 1))
        then size (pos + 1)
        else error_value)
    ∷ []

abbrev pub nectar : List Flower → ℕ → Bool
nectar flower_field pos = (get_or flower_field pos no_flower).has_nectar

-- One round of the loop of `check_nearby_flowers`, while no other bee is at the queue.
abbrev pub report_one : List Flower → ℕ → MyQueue → MyQueue
report_one flower_field p queue =
    if p == error_value
    then queue
    else (if nectar flower_field p then myqueue_push queue (int_of_size p) else queue)

unfoldable pub report_all : List Flower → List ℕ → MyQueue → MyQueue
report_all flower_field [] queue = queue
report_all flower_field (p ∷ ps) queue =
    report_all flower_field ps (report_one flower_field p queue)

unfoldable pub check_nearby_flowers : ℕ → FieldGeometry → List Flower → MyQueue → MyQueue
unfolding report_all
check_nearby_flowers pos dimensions flower_field queue =
    report_all flower_field (calculate_positions pos dimensions) queue

-- `flower_field[pos].has_nectar = false`
abbrev pub take_nectar : List Flower → ℕ → List Flower
take_nectar flower_field pos =
    set flower_field pos (record (get_or flower_field pos no_flower) { has_nectar = false })

pub data SleepEnum : Type 0 where
  hive : SleepEnum
  work : SleepEnum

-- The milliseconds that `sleep_func` waits, for the value that `rand` gives.
unfoldable pub sleep_func : SleepEnum → ℕ → ℕ
sleep_func hive random = random % (hive_max - hive_min + 1) + hive_min
sleep_func work random = random % (work_max - work_min + 1) + work_min

-- `bear_attack`, for the two values that `rand` gives (the second is drawn only if a bear comes).
unfoldable pub bear_attack : ℕ → ℕ → Bool
bear_attack attack success =
    if ltb (attack % 100) bear_attack_chance
    then (if ltb (success % 100) bear_success_chance then false else true)
    else false

-- The arguments that the program is meant for: a field with flowers, whose positions fit an `int`.
pub record IsField (d : FieldGeometry) : Type 0 where
  pub wide : 0 < d.width
  pub high : 0 < d.height
  pub small : d.width * d.height ≤ 2 ^ 31
  pub counted : d.number_flowers ≡ d.width * d.height
