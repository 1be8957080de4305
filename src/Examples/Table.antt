-- ===== src/Examples/Table.antt =====
-- exercise07/task2: the first philosopher sits down and eats.
use ps_os.Base.{ℕ, some, ◌*◌, ◌≤◌, ◌≡◌, ◌⊎◌, refl, arith, ℕ_discrete}
use ps_os.Philosophers.{
  one_chopstick, eating, Table, init, move, first_lock, second_lock, lock_first, lock_second, Reach,
  start, step, Finished,
}
use ps_os.Philosophers.Exclusion.{chopstick_exclusive}
use ps_os.Philosophers.Progress.{CanStep, no_deadlock, steps_taken, dinner_ends}

abbrev sat_down : Table
sat_down = move init 0 (one_chopstick 0) (first_lock 0) (some 0)

abbrev first_eats : Table
first_eats = move sat_down 0 (eating 0) (second_lock 0) (some 0)

first_eats-Reach : Reach first_eats
unfolding ℕ_discrete
first_eats-Reach =
    step (step start (lock_first 0 0 (omega arith) refl (omega arith) refl refl))
      (lock_second 0 0 (omega arith) refl refl refl)

chopstick_exclusive_example : ◌≡◌ {A = ℕ} 0 0
unfolding ℕ_discrete
chopstick_exclusive_example =
    chopstick_exclusive first_eats-Reach 1 0 0 (omega arith) (omega arith) refl refl

no_deadlock_example : CanStep first_eats ⊎ Finished first_eats
no_deadlock_example = no_deadlock first_eats-Reach

dinner_ends_example : steps_taken first_eats-Reach ≤ 10 * (4 * 5000)
dinner_ends_example = dinner_ends first_eats-Reach
