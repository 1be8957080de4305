-- ===== src/Examples/Buffer.antt =====
-- exercise05: a ring of one cell that carries one number, 7.
use ps_os.Base.{true, false, ◌*◌, ◌%◌, ◌^◌, ◌≤◌, ◌<◌, ◌≡◌, ◌⊎◌, ◌↔◌, refl, arith, ◌∷◌, []}
use ps_os.SharedBuffer.Setup.{Calls}
use ps_os.SharedBuffer.{
  Config, State, wait_free, wait_filled, init, Finished, producer_wait, producer_store,
  producer_post, consumer_wait, consumer_fetch, consumer_add, consumer_post, Reach, start, step,
}
use ps_os.SharedBuffer.Checksum.{validate_result, sum_to}
use ps_os.SharedBuffer.Invariant.{IsConfig, ring_result}
use ps_os.SharedBuffer.Progress.{CanStep, children_progress, steps_taken, buffer_run_ends}
use ps_os.SharedBuffer.Unguarded.{Unguarded, UnguardedReach, load, unguarded_loses_sum}

abbrev one_seven : Config
one_seven = record { factor = 7; ops = 1; cells = 1 }

one_seven-IsConfig : IsConfig one_seven
one_seven-IsConfig = omega arith

abbrev last_state : State
last_state = record {
  mem = record { result = 7; filled = 0; free = 1; buffer = 7 ∷ [] };
  producer = wait_free 2;
  consumer = wait_filled 2;
}

-- Child A passes its loop, then child B.
last_state-Reach : Reach one_seven last_state
last_state-Reach =
    step
      (step
        (step
          (step
            (step
              (step (step start (producer_wait 1 refl (omega arith) (omega arith) refl))
                (producer_store 1 refl refl))
              (producer_post 1 refl refl))
            (consumer_wait 1 refl (omega arith) (omega arith) refl))
          (consumer_fetch 1 refl refl))
        (consumer_add 1 7 refl refl))
      (consumer_post 1 refl refl)

ring_result_example :
    (last_state.mem.result ≡ sum_to 7 1 % 2 ^ 64)
    × (validate_result (last_state.mem.result) 1 7 ≡ 0)
ring_result_example = ring_result one_seven-IsConfig last_state-Reach (omega arith, omega arith)

children_progress_example : CanStep one_seven (init one_seven) ⊎ Finished one_seven (init one_seven)
children_progress_example = children_progress one_seven-IsConfig (omega arith) start

buffer_run_ends_example : steps_taken last_state-Reach ≤ 7 * 1
buffer_run_ends_example = buffer_run_ends one_seven-IsConfig last_state-Reach

checksum_runs : validate_result 18 3 3 ≡ 0
unfolding validate_result
checksum_runs = refl

unguarded_loses_sum_example :
    (s : Unguarded) × UnguardedReach one_seven s
    × (1 < s.populating)
    × (s.summing ≡ load 2)
    × (s.result ≡ 0)
    × ((validate_result s.result 1 7 ≡ 0) ↔ (0 ≡ sum_to 7 1 % 2 ^ 64))
unguarded_loses_sum_example = unguarded_loses_sum one_seven-IsConfig

-- A run of task3.c whose second `fork` fails.
abbrev no_fork : Calls
no_fork = record {
  opens = true;
  truncates = true;
  maps = true;
  semaphores_start = true;
  forks = false;
}
