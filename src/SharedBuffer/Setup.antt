-- ===== src/SharedBuffer/Setup.antt =====
-- `main` of exercise05/task2/task2.c and of exercise05/task3/task3.c in the parent: the set-up of the
-- shared memory, its error paths and the clean-up. What the system calls return is an input.
use ps_os.Base.{
  refl, ◌<◌, Option, none, some, ℕ, ◌≡◌, arith, Bool, true, false, not, ◌&&◌, ◌||◌, ◌==◌,
  if◌then◌else◌,
}
use ps_os.SharedBuffer.{
  Config, State, unsigned, is_sem_value, sem_init, init, Step, Reach, start, step,
}

-- Whether `shm_open`, `ftruncate`, `mmap`, the two `sem_init` and the two `fork` succeed.
pub record Calls : Type 0 where
  pub opens : Bool
  pub truncates : Bool
  pub maps : Bool
  pub semaphores_start : Bool
  pub forks : Bool

-- What the process holds: the descriptor, the name in the shared-memory directory, the mapping and the
-- semaphores.
pub record Held : Type 0 where
  pub descriptor : Bool
  pub name : Bool
  pub mapping : Bool
  pub semaphores : Bool

abbrev pub nothing_held : Held
nothing_held = record { descriptor = false; name = false; mapping = false; semaphores = false }

abbrev pub opened : Held
opened = record nothing_held { descriptor = true; name = true }

abbrev pub close : Held → Held
close h = record h { descriptor = false }

abbrev pub shm_unlink : Held → Held
shm_unlink h = record h { name = false }

-- `unlink` looks the name up among the files, where it is not.
abbrev pub unlink : Held → Held
unlink h = h

abbrev pub map_memory : Held → Held
map_memory h = record h { mapping = true }

abbrev pub munmap : Held → Held
munmap h = record h { mapping = false }

abbrev pub start_semaphores : Held → Held
start_semaphores h = record h { semaphores = true }

abbrev pub destroy_semaphores : Held → Held
destroy_semaphores h = record h { semaphores = false }

-- Exactly three arguments, and `K` and `L` are not 0 (as `uint64_t` they are never negative).
abbrev pub arguments_pass : (argc ops cells : ℕ) → Bool
arguments_pass argc ops cells = (argc == 4) && not ((ops == 0) || (cells == 0))

-- The parent in task2.c: the status and what is left. A failed `fork` is not noticed.
unfoldable pub main_unguarded : (argc ops cells : ℕ) → Calls → ℕ × Held
main_unguarded argc ops cells calls =
    if not (arguments_pass argc ops cells)
    then (1, nothing_held)
    else (if not (calls.opens)
        then (1, nothing_held)
        else (if not (calls.truncates)
            then (1, shm_unlink (close opened))
            else (if not (calls.maps)
                then (1, shm_unlink (close opened))
                else (0, shm_unlink (close (munmap (map_memory opened)))))))

-- Whether both semaphores have been started.
abbrev pub semaphores_ready : ℕ → Calls → Bool
semaphores_ready cells calls = calls.semaphores_start && is_sem_value (unsigned cells)

-- What child A finds in the semaphore of the free cells.
abbrev pub free_cells : ℕ → Calls → ℕ
free_cells cells calls = if calls.semaphores_start then sem_init (unsigned cells) else 0

-- The parent in task3.c. A failed `sem_init` is reported, and the program goes on. If child A then
-- finds no free cell, it blocks, as nothing but its own posts lets child B post: the parent waits for
-- ever, without a status.
unfoldable pub main_guarded : (argc ops cells : ℕ) → Calls → Option ℕ × Held
main_guarded argc ops cells calls =
    if not (arguments_pass argc ops cells)
    then (some 1, nothing_held)
    else (if not (calls.opens)
        then (some 1, nothing_held)
        else (if not (calls.truncates)
            then (some 1, unlink (close opened))
            else (if not (calls.maps)
                then (some 1, unlink (close opened))
                else (let ready =
                      (if semaphores_ready cells calls
                        then start_semaphores (map_memory opened)
                        else map_memory opened) in
                    if not (calls.forks)
                    then (some 1, unlink (close ready))
                    else (if free_cells cells calls == 0
                        then (none, ready)
                        else (some 0, shm_unlink (close (munmap (destroy_semaphores ready)))))))))

abbrev pub is_status : ℕ → Option ℕ → Bool
is_status v none = false
is_status v (some w) = w == v

abbrev pub waits_for_ever : Option ℕ → Bool
waits_for_ever none = true
waits_for_ever (some w) = false

-- Where the semaphore of the free cells starts at 0, no run of the children makes a step: the wait of
-- `main_guarded` does not end.
pub starved_stuck :
    {c : Config} {s : State}
    → 0 < c.ops
    → sem_init (unsigned c.cells) ≡ 0
    → Reach c s
    → (s ≡ init c) × ((t : State) → ¬ Step c s t)
starved_stuck {c} {s} pos none_free r = (at_start r, λ t st. blocked (at_start r) st)
  where
    blocked : {s t : State} → s ≡ init c → ¬ Step c s t
    blocked e st = absurd (ground (arith, st))

    at_start : {s : State} → Reach c s → s ≡ init c
    at_start start = refl
    at_start (step r st) = absurd (blocked (at_start r) st)
