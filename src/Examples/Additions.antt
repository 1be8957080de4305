-- ===== src/Examples/Additions.antt =====
-- exercise06/task1: one addition of the fourth thread.
use ps_os.Base.{◌≡◌, refl, arith, sum_below, ℕ_discrete, ◌⊎◌}
use ps_os.Counter.{threads, Shared, lock, load, store, unlock, Step, Reach, start, step}
use ps_os.Counter.Atomic
use ps_os.Counter.Refinement.{abstract, mutex_refines_atomic}
use ps_os.Counter.Total.{share, no_update_lost}

added_once : (s : Shared) × Reach s × (s.counter ≡ 42)
unfolding ℕ_discrete
added_once =
    let locked = step start (lock 3 0 (omega arith) refl (omega arith) refl refl) in
    let loaded = step locked (load 3 0 (omega arith) refl refl) in
    let stored = step loaded (store 3 0 0 (omega arith) refl refl) in
    (_, step stored (unlock 3 0 (omega arith) refl refl), refl)

no_update_lost_example : added_once.0.counter ≡ sum_below share threads added_once.0.place
no_update_lost_example = no_update_lost added_once.1

mutex_refines_atomic_example :
    Atomic.Reach (abstract added_once.0)
    × ((t : Shared)
        → Step added_once.0 t
        → (abstract t ≡ abstract added_once.0) ⊎ Atomic.Step (abstract added_once.0) (abstract t))
mutex_refines_atomic_example = mutex_refines_atomic added_once.1
