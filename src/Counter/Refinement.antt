-- ===== src/Counter/Refinement.antt =====
-- exercise06/task1: the counter under a mutex behaves as the one with atomic additions.
use ps_os.Base.{ℕ, ◌+◌, ◌%◌, ◌^◌, ◌≡◌, sym, subst, arith, ◌⊎◌, inl, inr, update}
use ps_os.Counter.{Shared, Step, lock, load, store, unlock, Reach, start, step}
use ps_os.Counter.Total.{added, Inv, Reach-Inv}
use ps_os.Counter.Atomic

-- The view of a client: the counter and how many additions each thread has made.
abbrev pub abstract : Shared → Atomic.Shared
abstract s = record { counter = s.counter; index = λ j. added (s.place j) }

-- A view is its counter and its indices.
abstract_ext :
    (t : Shared) (counter : ℕ) (index : ℕ → ℕ)
    → t.counter ≡ counter
    → ((k : ℕ) → added (t.place k) ≡ index k)
    → abstract t ≡ record { counter = counter; index = index }
abstract_ext t counter index hc hi = λ i. record { counter = hc i; index = λ k. hi k i }

module _ {s t : Shared} (inv : Inv s) where
  Step-abstract : Step s t → (abstract t ≡ abstract s) ⊎ Atomic.Step (abstract s) (abstract t)
  Step-abstract (lock j i lt at more free e) =
      inl (abstract_ext t s.counter (abstract s).index (ground arith) (λ k. ground arith))
  Step-abstract (load j i lt at e) =
      inl (abstract_ext t s.counter (abstract s).index (ground arith) (λ k. ground arith))
  Step-abstract (store j i v lt at e) = inr (
      Atomic.fetch_add j lt (ground (arith, inv.bounded j lt)) (
        abstract_ext t ((s.counter + Atomic.increase (added (s.place j))) % 2 ^ 32)
          (update (λ k. added (s.place k)) j (added (s.place j) + 1))
          (ground (arith, inv.current j lt)) (λ k. ground arith)))
  Step-abstract (unlock j i lt at e) =
      inl (abstract_ext t s.counter (abstract s).index (ground arith) (λ k. ground arith))

-- The program with the mutex refines the one with atomic additions: a step of a reachable state is
-- for a client either no step or one atomic addition, so whatever the locks allow, a run with atomic
-- additions shows the same counter and the same number of additions of each thread.
pub mutex_refines_atomic :
    {s : Shared}
    → Reach s
    → Atomic.Reach (abstract s)
      × ((t : Shared)
          → Step s t
          → (abstract t ≡ abstract s) ⊎ Atomic.Step (abstract s) (abstract t))
mutex_refines_atomic start = (Atomic.start, λ t st. Step-abstract (Reach-Inv start) st)
mutex_refines_atomic (step {s} {t} r st) = (
  elim ((mutex_refines_atomic r).1 t st) [
    | inl same ↦ subst Atomic.Reach (sym same) (mutex_refines_atomic r).0
    | inr add ↦ Atomic.step (mutex_refines_atomic r).0 add
  ],
  λ u. Step-abstract (Reach-Inv (step r st)),
)
