-- ===== src/Tracker/Errors.antt =====
-- exercise01/task1/includes/memory_tracking.c: which misuses the error bits of the tracker remember.
use Prim.Native.Nat.{bit_or}
use ps_os.Base.{
  ℕ, zero, suc, ◌*◌, ◌%◌, ◌^◌, ◌<◌, ◌≡◌, ◌≢◌, ◌⊎◌, refl, ap, Bool, true, false, not, ◌&&◌, ◌||◌,
  none, some, List, [], ◌∷◌, arith, ltb, ◌==◌, set, length, get_or-set_self, all_below,
  all_below_sound,
}
use ps_os.Tracker.{
  Memory, MemoryTracker, free_slot, null_free, double_free, max_alloc, failed_alloc, size_sum,
  raise, find_address, allocate_memory, free_memory, check_clean_memory_handling, Call, malloc,
  calloc, free, call, calls,
}
use ps_os.Tracker.Slots.{find_address-some}

-- The error constants are two bits, a bit that is set stays set, and 0 sets none.
abbrev error_cell : ℕ → ℕ → Bool
error_cell e k =
    ltb (bit_or e k) 4
    && (((e == 0) || not (bit_or e k == 0))
        && (((k == 0) || not (bit_or e k == 0)) && (not (k == 0) || (bit_or e k == e))))

error_table : all_below 4 (λ e. all_below 4 (λ k. error_cell e k)) ≡ true
unfolding all_below
error_table = refl

record Raised (e k e' : ℕ) : Type 0 where
  small : e' < 4
  keeps : (e ≡ 0) ⊎ (e' ≢ 0)
  sets : (k ≡ 0) ⊎ (e' ≢ 0)
  nothing : (k ≢ 0) ⊎ (e' ≡ e)

raise_lem : (e k : ℕ) → e < 4 → k < 4 → Raised e k (bit_or e k)
raise_lem e k p q = ground (arith, cell)
  where
    cell : error_cell e k ≡ true
    cell =
        all_below_sound 4 (λ k. error_cell e k) k
          (all_below_sound 4 (λ e. all_below 4 (λ k. error_cell e k)) e error_table p) q

-- The bits stay small, and once one is set the report is never clean again.
abbrev Kept : MemoryTracker → MemoryTracker → Type 0
Kept t t' = (t'.error < 4) × ((t.error ≡ 0) ⊎ (t'.error ≢ 0))

allocate_memory-Kept :
    (t : MemoryTracker) (address size line : ℕ)
    → t.error < 4
    → Kept t (allocate_memory t address size line)
unfolding allocate_memory
allocate_memory-Kept t address size line h = ground (
  arith,
  raise_lem (t.error) failed_alloc h (omega arith),
  raise_lem (t.error) max_alloc h (omega arith),
)

free_memory-Kept :
    (t : MemoryTracker) (address : ℕ) → t.error < 4 → Kept t (free_memory t address).0
unfolding free_memory
free_memory-Kept t address h = ground (
  arith,
  raise_lem (t.error) null_free h (omega arith),
  raise_lem (t.error) double_free h (omega arith),
)

call-Kept : (t : MemoryTracker) (c : Call) → t.error < 4 → Kept t (call t c)
unfolding call
call-Kept t (malloc address size line) h = allocate_memory-Kept t address size line h
call-Kept t (calloc address num size line) h =
    allocate_memory-Kept t address (size * num % 2 ^ 64) line h
call-Kept t (free address) h = free_memory-Kept t address h

calls-Kept : (t : MemoryTracker) (cs : List Call) → t.error < 4 → Kept t (calls t cs)
unfolding calls
calls-Kept t [] h = ground arith
calls-Kept t (c ∷ cs) h = ground (arith, call-Kept t c h, calls-Kept (call t c) cs)

free_memory-absent :
    (t : MemoryTracker) (address : ℕ)
    → t.error < 4
    → address ≢ 0
    → find_address (t.memory) address ≡ none
    → (free_memory t address).0.error ≢ 0
unfolding free_memory
free_memory-absent t address h ne absent =
    ground (arith, raise_lem (t.error) double_free h (omega arith))

-- Freeing a block that is not live is reported, whatever calls follow.
pub double_free_reported :
    (t : MemoryTracker) (address : ℕ) (after : List Call)
    → t.error < 4
    → address ≢ 0
    → find_address (t.memory) address ≡ none
    → check_clean_memory_handling (calls t (free address ∷ after)) ≡ false
unfolding calls call
double_free_reported t address after h ne absent =
    let marked = free_memory-absent t address h ne absent in
    ground
      (arith, marked, calls-Kept (free_memory t address).0 after (free_memory-Kept t address h).0)

-- Freeing `NULL` is not reported: the constant for it is 0, which sets no bit, so the call changes
-- nothing.
null_free_unnoticed :
    (t : MemoryTracker) (after : List Call) → t.error < 4 → calls t (free 0 ∷ after) ≡ calls t after
unfolding calls call free_memory
null_free_unnoticed t after h = ap (λ t'. calls t' after) same
  where
    same : raise t null_free ≡ t
    same = ground (arith, raise_lem (t.error) null_free h (omega arith))

find_address-set :
    (ms : List Memory) (i : ℕ) (m : Memory)
    → find_address ms (m.address) ≡ none
    → i < length ms
    → find_address (set ms i m) (m.address) ≡ some i
unfolding find_address
find_address-set [] i m absent lt = absurd (omega arith)
find_address-set (x ∷ ms) zero m absent lt = ground arith
find_address-set (x ∷ ms) (suc i) m absent lt = ground (arith, find_address-set ms i m)

-- A block that has been recorded can be freed: while a slot is free, `free` of the address that
-- `malloc` has just given succeeds, reports nothing and counts the bytes that `malloc` counted.
free-allocate :
    (t : MemoryTracker) (address size line i : ℕ)
    → address ≢ 0
    → find_address (t.memory) 0 ≡ some i
    → find_address (t.memory) address ≡ none
    → ((free_memory (allocate_memory t address size line) address).1 ≡ true)
      × ((free_memory (allocate_memory t address size line) address).0.error ≡ t.error)
      × ((free_memory (allocate_memory t address size line) address).0.total_freed_memory
          ≡ size_sum (t.total_freed_memory) size)
unfolding free_memory allocate_memory
free-allocate t address size line i ne room absent =
    let new : Memory = record { address = address; size = size; line = line % 2 ^ 16 } in
    let (lt, is_free) = find_address-some (t.memory) 0 i room in
    ground (
      arith,
      find_address-set (t.memory) i new absent lt,
      get_or-set_self (t.memory) i new free_slot lt,
    )
