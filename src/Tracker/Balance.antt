-- ===== src/Tracker/Balance.antt =====
-- exercise01/task1/includes/memory_tracking.c: what the two totals and the error bits of the tracker
-- say after any sequence of `malloc`, `calloc` and `free`.
use ps_os.Base.{
  ℕ, ◌+◌, ◌*◌, ◌%◌, ◌^◌, ◌<◌, ◌≡◌, true, List, [], ◌∷◌, arith, get_or, Option-cases, inl, inr,
}
use ps_os.Tracker.{
  Memory, MemoryTracker, free_slot, initial_tracker, memory_tracker_size, find_address,
  allocate_memory, free_memory, check_clean_memory_handling, Call, malloc, calloc, free, call,
  calls,
}
use ps_os.Tracker.Slots.{find_address-some, live, live-set, live-free}

-- What was allocated is what was freed and what is live, modulo 2^64.
abbrev pub Balanced : MemoryTracker → Type 0
Balanced t = t.total_allocated_memory ≡ (t.total_freed_memory + live (t.memory)) % 2 ^ 64

allocate_memory-Balanced :
    (t : MemoryTracker) (address size line : ℕ)
    → Balanced t
    → Balanced (allocate_memory t address size line)
unfolding allocate_memory
allocate_memory-Balanced t address size line b = elim (Option-cases (find_address (t.memory) 0)) [
  | inl full ↦ ground arith
  | inr (i, found) ↦
      let new : Memory = record { address = address; size = size; line = line % 2 ^ 16 } in
      let (lt, is_free) = find_address-some (t.memory) 0 i found in
      ground (arith, live-set (t.memory) i new lt)
]

free_memory-Balanced :
    (t : MemoryTracker) (address : ℕ) → Balanced t → Balanced (free_memory t address).0
unfolding free_memory
free_memory-Balanced t address b = elim (Option-cases (find_address (t.memory) address)) [
  | inl absent ↦ ground arith
  | inr (i, found) ↦
      let freed : Memory = record (get_or (t.memory) i free_slot) { address = 0 } in
      let (lt, is_here) = find_address-some (t.memory) address i found in
      ground (arith, live-set (t.memory) i freed lt)
]

call-Balanced : (t : MemoryTracker) (c : Call) → Balanced t → Balanced (call t c)
unfolding call
call-Balanced t (malloc address size line) b = allocate_memory-Balanced t address size line b
call-Balanced t (calloc address num size line) b =
    allocate_memory-Balanced t address (size * num % 2 ^ 64) line b
call-Balanced t (free address) b = free_memory-Balanced t address b

calls-Balanced : (t : MemoryTracker) (cs : List Call) → Balanced t → Balanced (calls t cs)
unfolding calls
calls-Balanced t [] b = b
calls-Balanced t (c ∷ cs) b = calls-Balanced (call t c) cs (call-Balanced t c b)

-- The report is clean after any calls only if nothing is live: every byte that was allocated has
-- been freed.
pub clean_means_freed :
    (cs : List Call)
    → live (calls initial_tracker cs).memory < 2 ^ 64
    → check_clean_memory_handling (calls initial_tracker cs) ≡ true
    → live (calls initial_tracker cs).memory ≡ 0
clean_means_freed cs small clean =
    ground (arith, calls-Balanced initial_tracker cs (omega (arith, live-free memory_tracker_size)))
