-- ===== src/Examples/Tracking.antt =====
-- exercise01/task1/includes/memory_tracking.c: the tracker on two blocks.
use ps_os.Base.{◌^◌, ◌<◌, ◌≡◌, refl, true, false, none, some, List, [], ◌∷◌, arith}
use ps_os.Tracker.{
  MemoryTracker, initial_tracker, find_address, allocate_memory, free_memory,
  check_clean_memory_handling, my_calloc, Call, malloc, calloc, free, call, calls,
}
use ps_os.Tracker.Slots.{live}
use ps_os.Tracker.Balance.{clean_means_freed}
use ps_os.Tracker.Errors.{double_free_reported}

-- Two blocks, freed in the order in which they were allocated.
abbrev tidy : List Call
tidy = malloc 4096 24 60 ∷ calloc 8192 4 8 71 ∷ free 4096 ∷ free 8192 ∷ []

tidy_is_clean : check_clean_memory_handling (calls initial_tracker tidy) ≡ true
unfolding calls call my_calloc allocate_memory free_memory find_address
tidy_is_clean = refl

tidy_is_small : live (calls initial_tracker tidy).memory < 2 ^ 64
unfolding calls call my_calloc allocate_memory free_memory find_address
tidy_is_small = omega arith

clean_means_freed_example : live (calls initial_tracker tidy).memory ≡ 0
clean_means_freed_example = clean_means_freed tidy tidy_is_small tidy_is_clean

-- One live block of 24 bytes.
abbrev one_block : MemoryTracker
one_block = allocate_memory initial_tracker 4096 24 60

one_block_lacks_8192 : find_address (one_block.memory) 8192 ≡ none
unfolding allocate_memory find_address
one_block_lacks_8192 = refl

one_block_room : find_address (one_block.memory) 0 ≡ some 1
unfolding allocate_memory find_address
one_block_room = refl

one_block_error : one_block.error < 4
unfolding allocate_memory find_address
one_block_error = omega arith

double_free_reported_example :
    check_clean_memory_handling (calls one_block (free 8192 ∷ free 4096 ∷ [])) ≡ false
double_free_reported_example =
    double_free_reported one_block 8192 (free 4096 ∷ []) one_block_error (omega arith)
      one_block_lacks_8192
