-- ===== src/Tracker.antt =====
-- exercise01/task1/includes/memory_tracking.c and .h: the table of live allocations behind the
-- `malloc`, `calloc` and `free` macros of the address book.
pub mod Slots
pub mod Balance
pub mod Errors
use Prim.Native.Nat.{bit_or}
use ps_os.Base.{
  ℕ, zero, suc, ◌+◌, ◌-◌, ◌*◌, ◌%◌, ◌^◌, Bool, true, false, not, ◌&&◌, Option, none, some, List, [],
  ◌∷◌, ◌==◌, if◌then◌else◌, get_or, set, replicate,
}

abbrev pub memory_tracker_size : ℕ
memory_tracker_size = 100

-- `enum error`: the constants count from 0, and are used as bits.
abbrev pub null_free : ℕ
null_free = 0

abbrev pub double_free : ℕ
double_free = 1

abbrev pub max_alloc : ℕ
max_alloc = 2

abbrev pub failed_alloc : ℕ
failed_alloc = 3

-- `memory_t`; address 0 marks a free slot.
pub record Memory : Type 0 where
  pub address : ℕ
  pub size : ℕ
  pub line : ℕ

-- `memory_tracker_t`
pub record MemoryTracker : Type 0 where
  pub memory : List Memory
  pub total_allocated_memory : ℕ
  pub total_freed_memory : ℕ
  pub error : ℕ

abbrev pub free_slot : Memory
free_slot = record { address = 0; size = 0; line = 0 }

-- The global `memory_tracker` at the start of the program.
abbrev pub initial_tracker : MemoryTracker
initial_tracker = record {
  memory = replicate memory_tracker_size free_slot;
  total_allocated_memory = 0;
  total_freed_memory = 0;
  error = 0;
}

-- `size_t`
abbrev pub size_sum : ℕ → ℕ → ℕ
size_sum a b = (a + b) % 2 ^ 64

-- The loop of `find_address`: the index of the first slot with the address.
unfoldable pub find_address : List Memory → ℕ → Option ℕ
find_address [] address = none
find_address (m ∷ ms) address =
    if m.address == address
    then some 0
    else elim (find_address ms address) [ none ↦ none | some i ↦ some (suc i) ]

-- `memory_tracker.error |= e`
abbrev pub raise : MemoryTracker → ℕ → MemoryTracker
raise t e = record t { error = bit_or (t.error) e }

unfoldable pub allocate_memory : MemoryTracker → ℕ → ℕ → ℕ → MemoryTracker
allocate_memory t address size line =
    if address == 0 then raise t failed_alloc else elim (find_address (t.memory) 0) [
      | none ↦ raise t max_alloc
      | some i ↦ record t {
        memory = set (t.memory) i (record { address = address; size = size; line = line % 2 ^ 16 });
        total_allocated_memory = size_sum (t.total_allocated_memory) size;
      }
    ]

-- The result says whether the block was live, so that `my_free` hands it to `free`.
unfoldable pub free_memory : MemoryTracker → ℕ → MemoryTracker × Bool
free_memory t address =
    if address == 0 then (raise t null_free, false) else elim (find_address (t.memory) address) [
      | none ↦ (raise t double_free, false)
      | some i ↦
          let m = get_or (t.memory) i free_slot in
          (
            record t {
              memory = set (t.memory) i (record m { address = 0 });
              total_freed_memory = size_sum (t.total_freed_memory) (m.size);
            },
            true,
          )
    ]

abbrev pub is_memory_leaked : MemoryTracker → Bool
is_memory_leaked t = not (t.total_allocated_memory == t.total_freed_memory)

abbrev pub check_clean_memory_handling : MemoryTracker → Bool
check_clean_memory_handling t = (t.error == 0) && not (is_memory_leaked t)

-- `my_calloc` records the product of its arguments; `my_malloc` is `allocate_memory` itself.
unfoldable pub my_calloc : MemoryTracker → ℕ → ℕ → ℕ → ℕ → MemoryTracker
my_calloc t address num size line = allocate_memory t address (size * num % 2 ^ 64) line

-- A program's calls of the three macros, with the addresses that the allocator gives.
pub data Call : Type 0 where
  malloc : (address size line : ℕ) → Call
  calloc : (address num size line : ℕ) → Call
  free : ℕ → Call

unfoldable pub call : MemoryTracker → Call → MemoryTracker
unfolding my_calloc
call t (malloc address size line) = allocate_memory t address size line
call t (calloc address num size line) = my_calloc t address num size line
call t (free address) = (free_memory t address).0

unfoldable pub calls : MemoryTracker → List Call → MemoryTracker
calls t [] = t
calls t (c ∷ cs) = calls (call t c) cs
