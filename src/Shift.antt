-- ===== src/Shift.antt =====
-- exercise04/task1/task1.c: each thread takes a copy of one argument, returns it shifted two places
-- to the right, in a block of its own, and writes the copy in upper case. A `char*` to a whole block
-- is the list of its bytes.
pub mod Loops
pub mod Rotation
use ps_os.Base.{
  ℕ, zero, suc, ◌+◌, ◌%◌, List, [], ◌∷◌, Option, none, some, length, get_or, set, ◌>>=◌,
}
use ps_os.Plugins.{CString, c_str, toupper}

-- The first loop, with the rounds left, `char_index` and `shifted_input`.
unfoldable pub shift_loop : CString → ℕ → ℕ → List ℕ → List ℕ
shift_loop input zero char_index shifted_input = shifted_input
shift_loop input (suc rounds) char_index shifted_input =
    shift_loop input rounds (char_index + 1)
      (set shifted_input ((char_index + 2) % length input) (get_or input char_index 0))

-- The second loop, which writes `input`.
unfoldable pub upper_loop : ℕ → ℕ → CString → CString
upper_loop zero char_index input = input
upper_loop (suc rounds) char_index input =
    upper_loop rounds (char_index + 1) (set input char_index (toupper (get_or input char_index 0)))

-- The input afterwards and the block that is returned, for a block as `malloc` returns it.
unfoldable pub string_shift_right : List ℕ → CString → CString × List ℕ
string_shift_right block input =
    (upper_loop input_length 0 input, set (shift_loop input input_length 0 block) input_length 0)
  where
    input_length : ℕ
    input_length = length input

-- The three strings that are printed of an argument.
pub record Line : Type 0 where
  pub original : CString
  pub uppercased : CString
  pub shifted : CString

pub data Outcome : Type 0 where
  success : List Line → Outcome
  failure : Outcome  -- `exit(EXIT_FAILURE)`
  null_write : Outcome  -- a thread writes through the null pointer

-- `malloc` of a number of bytes, the counter telling its calls apart.
module _ (malloc : ℕ → ℕ → Option (List ℕ)) where
  -- The copies of the arguments, or none where one is not allocated.
  unfoldable pub copy_arguments : ℕ → List CString → Option (List CString)
  copy_arguments calls [] = some []
  copy_arguments calls (arg ∷ argv) = do
    rest ← copy_arguments (calls + 1) argv
    block ← malloc calls (length arg + 1)
    some (arg ∷ rest)

  -- What the threads leave behind, joined in order. They share no memory.
  unfoldable pub join_threads : ℕ → List CString → List CString → Outcome
  join_threads calls [] shared_strings = success []
  join_threads calls (arg ∷ argv) [] = success []
  join_threads calls (arg ∷ argv) (shared ∷ shared_strings) =
      elim (malloc calls (length shared + 1)) [
        | none ↦ null_write
        | some block ↦
            let (upper, shifted) = string_shift_right block shared in
            elim (join_threads (calls + 1) argv shared_strings) [
              | success lines ↦
                  success
                    (record { original = arg; uppercased = upper; shifted = c_str shifted } ∷ lines)
              | o ↦ o
            ]
      ]

  unfoldable pub main : List CString → Outcome
  main argv = elim (copy_arguments 0 argv) [
    | none ↦ failure
    | some shared_strings ↦ join_threads (length argv) argv shared_strings
  ]
