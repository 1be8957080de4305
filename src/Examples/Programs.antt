-- ===== src/Examples/Programs.antt =====
-- exercise10/task2, exercise07/task3, exercise04/task1 and exercise03/task2 on small inputs.
use ps_os.Base.{
  ℕ, ◌+◌, ◌-◌, ◌*◌, ◌/◌, ◌≤◌, ◌<◌, ◌≡◌, refl, arith, List, [], ◌∷◌, Option, none, some, map,
  replicate, length-replicate, ◌==◌, if◌then◌else◌, length,
}
use ps_os.Plugins.{CString, toupper}
use ps_os.Roulette
use ps_os.Roulette.Chances.{main_results_lem}
use ps_os.Shift
use ps_os.Shift.Rotation.{line_of, main-line_of}
use ps_os.Calculator
use ps_os.Calculator.Reference.{main-run, run}
use ps_os.Scheduler.{isdigit}

-- The seed, and the next one.
abbrev count_up : ℕ → ℕ × ℕ
count_up seed = (seed, seed + 1)

main_results_lem_example :
    let results = Roulette.simulate_bets_on_black count_up in
    let (least, most) = Roulette.main_results count_up in
    ((j : ℕ) → j < Roulette.num_evaluations → (least ≤ results j) × (results j ≤ most))
    × ((j : ℕ) × (j < Roulette.num_evaluations) × (results j ≡ least))
    × ((j : ℕ) × (j < Roulette.num_evaluations) × (results j ≡ most))
    × (most ≤ Roulette.num_spins)
main_results_lem_example = main_results_lem count_up

-- Every block holds sevens.
abbrev sevens : ℕ → ℕ → Option (List ℕ)
sevens calls n = some (replicate n 7)

sevens_enough : (calls n : ℕ) → (b : List ℕ) × (sevens calls n ≡ some b) × (length b ≡ n)
sevens_enough calls n = (replicate n 7, refl, length-replicate n 7)

abbrev words : List CString
words = (b'a' ∷ b'b' ∷ b'c' ∷ []) ∷ (b'x' ∷ []) ∷ []

shift_runs :
    Shift.main sevens words
    ≡ Shift.success (
        record {
          original = b'a' ∷ b'b' ∷ b'c' ∷ [];
          uppercased = b'A' ∷ b'B' ∷ b'C' ∷ [];
          shifted = b'b' ∷ b'c' ∷ b'a' ∷ [];
        }
        ∷ record { original = b'x' ∷ []; uppercased = b'X' ∷ []; shifted = b'x' ∷ [] }
        ∷ [])
unfolding Shift.main Shift.copy_arguments Shift.join_threads Shift.string_shift_right
    Shift.upper_loop Shift.shift_loop toupper
shift_runs = refl

main-line_of_example : Shift.main sevens words ≡ Shift.success (map line_of words)
main-line_of_example = main-line_of sevens sevens_enough words (omega arith)

-- Natural numbers, read from one digit.
abbrev digit : CString → ℕ × CString
digit [] = (0, [])
digit (c ∷ s) = if isdigit c then (c - b'0', s) else (0, c ∷ s)

abbrev naturals : Calculator.Doubles
naturals = record {
  Double = ℕ;
  add = λ a b. a + b;
  sub = λ a b. a - b;
  mul = λ a b. a * b;
  div = λ a b. a / b;
  zero_value = 0;
  is_zero = λ a. a == 0;
  strtod = digit;
}

-- The program with an operator, and the operands 8, 4 and 0.
abbrev call : CString → List CString
call operator = [] ∷ operator ∷ (b'8' ∷ []) ∷ (b'4' ∷ []) ∷ (b'0' ∷ []) ∷ []

calculator_runs :
    (Calculator.main naturals (call (b'+' ∷ [])) none ≡ record { status = 0; result = some 12 })
    × (Calculator.main naturals (call (b'/' ∷ [])) none ≡ record { status = 16; result = none })
unfolding Calculator.main Calculator.check_operator Calculator.convert_str_double
    Calculator.print_result Calculator.calculate Calculator.operate_loop Calculator.check_offset
    Calculator.divide_loop
calculator_runs = (refl, refl)

main-run_example :
    Calculator.main naturals (call (b'-' ∷ [])) none ≡ run naturals (call (b'-' ∷ [])) none
main-run_example = main-run naturals (call (b'-' ∷ [])) none
