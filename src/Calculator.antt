-- ===== src/Calculator.antt =====
-- exercise03/task2/calculator.c: an operator and operands on the command line. The `double`s, with
-- `strtod`, are a parameter.
pub mod Reference
use ps_os.Base.{
  ℕ, zero, suc, ◌+◌, ◌-◌, Bool, true, false, not, List, [], ◌∷◌, Option, none, some, ◌==◌, leb,
  if◌then◌else◌, length, get_or,
}
use ps_os.Plugins.{CString}

pub record Doubles : Type 1 where
  pub Double : Type 0
  pub add : Double → Double → Double
  pub sub : Double → Double → Double
  pub mul : Double → Double → Double
  pub div : Double → Double → Double
  pub zero_value : Double
  pub is_zero : Double → Bool  -- `x == 0`
  pub strtod : CString → Double × CString  -- with the text at `end`

abbrev pub to_few_argument_error : ℕ
to_few_argument_error = 13

abbrev pub unknown_operator_error : ℕ
unknown_operator_error = 42

abbrev pub not_number_error : ℕ
not_number_error = 15

abbrev pub divide_by_zero_error : ℕ
divide_by_zero_error = 16

-- The first character of a string, its terminator where it is empty.
abbrev pub first : CString → ℕ
first s = get_or s 0 0

-- `strcmp(end, "") == 0`
abbrev pub is_empty : CString → Bool
is_empty [] = true
is_empty (c ∷ s) = false

unfoldable pub check_operator : CString → Bool
check_operator operator =
    if first operator == b'+'
    then true
    else if first operator == b'-'
    then true
    else if first operator == b'*'
    then true
    else if first operator == b'/'
    then true
    else false

module _ (D : Doubles) where
  -- The status of `main` and the number that it prints.
  pub record Outcome : Type 0 where
    pub status : ℕ
    pub result : Option (D.Double)

  -- The loop from index `i`, with the values from there on where it returns true.
  unfoldable pub convert_str_double : List CString → ℕ → ℕ → Option (List D.Double)
  convert_str_double input zero i = some []
  convert_str_double input (suc rounds) i =
      let (value, end) = D.strtod (get_or input (i + 2) []) in
      let rest = convert_str_double input rounds (i + 1) in
      if is_empty end then elim rest [ none ↦ none | some values ↦ some (value ∷ values) ] else none

  -- For what `getenv` returns.
  unfoldable pub check_offset : Option CString → D.Double
  check_offset none = D.zero_value
  check_offset (some env) =
      let (offset, end) = D.strtod env in if is_empty end then offset else D.zero_value

  -- The loops of `calculate` for `+`, `-` and `*`, with `tmp`.
  unfoldable pub operate_loop :
      (D.Double → D.Double → D.Double) → List D.Double → ℕ → ℕ → D.Double → D.Double
  operate_loop op input zero i tmp = tmp
  operate_loop op input (suc rounds) i tmp =
      operate_loop op input rounds (i + 1) (op tmp (get_or input i D.zero_value))

  unfoldable pub divide_loop : List D.Double → ℕ → ℕ → D.Double → Option (D.Double)
  divide_loop input zero i tmp = some tmp
  divide_loop input (suc rounds) i tmp =
      let rest = divide_loop input rounds (i + 1) (D.div tmp (get_or input i D.zero_value)) in
      if D.is_zero (get_or input i D.zero_value) then none else rest

  unfoldable pub calculate : List D.Double → CString → ℕ → Option (D.Double)
  calculate input operator len =
      let tmp = get_or input 0 D.zero_value in
      if first operator == b'+'
      then some (operate_loop D.add input (len - 1) 1 tmp)
      else if first operator == b'-'
      then some (operate_loop D.sub input (len - 1) 1 tmp)
      else if first operator == b'*'
      then some (operate_loop D.mul input (len - 1) 1 tmp)
      else if first operator == b'/'
      then divide_loop input (len - 1) 1 tmp
      else some tmp

  -- What `main` does once the arguments are numbers.
  unfoldable pub print_result : List CString → D.Double → List D.Double → Outcome
  print_result argv offset values =
      if length argv == 3
      then record { status = 0; result = some (D.add (get_or values 0 D.zero_value) offset) }
      else elim (calculate values (get_or argv 1 []) (length argv - 2)) [
        | none ↦ record { status = divide_by_zero_error; result = none }
        | some result ↦ record { status = 0; result = some (D.add result offset) }
      ]

  unfoldable pub main : List CString → Option CString → Outcome
  main argv env =
      if leb (length argv) 2
      then record { status = to_few_argument_error; result = none }
      else if not (check_operator (get_or argv 1 []))
      then record { status = unknown_operator_error; result = none }
      else elim (convert_str_double argv (length argv - 2) 0) [
        | none ↦ record { status = not_number_error; result = none }
        | some values ↦ print_result argv (check_offset env) values
      ]
