-- ===== src/Calculator/Reference.antt =====
-- exercise03/task2/calculator.c: the whole program as a recursion on its arguments.
use ps_os.Base.{
  ℕ, zero, suc, ◌+◌, ◌-◌, ◌≡◌, refl, ap, Bool, true, false, ◌&&◌, ◌||◌, List, [], ◌∷◌, Option, none,
  some, arith, ◌==◌, if◌then◌else◌, length, get_or, elem, Bool-cases, inl, inr, Option-cases, ◌>>=◌,
}
use ps_os.Plugins.{CString}
use ps_os.Calculator.{
  Doubles, to_few_argument_error, unknown_operator_error, not_number_error, divide_by_zero_error,
  first, is_empty, check_operator, Outcome, convert_str_double, check_offset, operate_loop,
  divide_loop, calculate, print_result, main,
}

-- The operator that a character stands for.
abbrev pub operators : List ℕ
operators = b'+' ∷ b'-' ∷ b'*' ∷ b'/' ∷ []

module _ (D : Doubles) where
  abbrev pub operation : ℕ → D.Double → D.Double → D.Double
  operation c =
      if c == b'+' then D.add else if c == b'-' then D.sub else if c == b'*' then D.mul else D.div

  -- The operands, where each is a number up to its end.
  abbrev pub operands : List CString → Option (List D.Double)
  operands [] = some []
  operands (arg ∷ args) =
      if is_empty (D.strtod arg).1
      then (operands args >>= λ values. some ((D.strtod arg).0 ∷ values))
      else none

  abbrev pub any_zero : List D.Double → Bool
  any_zero [] = false
  any_zero (x ∷ xs) = D.is_zero x || any_zero xs

  abbrev pub fold_left : (D.Double → D.Double → D.Double) → D.Double → List D.Double → D.Double
  fold_left op x [] = x
  fold_left op x (y ∷ ys) = fold_left op (op x y) ys

  abbrev pub finish : ℕ → D.Double → List D.Double → Outcome D
  finish c offset [] = record { status = not_number_error; result = none }
  finish c offset (x ∷ xs) =
      if (c == b'/') && any_zero xs
      then record { status = divide_by_zero_error; result = none }
      else record { status = 0; result = some (D.add (fold_left (operation c) x xs) offset) }

  -- The program: too few arguments, then the operator, then the operands, then the division by zero.
  abbrev pub run : List CString → Option CString → Outcome D
  run (name ∷ operator ∷ arg ∷ args) env =
      if elem (first operator) operators
      then elim (operands (arg ∷ args)) [
        | none ↦ record { status = not_number_error; result = none }
        | some values ↦ finish (first operator) (check_offset D env) values
      ]
      else record { status = unknown_operator_error; result = none }
  run _ env = record { status = to_few_argument_error; result = none }

  -- A list from an index on.
  abbrev From {ℓ} : {A : Type ℓ} → List A → ℕ → List A → A → Type ℓ
  From input i xs d = (j k : ℕ) → i + k ≡ j → get_or input j d ≡ get_or xs k d

  convert_str_double-operands :
      (argv args : List CString) (i : ℕ)
      → From argv (i + 2) args []
      → convert_str_double D argv (length args) i ≡ operands args
  unfolding convert_str_double
  convert_str_double-operands argv [] i h = refl
  convert_str_double-operands argv (arg ∷ args) i h = ground (
    arith,
    head,
    convert_str_double-operands argv args (i + 1) (λ j k e. h j (suc k) (omega arith)),
  )
    where
      head : get_or argv (i + 2) [] ≡ arg
      head = h (i + 2) 0 (omega arith)

  operate_loop-fold :
      (op : D.Double → D.Double → D.Double) (input xs : List D.Double) (i : ℕ) (tmp : D.Double)
      → From input i xs D.zero_value
      → operate_loop D op input (length xs) i tmp ≡ fold_left op tmp xs
  unfolding operate_loop
  operate_loop-fold op input [] i tmp h = refl
  operate_loop-fold op input (x ∷ xs) i tmp h =
      rw (operate_loop, h i 0 (omega arith))
        (operate_loop-fold op input xs (i + 1) (op tmp x) (λ j k e. h j (suc k) (omega arith)))

  divide_loop-fold :
      (input xs : List D.Double) (i : ℕ) (tmp : D.Double)
      → From input i xs D.zero_value
      → divide_loop D input (length xs) i tmp
        ≡ (if any_zero xs then none else some (fold_left D.div tmp xs))
  unfolding divide_loop
  divide_loop-fold input [] i tmp h = refl
  divide_loop-fold input (x ∷ xs) i tmp h =
      rw
        (
          h i 0 (omega arith),
          divide_loop-fold input xs (i + 1) (D.div tmp x) (λ j k e. h j (suc k) (omega arith)),
        )
        (ground arith)

  From-tail {ℓ} : {A : Type ℓ} (x : A) (xs : List A) (d : A) → From (x ∷ xs) 1 xs d
  From-tail x xs d zero k e = absurd (omega arith)
  From-tail x xs d (suc j) k e = ap (λ n. get_or xs n d) (let f : j ≡ k = omega arith in f)

  calculate-fold :
      (x : D.Double) (xs : List D.Double) (operator : CString)
      → elem (first operator) operators ≡ true
      → calculate D (x ∷ xs) operator (length (x ∷ xs)) ≡ (
          if (first operator == b'/') && any_zero xs
          then none
          else some (fold_left (operation (first operator)) x xs))
  unfolding calculate
  calculate-fold x xs operator h = rw (let e : length (x ∷ xs) - 1 ≡ length xs = omega arith in e) (
      ground (
        arith,
        folds D.add,
        folds D.sub,
        folds D.mul,
        divide_loop-fold (x ∷ xs) xs 1 x (From-tail x xs D.zero_value),
      ))
    where
      folds :
          (op : D.Double → D.Double → D.Double)
          → operate_loop D op (x ∷ xs) (length xs) 1 x ≡ fold_left op x xs
      folds op = operate_loop-fold op (x ∷ xs) xs 1 x (From-tail x xs D.zero_value)

  check_operator-elem :
      (operator : CString) → check_operator operator ≡ elem (first operator) operators
  unfolding check_operator
  check_operator-elem operator = ground arith

  length-operands :
      (args : List CString) (values : List D.Double)
      → operands args ≡ some values
      → length values ≡ length args
  length-operands [] [] e = refl
  length-operands [] (x ∷ xs) e = absurd cc
  length-operands (arg ∷ args) [] e = ground arith
  length-operands (arg ∷ args) (x ∷ xs) e = ground (arith, length-operands args xs)

  print_result-finish :
      (name operator arg : CString) (args : List CString) (offset : D.Double)
      (values : List D.Double)
      → elem (first operator) operators ≡ true
      → length values ≡ suc (length args)
      → print_result D (name ∷ operator ∷ arg ∷ args) offset values
        ≡ finish (first operator) offset values
  unfolding print_result
  print_result-finish name operator arg args offset [] h e = absurd (omega arith)
  print_result-finish name operator arg [] offset (x ∷ []) h e = ground arith
  print_result-finish name operator arg [] offset (x ∷ y ∷ xs) h e = absurd (omega arith)
  print_result-finish name operator arg (next ∷ args) offset (x ∷ xs) h e =
      rw
        (let f : length (name ∷ operator ∷ arg ∷ next ∷ args) - 2 ≡ length (x ∷ xs) = omega arith in
          f)
        (ground (arith, calculate-fold x xs operator h))

  -- The program is the recursion `run` on its arguments, at every argument list, environment and
  -- arithmetic: status 13 with fewer than two arguments, 42 where the first character of the operator
  -- is none of the four, 15 where an operand is no number up to its end, 16 where `/` has a zero
  -- behind the first operand, and else 0 with the operands folded from the left, plus the offset.
  pub main-run : (argv : List CString) (env : Option CString) → main D argv env ≡ run argv env
  unfolding main
  main-run [] env = refl
  main-run (name ∷ []) env = refl
  main-run (name ∷ operator ∷ []) env = refl
  main-run (name ∷ operator ∷ arg ∷ args) env =
      elim (Bool-cases (elem (first operator) operators)) [
        | inr unknown ↦ ground (arith, check_operator-elem operator)
        | inl known ↦ elim (Option-cases (operands (arg ∷ args))) [
          | inl bad ↦ ground (arith, check_operator-elem operator, converted)
          | inr (values, good) ↦ ground (
            arith,
            check_operator-elem operator,
            converted,
            print_result-finish name operator arg args (check_offset D env) values known
                (length-operands (arg ∷ args) values good),
          )
        ]
      ]
    where
      shift : From (name ∷ operator ∷ arg ∷ args) 2 (arg ∷ args) []
      shift zero k e = absurd (omega arith)
      shift (suc zero) k e = absurd (omega arith)
      shift (suc (suc j)) k e =
          ap (λ n. get_or (arg ∷ args) n []) (let f : j ≡ k = omega arith in f)

      converted :
          convert_str_double D (name ∷ operator ∷ arg ∷ args) (suc (length args)) 0
          ≡ operands (arg ∷ args)
      converted = convert_str_double-operands (name ∷ operator ∷ arg ∷ args) (arg ∷ args) 0 shift
