-- ===== src/Fibonacci.antt =====
-- exercise10/task2: `fibonacci_of_integer` of some_library.c and my_program.c. An `int` is its bit
-- pattern, a number below 2^32, and an addition past that wraps.
use ps_os.Base.{
  ℕ, zero, suc, ◌+◌, ◌-◌, ◌%◌, ◌^◌, ◌<◌, ◌≡◌, arith, refl, ap, ◌∙◌, true, ltb, ◌==◌, if◌then◌else◌,
  all_below, all_below_sound,
}

-- `for (i = 2; i <= n; i++)`, with the rounds left.
unfoldable pub fibonacci_loop : ℕ → ℕ → ℕ → ℕ
fibonacci_loop zero a b = b
fibonacci_loop (suc rounds) a b = fibonacci_loop rounds b ((a + b) % 2 ^ 32)

-- A negative `n` leaves the loop at once.
unfoldable pub fibonacci_of_integer : ℕ → ℕ
unfolding fibonacci_loop
fibonacci_of_integer n =
    if n == 0 then 0 else fibonacci_loop (if ltb n (2 ^ 31) then n - 1 else 0) 0 1

-- The numbers themselves, without wrap-around: two neighbours at a time.
abbrev pub next_pair : ℕ × ℕ → ℕ × ℕ
next_pair (a, b) = (b, a + b)

unfoldable pub fibonacci_pair : ℕ → ℕ × ℕ
fibonacci_pair zero = (0, 1)
fibonacci_pair (suc n) = next_pair (fibonacci_pair n)

abbrev pub fibonacci : ℕ → ℕ
fibonacci n = (fibonacci_pair n).0

-- Each number is the sum of the two before it.
fibonacci-suc-suc : (n : ℕ) → fibonacci (suc (suc n)) ≡ fibonacci n + fibonacci (suc n)
unfolding fibonacci_pair
fibonacci-suc-suc n = refl

fibonacci_loop-fibonacci :
    (rounds n m : ℕ)
    → m ≡ suc n + rounds
    → fibonacci_loop rounds (fibonacci n % 2 ^ 32) (fibonacci (suc n) % 2 ^ 32)
      ≡ fibonacci m % 2 ^ 32
unfolding fibonacci_loop
fibonacci_loop-fibonacci zero n m e =
    ap (λ k. fibonacci k % 2 ^ 32) (let e' : suc n ≡ m = omega arith in e')
fibonacci_loop-fibonacci (suc rounds) n m e =
    let sum : (fibonacci n % 2 ^ 32 + fibonacci (suc n) % 2 ^ 32) % 2 ^ 32
        ≡ fibonacci (suc (suc n)) % 2 ^ 32 =
      omega (arith, fibonacci-suc-suc n) in
    ap (fibonacci_loop rounds (fibonacci (suc n) % 2 ^ 32)) sum
    ∙ fibonacci_loop-fibonacci rounds (suc n) m (omega arith)

-- For an argument that is not negative the result is the Fibonacci number modulo 2^32.
fibonacci_of_integer_lem : (n : ℕ) → n < 2 ^ 31 → fibonacci_of_integer n ≡ fibonacci n % 2 ^ 32
unfolding fibonacci_of_integer fibonacci_pair
fibonacci_of_integer_lem zero small = refl
fibonacci_of_integer_lem (suc n) small =
    ground (arith, fibonacci_loop-fibonacci n 0 (suc n) (omega arith))

small_table : all_below 47 (λ n. ltb (fibonacci n) (2 ^ 31)) ≡ true
unfolding all_below fibonacci_pair
small_table = refl

-- Up to 46 the result is the Fibonacci number itself and fits an `int`.
fibonacci_of_integer_exact :
    (n : ℕ) → n < 47 → (fibonacci_of_integer n ≡ fibonacci n) × (fibonacci_of_integer n < 2 ^ 31)
fibonacci_of_integer_exact n small =
    let fits = all_below_sound 47 (λ n. ltb (fibonacci n) (2 ^ 31)) n small_table small in
    ground (arith, fibonacci_of_integer_lem n (omega arith))
