-- ===== src/SharedBuffer/Checksum.antt =====
-- `validate_result` of exercise05/task3/task3.c (the same text stands in task2.c): it takes from the
-- result, modulo 2^64, what the ring should have carried.
use ps_os.Base.{ℕ, zero, suc, ◌+◌, ◌-◌, ◌*◌, ◌%◌, ◌^◌, ◌<◌, ◌≡◌, ◌∙◌, ap, ◌↔◌, arith}

-- The loop `for (i = 1; i <= K; i++) result -= N * i`, with the rounds left and `i`.
validate_loop : ℕ → ℕ → ℕ → ℕ → ℕ
validate_loop zero i factor result = result
validate_loop (suc rounds) i factor result =
    validate_loop rounds (i + 1) factor ((result + 2 ^ 64 - factor * i % 2 ^ 64) % 2 ^ 64)

unfoldable pub validate_result : (result ops factor : ℕ) → ℕ
unfolding validate_loop
validate_result result ops factor = validate_loop ops 1 factor result

-- N + 2 N + … + n N, without wrap-around.
unfoldable pub sum_to : ℕ → ℕ → ℕ
sum_to factor zero = 0
sum_to factor (suc n) = sum_to factor n + suc n * factor

pub sum_to_pred : (factor n : ℕ) → 0 < n → sum_to factor n ≡ sum_to factor (n - 1) + n * factor
unfolding sum_to
sum_to_pred factor zero h = absurd (omega arith)
sum_to_pred factor (suc n) h =
    ap (λ k. sum_to factor k + suc n * factor) (let e : n ≡ suc n - 1 = omega arith in e)

-- i N + (i + 1) N + …, as many terms as rounds.
sum_from : ℕ → ℕ → ℕ → ℕ
sum_from factor i zero = 0
sum_from factor i (suc rounds) = factor * i + sum_from factor (i + 1) rounds

sum_from-sum_to :
    (factor n rounds m : ℕ)
    → m ≡ n + rounds
    → sum_to factor n + sum_from factor (n + 1) rounds ≡ sum_to factor m
unfolding sum_from
sum_from-sum_to factor n zero m e = let e' : n ≡ m = omega arith in rw e' (omega arith)
sum_from-sum_to factor n (suc rounds) m e =
    omega (arith, step, sum_from-sum_to factor (n + 1) rounds m (omega arith))
  where
    step : sum_to factor (n + 1) ≡ sum_to factor n + (n + 1) * factor
    step =
        sum_to_pred factor (n + 1) (omega arith)
        ∙ ap (λ k. sum_to factor k + (n + 1) * factor) (let e : n + 1 - 1 ≡ n = omega arith in e)

-- What the loop has taken away, added again, gives the value it began with.
validate_loop-add :
    (rounds i factor result : ℕ)
    → result < 2 ^ 64
    → ((validate_loop rounds i factor result + sum_from factor i rounds) % 2 ^ 64 ≡ result)
      × (validate_loop rounds i factor result < 2 ^ 64)
unfolding validate_loop sum_from
validate_loop-add zero i factor result h = (omega arith, h)
validate_loop-add (suc rounds) i factor result h =
    let next : ℕ = (result + 2 ^ 64 - factor * i % 2 ^ 64) % 2 ^ 64 in
    omega (arith, validate_loop-add rounds (i + 1) factor next (omega arith))

-- The checksum that is printed is 0 exactly when the result is N + 2 N + … + K N modulo 2^64.
pub validate_result-eq_zero :
    (result ops factor : ℕ)
    → result < 2 ^ 64
    → (validate_result result ops factor ≡ 0) ↔ (result ≡ sum_to factor ops % 2 ^ 64)
unfolding validate_result sum_to
validate_result-eq_zero result ops factor h =
    let loop = validate_loop-add ops 1 factor result h in
    let total = sum_from-sum_to factor 0 ops ops (omega arith) in
    (λ e. omega arith, λ e. omega arith)
