-- ===== src/Scheduler/Order.antt =====
-- exercise05/task1/scheduler.c: the order that `compare` gives.
use ps_os.Base.{ℕ, ◌+◌, ◌-◌, ◌%◌, ◌^◌, ◌≤◌, ◌<◌, ◌≡◌, ◌↔◌, ◌⊎◌, arith}
use ps_os.Scheduler.{compare}

-- A `long` between -2^30 and 2^30.
abbrev pub IsSmall : ℕ → Type 0
IsSmall a = (a < 2 ^ 30) ⊎ ((2 ^ 64 - 2 ^ 30 ≤ a) × (a < 2 ^ 64))

-- The signed order of two `long`s is the order of these.
abbrev pub key : ℕ → ℕ
key a = (a + 2 ^ 63) % 2 ^ 64

-- For two `long`s between -2^30 and 2^30 the result of `compare` is negative just when the first is
-- less, and zero just when they are the same.
compare_lem :
    (a b : ℕ)
    → IsSmall a
    → IsSmall b
    → ((2 ^ 31 ≤ compare a b) ↔ (key a < key b)) × ((compare a b ≡ 0) ↔ (a ≡ b))
compare_lem a b ha hb = ground arith

-- Only the lower halves count.
compare_halves : (a b : ℕ) → compare (a + 2 ^ 32) b ≡ compare a b
compare_halves a b = omega arith
