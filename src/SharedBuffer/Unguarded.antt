-- ===== src/SharedBuffer/Unguarded.antt =====
-- exercise05/task2/task2.c: the same ring with no semaphores. Child A's loop body is one store, child
-- B's is a load and an addition, and the scheduler picks either child before each.
use ps_os.Base.{
  ℕ, zero, suc, ◌+◌, ◌*◌, ◌%◌, ◌^◌, ◌≤◌, ◌<◌, ◌≡◌, refl, arith, ◌↔◌, subst, sym, List, get_or, set,
  replicate, get_or-replicate,
}
use ps_os.SharedBuffer.Checksum.{validate_result, validate_result-eq_zero, sum_to}
use ps_os.SharedBuffer.Invariant.{IsConfig}
use ps_os.SharedBuffer.{Config, u64}

pub data Summing : Type 0 where
  load : ℕ → Summing
  add : ℕ → ℕ → Summing

pub record Unguarded : Type 0 where
  pub result : ℕ
  pub buffer : List ℕ
  pub populating : ℕ
  pub summing : Summing

abbrev pub start_unguarded : Config → Unguarded
start_unguarded c = record {
  result = 0;
  buffer = replicate c.cells 0;
  populating = 1;
  summing = load 1;
}

pub data UnguardedStep (c : Config) (s t : Unguarded) : Type 0 where
  populate :
      s.populating ≤ c.ops
      → t ≡ record s {
        buffer = set s.buffer (s.populating % c.cells) (u64 (s.populating * c.factor));
        populating = u64 (s.populating + 1);
      }
      → UnguardedStep c s t
  load_cell :
      (i : ℕ)
      → s.summing ≡ load i
      → i ≤ c.ops
      → t ≡ record s { summing = add i (get_or s.buffer (i % c.cells) 0) }
      → UnguardedStep c s t
  add_cell :
      (i v : ℕ)
      → s.summing ≡ add i v
      → t ≡ record s { result = u64 (s.result + v); summing = load (u64 (i + 1)) }
      → UnguardedStep c s t

pub data UnguardedReach (c : Config) : Unguarded → Type 0 where
  start : UnguardedReach c (start_unguarded c)
  step : {s t : Unguarded} → UnguardedReach c s → UnguardedStep c s t → UnguardedReach c t

abbrev after_summing : Config → ℕ → Unguarded
after_summing c n = record (start_unguarded c) { summing = load (n + 1) }

-- Child B alone adds up cells that are still 0.
sum_alone : {c : Config} → IsConfig c → (n : ℕ) → n ≤ c.ops → UnguardedReach c (after_summing c n)
sum_alone is zero le = start
sum_alone {c} is (suc n) le =
    step
      (step {t = record (after_summing c n) { summing = add (n + 1) 0 }}
        (sum_alone is n (omega arith))
        (load_cell (n + 1) refl (omega arith) (rw (get_or-replicate {A = ℕ} c.cells 0))))
      (add_cell (n + 1) 0 refl (ground arith))

-- Then child A fills the ring for nobody.
populate_alone :
    {c : Config}
    → IsConfig c
    → (n : ℕ) → n ≤ c.ops
    → (s : Unguarded) × UnguardedReach c s
      × (s.populating ≡ n + 1)
      × (s.result ≡ 0)
      × (s.summing ≡ load (c.ops + 1))
populate_alone {c} is zero le =
    (after_summing c c.ops, sum_alone is c.ops (omega arith), refl, refl, refl)
populate_alone {c} is (suc n) le =
    let (s, r, at, none_added, left) = populate_alone is n (omega arith) in
    (
      record s {
        buffer = set s.buffer (s.populating % c.cells) (u64 (s.populating * c.factor));
        populating = u64 (s.populating + 1);
      },
      step r (populate (omega arith) refl),
      omega arith,
      none_added,
      left,
    )

-- Without semaphores the sum can be lost whole: for all arguments some schedule lets both children
-- leave their loops with the result 0, and then the checksum is 0 exactly if the right result is.
pub unguarded_loses_sum :
    {c : Config}
    → IsConfig c
    → (s : Unguarded) × UnguardedReach c s
      × (c.ops < s.populating)
      × (s.summing ≡ load (c.ops + 1))
      × (s.result ≡ 0)
      × ((validate_result s.result c.ops c.factor ≡ 0) ↔ (0 ≡ sum_to c.factor c.ops % 2 ^ 64))
unguarded_loses_sum {c} is =
    let (s, r, at, none_added, left) = populate_alone is c.ops (omega arith) in
    (
      s,
      r,
      omega arith,
      left,
      none_added,
      subst
          (λ result.
            (validate_result result c.ops c.factor ≡ 0) ↔ (0 ≡ sum_to c.factor c.ops % 2 ^ 64))
          (sym none_added) (validate_result-eq_zero 0 c.ops c.factor (omega arith)),
    )
