-- ===== src/Hive/Count.antt =====
-- exercise11/task3/beehive.c: `number_collected_flowers` and the flowers with nectar.
use ps_os.Base.{
  ℕ, zero, suc, ◌+◌, ◌≤◌, ◌<◌, ◌≡◌, refl, Bool, true, false, List, [], ◌∷◌, arith, ◌==◌,
  if◌then◌else◌, update, length, sum_below, sum_below-update, sum_below-const,
}
use ps_os.Hive.{FieldGeometry, Flower, IsField, nectar, take_nectar}
use ps_os.Hive.Bees.{
  Place, check, harvest, tally, watch, second_barrier, MainPlace, stopping, joining, joined, Hive,
  init, plant, area, Move, clear_nectar, Step, bee_moves, first_release, second_release,
  stop_polling, set_terminate, join_all, Reach, start, step,
}
use ps_os.Hive.Moves.{guard}
use ps_os.Hive.Locks.{Locks, Reach-Locks}
use ps_os.Hive.Ranges.{Ranges, Reach-Ranges}

-- Flowers that still have nectar.
abbrev pub left : List Flower → ℕ
left [] = 0
left (f ∷ fs) = (if f.has_nectar then 1 else 0) + left fs

-- A bee between the clearing of a flower and its count.
abbrev pub tallying : Place → ℕ
tallying (tally a) = 1
tallying _ = 0

pub left-take_nectar :
    (field : List Flower) (a : ℕ)
    → a < length field
    → nectar field a ≡ true
    → left (take_nectar field a) + 1 ≡ left field
left-take_nectar [] a lt h = absurd (omega arith)
left-take_nectar (f ∷ fs) zero lt h = ground arith
left-take_nectar (f ∷ fs) (suc a) lt h = omega (arith, left-take_nectar fs a (omega arith) h)

pub nectar-take_nectar :
    (field : List Flower) (a p : ℕ)
    → a < length field
    → nectar (take_nectar field a) p ≡ (if a == p then false else nectar field p)
nectar-take_nectar [] a p lt = absurd (omega arith)
nectar-take_nectar (f ∷ fs) zero zero lt = refl
nectar-take_nectar (f ∷ fs) zero (suc p) lt = ground arith
nectar-take_nectar (f ∷ fs) (suc a) zero lt = ground arith
nectar-take_nectar (f ∷ fs) (suc a) (suc p) lt = ground (arith, nectar-take_nectar fs a p)

pub record Count (d : FieldGeometry) (n : ℕ) (s : Hive) : Type 0 where
  pub total : s.collected + left (s.flower_field) + sum_below tallying n (s.bee) ≡ area d
  pub fresh : (j a : ℕ) → j < n → s.bee j ≡ harvest a → nectar (s.flower_field) a ≡ true

module _ (d : FieldGeometry) (is : IsField d) {n : ℕ} {s : Hive} (ranges : Ranges d n s)
    (locks : Locks n s) (inv : Count d n s) (i : ℕ) (lt : i < n) where
  tallies :
      (p' : Place)
      → sum_below tallying n (update s.bee i p') + tallying (s.bee i)
        ≡ sum_below tallying n s.bee + tallying p'
  tallies p' = sum_below-update tallying n i s.bee p' lt

  Move-total :
      {p : Place} {t : Hive}
      → s.bee i ≡ p
      → Move d s i p t
      → t.collected + left (t.flower_field) + sum_below tallying n (t.bee) ≡ area d
  Move-total at (clear_nectar a e e') = ground (
    arith,
    tallies (tally a),
    left-take_nectar (s.flower_field) a (ground (arith, ranges.size, ranges.carried i lt))
        (inv.fresh i a lt (ground arith)),
  )
  Move-total at mv = grind (arith, guard mv, tallies, is.small)

  Move-fresh :
      {p : Place} {t : Hive}
      → s.bee i ≡ p
      → Move d s i p t
      → (j b : ℕ) → j < n
      → t.bee j ≡ harvest b
      → nectar (t.flower_field) b ≡ true
  Move-fresh at (clear_nectar a e e') j b lj h =
      absurd (ground (arith, locks.field_owner i lt, locks.field_owner j lj))
  Move-fresh at mv j b lj h = ground (arith, guard mv, inv.fresh j b lj)

Count-main :
    {d : FieldGeometry} {n : ℕ} {s : Hive} (m : MainPlace) (stop : Bool)
    → Count d n s
    → Count d n (record s { main = m; must_terminate = stop })
Count-main m stop inv = record { total = inv.total; fresh = inv.fresh }

tallying-none :
    (n : ℕ) (bee : ℕ → Place)
    → ((j : ℕ) → j < n → tallying (bee j) ≡ 0)
    → sum_below tallying n bee ≡ 0
tallying-none n bee none_tallies = omega (arith, sum_below-const tallying n bee 0 none_tallies)

Step-Count :
    {d : FieldGeometry} {n : ℕ} {s t : Hive}
    → IsField d
    → Ranges d n s
    → Locks n s
    → Count d n s
    → Step d n s t
    → Count d n t
Step-Count {d} is ranges locks inv (bee_moves i lt mv) = record {
  total = Move-total d is ranges locks inv i lt refl mv;
  fresh = Move-fresh d is ranges locks inv i lt refl mv;
}
Step-Count {n} {s} is ranges locks inv (first_release k lt all e) = rw e (record {
  total = omega (
    arith,
    inv.total,
    tallying-none n s.bee (λ j lj. ground (arith, all j lj)),
    tallying-none n (λ j. if j == k then watch else second_barrier) (λ j lj. ground arith),
  );
  fresh = λ j b lj h. absurd (ground arith);
})
Step-Count {n} {s} is ranges locks inv (second_release all e) = rw e (record {
  total = omega (
    arith,
    inv.total,
    tallying-none n s.bee (λ j lj. ground (arith, all j lj)),
    tallying-none n (λ j. check) (λ j lj. refl),
  );
  fresh = λ j b lj h. absurd (ground arith);
})
Step-Count is ranges locks inv (stop_polling at why e) = rw e (Count-main stopping _ inv)
Step-Count is ranges locks inv (set_terminate at e) = rw e (Count-main joining _ inv)
Step-Count is ranges locks inv (join_all at all e) = rw e (Count-main joined _ inv)

left-plant : (m i : ℕ) → left (plant m i) ≡ m
unfolding plant
left-plant zero i = refl
left-plant (suc m) i = omega (arith, left-plant m (i + 1))

pub Reach-Count : {d : FieldGeometry} {n : ℕ} {s : Hive} → IsField d → Reach d n s → Count d n s
unfolding init
Reach-Count {d} {n} is start = record {
  total = omega (arith, left-plant (area d) 0, tallying-none n (λ j. check) (λ j lj. refl));
  fresh = λ j a lj h. absurd (ground arith);
}
Reach-Count {d} is (step r st) =
    Step-Count is (Reach-Ranges d is r) (Reach-Locks r) (Reach-Count is r) st

-- In every reachable state the counter, the bees that are about to count and the flowers that still
-- have nectar make up the field: no flower is counted twice, and none is forgotten.
pub collected_lem :
    {d : FieldGeometry} {n : ℕ} {s : Hive}
    → IsField d
    → Reach d n s
    → (s.collected + left (s.flower_field) + sum_below tallying n (s.bee) ≡ d.number_flowers)
      × (s.collected ≤ d.number_flowers)
collected_lem is r = (
  omega (arith, (Reach-Count is r).total, is.counted),
  omega (arith, (Reach-Count is r).total, is.counted),
)
