-- ===== src/Hive/Outcome.antt =====
-- exercise11/task3/beehive.c, `main`: what holds when it has joined all bees.
use ps_os.Base.{ℕ, ◌≤◌, ◌<◌, ◌≡◌, ◌≢◌, ◌⊎◌, inl, inr, true, arith}
use ps_os.Hive.{FieldGeometry, IsField}
use ps_os.Hive.Bees.{
  Place, home, polling, joined, Hive, init, Move, count_flower, Step, bee_moves, first_release,
  second_release, stop_polling, set_terminate, join_all, Reach, start, step,
}
use ps_os.Hive.Moves.{guard}
use ps_os.Hive.Count.{Count, Reach-Count, collected_lem}

-- Why `main` has left its loop, and whom it has waited for.
pub record Outcome (d : FieldGeometry) (n : ℕ) (s : Hive) : Type 0 where
  pub reason : s.main ≢ polling → (d.number_flowers ≤ s.collected) ⊎ (s.destroyed ≡ true)
  pub waited : s.main ≡ joined → (j : ℕ) → j < n → s.bee j ≡ home

module _ {d : FieldGeometry} {n : ℕ} {s : Hive} (is : IsField d) (count : Count d n s)
    (inv : Outcome d n s) where
  -- The counter only grows, and a destroyed hive stays destroyed.
  Move-grows :
      {i : ℕ} {p : Place} {t : Hive}
      → Move d s i p t
      → (s.collected ≤ t.collected)
        × (s.destroyed ≡ true → t.destroyed ≡ true)
        × (t.main ≡ s.main)
        × (p ≢ home)
  Move-grows (count_flower a e e') = ground (arith, count.total, is.small)
  Move-grows mv = ground (arith, guard mv)

  still :
      (t : Hive)
      → s.collected ≤ t.collected
      → (s.destroyed ≡ true → t.destroyed ≡ true)
      → (d.number_flowers ≤ s.collected) ⊎ (s.destroyed ≡ true)
      → (d.number_flowers ≤ t.collected) ⊎ (t.destroyed ≡ true)
  still t grows stays (inl all) = inl (omega arith)
  still t grows stays (inr lost) = inr (stays lost)

  Step-Outcome : 0 < n → {t : Hive} → Step d n s t → Outcome d n t
  Step-Outcome some_bee {t} (bee_moves i lt mv) = record {
    reason = λ left.
        let (grows, stays, same, busy) = Move-grows mv in
        still t grows stays (inv.reason (rw (← same) left));
    waited = λ over.
        let (grows, stays, same, busy) = Move-grows mv in
        absurd (busy (inv.waited (ground arith) i lt));
  }
  Step-Outcome some_bee {t} (first_release k lt all e) = rw e (record {
    reason = inv.reason;
    waited = λ over. absurd (ground (arith, inv.waited over k lt, all k lt));
  })
  Step-Outcome some_bee {t} (second_release all e) = rw e (record {
    reason = inv.reason;
    waited = λ over. absurd (ground (arith, inv.waited over 0 some_bee, all 0 some_bee));
  })
  Step-Outcome some_bee {t} (stop_polling at why e) =
      rw e (record { reason = λ left. why; waited = λ over. cc })
  Step-Outcome some_bee {t} (set_terminate at e) =
      rw e (record { reason = λ left. inv.reason (ground arith); waited = λ over. cc })
  Step-Outcome some_bee {t} (join_all at all e) =
      rw e (record { reason = λ left. inv.reason (ground arith); waited = λ over. all })

pub Reach-Outcome :
    {d : FieldGeometry} {n : ℕ} {s : Hive} → IsField d → 0 < n → Reach d n s → Outcome d n s
unfolding init
Reach-Outcome is some_bee start = record {
  reason = λ left. absurd (ground arith);
  waited = λ over. cc;
}
Reach-Outcome is some_bee (step r st) =
    Step-Outcome is (Reach-Count is r) (Reach-Outcome is some_bee r) some_bee st

-- When `main` has joined the bees, each of them has returned, and either the hive has been
-- destroyed or the number that is printed as collected is the number of flowers.
pub joined_outcome :
    {d : FieldGeometry} {n : ℕ} {s : Hive}
    → IsField d
    → Reach d n s
    → s.main ≡ joined
    → (j : ℕ) → j < n
    → (s.bee j ≡ home) × ((s.destroyed ≡ true) ⊎ (s.collected ≡ d.number_flowers))
joined_outcome {d} {n} {s} is r over j lj =
    (inv.waited over j lj, finished (inv.reason (ground arith)))
  where
    inv : Outcome d n s
    inv = Reach-Outcome is (omega arith) r

    finished :
        (d.number_flowers ≤ s.collected) ⊎ (s.destroyed ≡ true)
        → (s.destroyed ≡ true) ⊎ (s.collected ≡ d.number_flowers)
    finished (inl all) = inr (omega (arith, (collected_lem is r).1))
    finished (inr lost) = inl lost
