-- ===== src/Consumers/Moves.antt =====
-- exercise06/task3/task3.c: the premises of a step as one tuple, for proofs that treat all steps
-- alike.
use ps_os.Base.{ℕ, ◌+◌, ◌%◌, ◌^◌, ◌≤◌, ◌<◌, ◌≡◌, ◌≢◌, true, false, none, some, update}
use ps_os.MyQueue.{myqueue_is_empty, myqueue_push, myqueue_pop, size_of_int}
use ps_os.Consumers.{
  Config, int_max, num, Place, lock_mutex, testing, waiting, woken, popping, unlocking, deciding,
  ended, MainPlace, lock_value, push_value, signal_value, unlock_value, lock_end, push_end,
  signal_end, unlock_end, broadcasting, joining, producer, consumer, State, go, wake, Move, lock,
  wait, relock, see_entry, pop, unlock, end_loop, add, after_signal, MainMove, lock_for_value,
  push_number, unlock_after_value, values_done, lock_for_end, push_int_max, unlock_after_end,
  ends_done, signal_one, signal_none, broadcast, join,
}

abbrev pub Premises : {s : State} {j : ℕ} {p : Place} {t : State} → Move s j p t → Type 0
Premises {s} {j} {p} {t} (lock _ _ _) =
    (p ≡ lock_mutex)
    × (s.mutex ≡ none)
    × (t ≡ record (go s j testing) { mutex = some (consumer j) })
Premises {s} {j} {p} {t} (wait _ _ _) =
    (p ≡ testing)
    × (myqueue_is_empty (s.queue) ≡ true)
    × (t ≡ record (go s j waiting) { mutex = none })
Premises {s} {j} {p} {t} (relock _ _ _) =
    (p ≡ woken) × (s.mutex ≡ none) × (t ≡ record (go s j testing) { mutex = some (consumer j) })
Premises {s} {j} {p} {t} (see_entry _ _ _) =
    (p ≡ testing) × (myqueue_is_empty (s.queue) ≡ false) × (t ≡ go s j popping)
Premises {s} {j} {p} {t} (pop v rest _ _ _) =
    (p ≡ popping)
    × (myqueue_pop (s.queue) ≡ some (v, rest))
    × (t ≡ record (go s j (unlocking v)) { queue = rest })
Premises {s} {j} {p} {t} (unlock v _ _) =
    (p ≡ unlocking v) × (t ≡ record (go s j (deciding v)) { mutex = none })
Premises {s} {j} {p} {t} (end_loop v _ _ _) = (p ≡ deciding v) × (v ≡ int_max) × (t ≡ go s j ended)
Premises {s} {j} {p} {t} (add v _ _ _) =
    (p ≡ deciding v)
    × (v ≢ int_max)
    × (t ≡ record (go s j lock_mutex) { sum = update s.sum j ((s.sum j + size_of_int v) % 2 ^ 64) })

pub premises : {s : State} {j : ℕ} {p : Place} {t : State} (mv : Move s j p t) → Premises mv
premises (lock e0 e1 e2) = (e0, e1, e2)
premises (wait e0 e1 e2) = (e0, e1, e2)
premises (relock e0 e1 e2) = (e0, e1, e2)
premises (see_entry e0 e1 e2) = (e0, e1, e2)
premises (pop v rest e0 e1 e2) = (e0, e1, e2)
premises (unlock v e0 e1) = (e0, e1)
premises (end_loop v e0 e1 e2) = (e0, e1, e2)
premises (add v e0 e1 e2) = (e0, e1, e2)

abbrev pub MainPremises :
    {c : Config} {s : State} {m : MainPlace} {t : State} → MainMove c s m t → Type 0
MainPremises {c} {s} {m} {t} (lock_for_value i _ _ _ _) =
    (m ≡ lock_value i)
    × (i < c.elements)
    × (s.mutex ≡ none)
    × (t ≡ record s { mutex = some producer; main = push_value i })
MainPremises {c} {s} {m} {t} (push_number i _ _) =
    (m ≡ push_value i)
    × (t ≡ record s { queue = myqueue_push (s.queue) (num i); main = signal_value i })
MainPremises {c} {s} {m} {t} (unlock_after_value i _ _) =
    (m ≡ unlock_value i) × (t ≡ record s { mutex = none; main = lock_value (i + 1) })
MainPremises {c} {s} {m} {t} (values_done i _ _ _) =
    (m ≡ lock_value i) × (c.elements ≤ i) × (t ≡ record s { main = lock_end 0 })
MainPremises {c} {s} {m} {t} (lock_for_end i _ _ _ _) =
    (m ≡ lock_end i)
    × (i < c.consumers)
    × (s.mutex ≡ none)
    × (t ≡ record s { mutex = some producer; main = push_end i })
MainPremises {c} {s} {m} {t} (push_int_max i _ _) =
    (m ≡ push_end i)
    × (t ≡ record s { queue = myqueue_push (s.queue) int_max; main = signal_end i })
MainPremises {c} {s} {m} {t} (unlock_after_end i _ _) =
    (m ≡ unlock_end i) × (t ≡ record s { mutex = none; main = lock_end (i + 1) })
MainPremises {c} {s} {m} {t} (ends_done i _ _ _) =
    (m ≡ lock_end i) × (c.consumers ≤ i) × (t ≡ record s { main = broadcasting })
MainPremises {c} {s} {m} {t} (signal_one m' j _ _ _ _) =
    (after_signal m ≡ some m')
    × (j < c.consumers)
    × (s.place j ≡ waiting)
    × (t ≡ record (go s j woken) { main = m' })
MainPremises {c} {s} {m} {t} (signal_none m' _ _ _) =
    (after_signal m ≡ some m')
    × (((j : ℕ) → j < c.consumers → s.place j ≢ waiting))
    × (t ≡ record s { main = m' })
MainPremises {c} {s} {m} {t} (broadcast _ _) =
    (m ≡ broadcasting) × (t ≡ record s { place = λ j. wake (s.place j); main = joining 0 0 })
MainPremises {c} {s} {m} {t} (join i total _ _ _ _) =
    (m ≡ joining i total)
    × (i < c.consumers)
    × (s.place i ≡ ended)
    × (t ≡ record s { main = joining (i + 1) ((total + s.sum i) % 2 ^ 32) })

pub main_premises :
    {c : Config} {s : State} {m : MainPlace} {t : State} (mv : MainMove c s m t) → MainPremises mv
main_premises (lock_for_value i e0 e1 e2 e3) = (e0, e1, e2, e3)
main_premises (push_number i e0 e1) = (e0, e1)
main_premises (unlock_after_value i e0 e1) = (e0, e1)
main_premises (values_done i e0 e1 e2) = (e0, e1, e2)
main_premises (lock_for_end i e0 e1 e2 e3) = (e0, e1, e2, e3)
main_premises (push_int_max i e0 e1) = (e0, e1)
main_premises (unlock_after_end i e0 e1) = (e0, e1)
main_premises (ends_done i e0 e1 e2) = (e0, e1, e2)
main_premises (signal_one m' j e0 e1 e2 e3) = (e0, e1, e2, e3)
main_premises (signal_none m' e0 e1 e2) = (e0, e1, e2)
main_premises (broadcast e0 e1) = (e0, e1)
main_premises (join i total e0 e1 e2 e3) = (e0, e1, e2, e3)
