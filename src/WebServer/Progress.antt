-- ===== src/WebServer/Progress.antt =====
-- exercise08/task3/server.c: once `main` has left its loop the program runs to its end.
use ps_os.Base.{
  ℕ, ◌≤◌, ◌<◌, ◌≡◌, ◌≢◌, ◌⊎◌, inl, inr, refl, arith, Bool, true, false, none, some, [], ◌∷◌, update,
  sum_below-update, sum_below-le, dec_lt, ℕ_discrete, Option-cases,
}
use ps_os.MyQueue.{MyQueue, myqueue_is_empty, myqueue_pop}
use ps_os.WebServer.Moves.{handle-frame, Move-others, Move-frame}
use ps_os.WebServer.Pills.{spent, pushed_pills, Pills, Reach-Pills}
use ps_os.WebServer.Request.{parse_request}
use ps_os.WebServer.Sockets.{occurrences}
use ps_os.WebServer.{
  poison_pill, Place, idle, waiting, woken, deciding, handling, replying, closing, ended, MainPlace,
  poisoning, broadcasting, joining, Server, Config, Move, wait, wait_again, pop, pop_woken,
  spurious, exit, take_client, handle_client, reply, close, MainMove, push_pill, pills_done,
  broadcast, join, return, worker_runs, main_runs, client_acts, Reach, start, step,
}

-- `main` holds the mutex from the first pill to the broadcast.
abbrev pub main_locks : MainPlace → Bool
main_locks (poisoning i) = true
main_locks broadcasting = true
main_locks _ = false

-- `main` is behind its first loop, and does not return yet.
abbrev pub is_stopping : MainPlace → Bool
is_stopping (poisoning i) = true
is_stopping broadcasting = true
is_stopping (joining i) = true
is_stopping _ = false

abbrev is_joining : MainPlace → Bool
is_joining (joining i) = true
is_joining _ = false

pub Reach-locked : {c : Config} {s : Server c.Double} → Reach c s → s.locked ≡ main_locks s.main
Reach-locked start = refl
Reach-locked {c} (step {s} {t} r (worker_runs j lt mv)) =
    ground (arith, Reach-locked r, Move-frame c s t j mv)
Reach-locked (step r (main_runs mv)) = ground (arith, mv, Reach-locked r)
Reach-locked (step r (client_acts socket bytes e)) = ground (arith, Reach-locked r)

spent-le : {D : Type 0} (p : Place D) → spent p ≤ 1
spent-le p = ground arith

-- While a worker has not taken a pill and all have been pushed, one is in the queue.
pill_queued :
    {c : Config} {s : Server c.Double} (j : ℕ)
    → Pills c s
    → j < c.workers
    → spent (s.place j) ≡ 0
    → pushed_pills c.workers s.main ≡ c.workers
    → myqueue_is_empty (s.queue) ≡ false
pill_queued {c} {s} j pills lt none_yet all = filled (s.queue) (
    ground (
      arith,
      pills.total,
      sum_below-update spent c.workers j s.place ended lt,
      sum_below-le spent 1 c.workers (update s.place j ended)
          (λ k lk. spent-le (update s.place j ended k)),
    ))
  where
    filled : (q : MyQueue) → occurrences poison_pill q ≢ 0 → myqueue_is_empty q ≡ false
    filled [] h = absurd (h refl)
    filled (v ∷ q) h = refl

waits_not :
    {c : Config} {s t : Server c.Double} (j : ℕ)
    → Pills c s
    → is_joining s.main ≡ true
    → j < c.workers
    → Move c s j (s.place j) t
    → t.place j ≢ waiting
waits_not j pills at lt (wait from l empty e) h =
    absurd (ground (arith, pill_queued j pills lt (ground arith) (ground arith)))
waits_not j pills at lt (wait_again from l empty e) h =
    absurd (ground (arith, pill_queued j pills lt (ground arith) (ground arith)))
waits_not j pills at lt (pop x rest from l e0 e) h = absurd (ground arith)
waits_not j pills at lt (pop_woken x rest from l e0 e) h = absurd (ground arith)
waits_not j pills at lt (spurious from e) h = absurd (ground arith)
waits_not j pills at lt (exit x from e0 e) h = absurd (ground arith)
waits_not j pills at lt (take_client x from ne e) h = absurd (ground arith)
waits_not {c} {s} j pills at lt (handle_client socket bytes from sent e) h =
    absurd (ground (arith, handle-frame c s j socket (parse_request c.strtod c.stack bytes)))
waits_not j pills at lt (reply socket amount from e) h = absurd (ground arith)
waits_not j pills at lt (close socket from e) h = absurd (ground arith)

-- From the broadcast on no worker waits.
Reach-awake :
    {c : Config} {s : Server c.Double}
    → Reach c s
    → is_joining s.main ≡ true
    → (k : ℕ) → k < c.workers
    → s.place k ≢ waiting
Reach-awake start h k lk = absurd cc
Reach-awake {c} (step {s} {t} r (worker_runs j lt mv)) h k lk = elim (ℕ_discrete k j) [
  | no ne ↦
      let before = Reach-awake r (ground (arith, Move-frame c s t j mv)) k lk in
      ground (arith, Move-others c s t j k mv ne, before)
  | yes same ↦
      λ e. waits_not j (Reach-Pills r) (ground (arith, Move-frame c s t j mv)) lt mv (ground arith)
]
Reach-awake (step {s} r (main_runs mv)) h k lk =
    ground (arith, mv, λ (at : is_joining s.main ≡ true). Reach-awake r at k lk)
Reach-awake (step r (client_acts socket bytes e)) h k lk =
    let before = Reach-awake r (ground arith) k lk in ground arith

queue_cases :
    (q : MyQueue)
    → (myqueue_is_empty q ≡ true) ⊎ ((v : ℕ) × (rest : MyQueue) × (myqueue_pop q ≡ some (v, rest)))
queue_cases [] = inl refl
queue_cases (v ∷ q) = inr (v, q, refl)

is_ended : {D : Type 0} (p : Place D) → (p ≡ ended) ⊎ (p ≢ ended)
is_ended p = ground arith

-- A step that is not a spurious wake-up.
abbrev pub is_spurious :
    {c : Config} {s : Server c.Double} {j : ℕ} {p : Place c.Double} {t : Server c.Double}
    → Move c s j p t
    → Bool
is_spurious (spurious _ _) = true
is_spurious _ = false

abbrev pub CanRun : (c : Config) → Server c.Double → Type 0
CanRun c s =
    (t : Server c.Double) × (((j : ℕ) × (j < c.workers)
        × ((mv : Move c s j (s.place j) t) × (is_spurious mv ≡ false)))
      ⊎ MainMove c s s.main t)

-- A worker waits in `read` for a client that has neither sent anything nor closed its end.
abbrev pub ReadsFromSilent : (c : Config) → Server c.Double → Type 0
ReadsFromSilent c s =
    (j : ℕ) × (socket : ℕ) × (j < c.workers)
    × (s.place j ≡ handling socket)
    × (s.arrived socket ≡ none)

module _ {c : Config} {s : Server c.Double} (free : s.locked ≡ false) (j : ℕ)
    (lt : j < c.workers) where
  worker_can :
      {p : Place c.Double}
      → s.place j ≡ p
      → p ≢ waiting
      → p ≢ ended
      → CanRun c s ⊎ ReadsFromSilent c s
  worker_can {p = idle} at awake alive = elim (queue_cases (s.queue)) [
    | inl empty ↦ inl (_, inl (j, lt, (wait at free empty refl, refl)))
    | inr (v, rest, entry) ↦ inl (_, inl (j, lt, (pop v rest at free entry refl, refl)))
  ]
  worker_can {p = waiting} at awake alive = absurd (awake refl)
  worker_can {p = woken} at awake alive = elim (queue_cases (s.queue)) [
    | inl empty ↦ inl (_, inl (j, lt, (wait_again at free empty refl, refl)))
    | inr (v, rest, entry) ↦ inl (_, inl (j, lt, (pop_woken v rest at free entry refl, refl)))
  ]
  worker_can {p = deciding v} at awake alive = elim (ℕ_discrete v poison_pill) [
    | yes pill ↦ inl (_, inl (j, lt, (exit v at pill refl, refl)))
    | no socket ↦ inl (_, inl (j, lt, (take_client v at socket refl, refl)))
  ]
  worker_can {p = handling v} at awake alive = elim (Option-cases (s.arrived v)) [
    | inl silent ↦ inr (j, v, lt, at, silent)
    | inr (bytes, sent) ↦ inl (_, inl (j, lt, (handle_client v bytes at sent refl, refl)))
  ]
  worker_can {p = replying v amount} at awake alive =
      inl (_, inl (j, lt, (reply v amount at refl, refl)))
  worker_can {p = closing v} at awake alive = inl (_, inl (j, lt, (close v at refl, refl)))
  worker_can {p = ended} at awake alive = absurd (alive refl)

main_can :
    {c : Config} {s : Server c.Double} (m : MainPlace)
    → Reach c s
    → s.main ≡ m
    → is_stopping m ≡ true
    → CanRun c s ⊎ ReadsFromSilent c s
main_can {c} (poisoning i) r at h = elim (dec_lt i c.workers) [
  | yes more ↦ inl (_, inr (push_pill i at more refl))
  | no done ↦ inl (_, inr (pills_done i at (omega arith) refl))
]
main_can broadcasting r at h = inl (_, inr (broadcast at refl))
main_can {c} {s} (joining i) r at h = elim (dec_lt i c.workers) [
  | no done ↦ inl (_, inr (return i at (omega arith) refl))
  | yes more ↦ elim (is_ended (s.place i)) [
    | inl over ↦ inl (_, inr (join i at more over refl))
    | inr alive ↦
        worker_can (ground (arith, Reach-locked r)) i more refl
          (Reach-awake r (ground arith) i more) alive
  ]
]
main_can _ r at h = absurd cc

-- From the moment that `main` has left its first loop until it returns, some worker or `main` can make
-- a step that is not a spurious wake-up, in every reachable state, or a worker waits in `read` for a
-- client that has neither sent anything nor closed its end: no wake-up is lost, and nothing but a
-- silent client can hold the shutdown up.
pub shutdown_progress :
    {c : Config} {s : Server c.Double}
    → Reach c s
    → is_stopping s.main ≡ true
    → CanRun c s ⊎ ReadsFromSilent c s
shutdown_progress {s} r h = main_can (s.main) r refl h
