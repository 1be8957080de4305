-- ===== src/WebServer/Sockets.antt =====
-- exercise08/task3/server.c: where each accepted socket is.
use ps_os.Base.{
  ℕ, ◌+◌, ◌^◌, ◌<◌, ◌≡◌, refl, ap, arith, List, [], ◌∷◌, ◌==◌, if◌then◌else◌, sum_below,
  sum_below-congr, sum_below-change, sum_below-const,
}
use ps_os.MyQueue.{MyQueue, myqueue_push}
use ps_os.WebServer.Request.{parse_request}
use ps_os.WebServer.Moves.{handle-frame, Move-others}
use ps_os.WebServer.{
  poison_pill, Place, deciding, handling, replying, closing, MainPlace, pushing, Server, Config,
  init, Move, wait, wait_again, pop, pop_woken, spurious, exit, take_client, handle_client, reply,
  close, MainMove, worker_runs, main_runs, client_acts, Reach, start, step,
}

-- How often a socket is in a list, in the hands of a worker, and in those of `main`.
abbrev pub occurrences : ℕ → List ℕ → ℕ
occurrences v [] = 0
occurrences v (x ∷ xs) = (if x == v then 1 else 0) + occurrences v xs

abbrev pub held : {D : Type 0} → ℕ → Place D → ℕ
held v (deciding x) = if x == v then 1 else 0
held v (handling x) = if x == v then 1 else 0
held v (replying x amount) = if x == v then 1 else 0
held v (closing x) = if x == v then 1 else 0
held v _ = 0

abbrev pub main_held : ℕ → MainPlace → ℕ
main_held v (pushing x) = if x == v then 1 else 0
main_held v _ = 0

pub occurrences-push :
    (v x : ℕ) (q : MyQueue)
    → occurrences v (myqueue_push q x) ≡ occurrences v q + (if x == v then 1 else 0)
occurrences-push v x [] = omega arith
occurrences-push v x (y ∷ q) = omega (arith, occurrences-push v x q)

module _ (c : Config) (v : ℕ) where
  -- Every socket that was accepted is queued, in some hands, or closed.
  abbrev pub Kept : Server c.Double → Type 0
  Kept s =
      occurrences v s.accepted
      ≡ occurrences v s.queue
        + main_held v s.main
        + sum_below (held v) c.workers s.place
        + occurrences v s.closed

-- What `main` puts into the queue from a place.
abbrev pub pushed : MainPlace → ℕ
pushed (pushing x) = x
pushed _ = poison_pill

module _ {c : Config} {v : ℕ} {s t : Server c.Double} (inv : Kept c v s) (small : v < 2 ^ 31) where
  Move-Kept : (j : ℕ) → j < c.workers → Move c s j (s.place j) t → Kept c v t
  Move-Kept j lt mv =
      let hands =
        sum_below-change (held v) c.workers j s.place t.place lt
          (λ k lk ne. ap (held v) (Move-others c s t j k mv ne)) in
      balance mv hands
    where
      balance :
          Move c s j (s.place j) t
          → sum_below (held v) c.workers t.place + held v (s.place j)
            ≡ sum_below (held v) c.workers s.place + held v (t.place j)
          → Kept c v t
      balance (wait at l e0 e) hands = ground (arith, inv, hands)
      balance (wait_again at l e0 e) hands = ground (arith, inv, hands)
      balance (pop x rest at l e0 e) hands = ground (arith, inv, hands)
      balance (pop_woken x rest at l e0 e) hands = ground (arith, inv, hands)
      balance (spurious at e) hands = ground (arith, inv, hands)
      balance (exit x at e0 e) hands = ground (arith, inv, hands)
      balance (take_client x at ne e) hands = ground (arith, inv, hands)
      balance (handle_client socket bytes at sent e) hands =
          ground
            (arith, inv, hands, handle-frame c s j socket (parse_request c.strtod c.stack bytes))
      balance (reply socket amount at e) hands = ground (arith, inv, hands)
      balance (close socket at e) hands = ground (arith, inv, hands)

  MainMove-Kept : MainMove c s (s.main) t → Kept c v t
  MainMove-Kept mv = ground (
    arith,
    mv,
    inv,
    occurrences-push v (pushed s.main) s.queue,
    sum_below-congr (held v) c.workers s.place t.place (λ k lk. ground (arith, mv)),
  )

pub Reach-Kept : {c : Config} {s : Server c.Double} {v : ℕ} → Reach c s → v < 2 ^ 31 → Kept c v s
Reach-Kept {c} {v} start small =
    omega (arith, sum_below-const (held v) c.workers ((init c).place) 0 (λ j lj. refl))
Reach-Kept (step r (worker_runs j lt mv)) small = Move-Kept (Reach-Kept r small) small j lt mv
Reach-Kept (step r (main_runs mv)) small = MainMove-Kept (Reach-Kept r small) small mv
Reach-Kept (step r (client_acts socket bytes e)) small = rw e (Reach-Kept r small)
