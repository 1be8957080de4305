-- ===== src/WebServer/Shutdown.antt =====
-- exercise08/task3/server.c: the state in which `main` returns.
use ps_os.Base.{ℕ, ◌^◌, ◌<◌, ◌≡◌, ◌≢◌, refl, arith, true, [], ◌∷◌, sum_below-const, ℕ_discrete}
use ps_os.MyQueue.{MyQueue}
use ps_os.WebServer.Moves.{Move-others, Move-frame}
use ps_os.WebServer.Pills.{spent, all_pills, Reach-Pills}
use ps_os.WebServer.Sockets.{occurrences, held, Reach-Kept}
use ps_os.WebServer.{
  poison_pill, ended, MainPlace, joining, returned, Server, Config, Move, worker_runs, main_runs,
  client_acts, Reach, start, step,
}

-- How many workers `main` has joined.
abbrev pub joined : ℕ → MainPlace → ℕ
joined workers (joining i) = i
joined workers returned = workers
joined workers _ = 0

-- A worker that has ended makes no step.
ended_stays :
    {c : Config} {s t : Server c.Double} (j : ℕ) → Move c s j (s.place j) t → s.place j ≢ ended
ended_stays j mv h = ground (arith, mv)

pub Reach-joined :
    {c : Config} {s : Server c.Double}
    → Reach c s
    → (k : ℕ) → k < joined c.workers s.main
    → s.place k ≡ ended
Reach-joined start k lk = absurd (omega arith)
Reach-joined {c} (step {s} {t} r (worker_runs j lt mv)) k lk =
    let before : s.place k ≡ ended = Reach-joined r k (ground (arith, Move-frame c s t j mv)) in
    elim (ℕ_discrete k j) [
      | yes same ↦ absurd (ended_stays j mv (ground arith))
      | no ne ↦ ground (arith, before, Move-others c s t j k mv ne)
    ]
Reach-joined (step r (main_runs mv)) k lk = ground (arith, mv, Reach-joined r k)
Reach-joined (step r (client_acts socket bytes e)) k lk = ground (arith, Reach-joined r k)

emptied : (q : MyQueue) → all_pills q ≡ true → occurrences poison_pill q ≡ 0 → q ≡ []
emptied [] h e = refl
emptied (x ∷ q) h e = absurd (ground arith)

-- With at least one worker, when `main` has joined them and returns, every worker has ended, the queue
-- is empty, and each socket that was ever accepted has been closed as often as it was accepted: no
-- connection is dropped or closed twice.
pub shutdown_complete :
    {c : Config} {s : Server c.Double}
    → Reach c s
    → 0 < c.workers
    → s.main ≡ returned
    → (s.queue ≡ [])
      × ((j : ℕ) → j < c.workers → s.place j ≡ ended)
      × ((v : ℕ) → v < 2 ^ 31 → occurrences v s.closed ≡ occurrences v s.accepted)
shutdown_complete {c} {s} r some_worker at =
    let pills = Reach-Pills r in
    let all_ended : (j : ℕ) → j < c.workers → s.place j ≡ ended =
      λ j lj. Reach-joined r j (ground arith) in
    let all_spent =
      sum_below-const spent c.workers s.place 1 (λ j lj. ground (arith, all_ended j lj)) in
    let empty : s.queue ≡ [] =
      emptied (s.queue) (pills.drained 0 some_worker (ground (arith, all_ended 0 some_worker)))
        (ground (arith, pills.total, all_spent)) in
    (
      empty,
      all_ended,
      λ v small. ground (
        arith,
        Reach-Kept {v = v} r small,
        empty,
        sum_below-const (held v) c.workers s.place 0 (λ j lj. ground (arith, all_ended j lj)),
      ),
    )
