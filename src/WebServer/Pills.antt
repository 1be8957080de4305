-- ===== src/WebServer/Pills.antt =====
-- exercise08/task3/server.c: the poison pills and what the workers do with them.
use ps_os.Base.{
  ℕ, ◌+◌, ◌^◌, ◌≤◌, ◌<◌, ◌≡◌, ◌≢◌, refl, ap, arith, Bool, true, ◌&&◌, [], ◌∷◌, ◌==◌, if◌then◌else◌,
  sum_below, sum_below-change, sum_below-congr, sum_below-const, sum_below-term, ℕ_discrete,
}
use ps_os.MyQueue.{MyQueue, myqueue_push}
use ps_os.WebServer.Moves.{handle-frame, Move-others, Move-frame}
use ps_os.WebServer.Request.{parse_request}
use ps_os.WebServer.Sockets.{occurrences, occurrences-push, pushed}
use ps_os.WebServer.{
  poison_pill, Place, deciding, ended, MainPlace, pushing, poisoning, broadcasting, joining,
  returned, Server, Config, init, Move, wait, wait_again, pop, pop_woken, spurious, exit,
  take_client, handle_client, reply, close, MainMove, worker_runs, main_runs, client_acts, Reach,
  start, step,
}

-- A worker that has taken a pill.
abbrev pub spent : {D : Type 0} → Place D → ℕ
spent (deciding x) = if x == poison_pill then 1 else 0
spent ended = 1
spent _ = 0

abbrev pub pushed_pills : ℕ → MainPlace → ℕ
pushed_pills workers (poisoning i) = i
pushed_pills workers broadcasting = workers
pushed_pills workers (joining i) = workers
pushed_pills workers returned = workers
pushed_pills workers _ = 0

abbrev pub all_pills : MyQueue → Bool
all_pills [] = true
all_pills (x ∷ q) = (x == poison_pill) && all_pills q

-- The socket that `main` has just accepted.
abbrev pub new_socket : MainPlace → ℕ
new_socket (pushing x) = x
new_socket _ = 0

-- No socket stands behind a pill.
abbrev pub pills_last : MyQueue → Bool
pills_last [] = true
pills_last (x ∷ q) = if x == poison_pill then all_pills q else pills_last q

all_pills-push : (q : MyQueue) → all_pills (myqueue_push q poison_pill) ≡ all_pills q
all_pills-push [] = refl
all_pills-push (x ∷ q) = ground (arith, all_pills-push q)

pills_last-push : (q : MyQueue) → pills_last (myqueue_push q poison_pill) ≡ pills_last q
pills_last-push [] = refl
pills_last-push (x ∷ q) = ground (arith, pills_last-push q, all_pills-push q)

pills_last-push_socket :
    (q : MyQueue) (x : ℕ) → occurrences poison_pill q ≡ 0 → pills_last (myqueue_push q x) ≡ true
pills_last-push_socket [] x h = ground arith
pills_last-push_socket (y ∷ q) x h = ground (arith, pills_last-push_socket q x)

all_pills-last : (q : MyQueue) → all_pills q ≡ true → pills_last q ≡ true
all_pills-last [] h = refl
all_pills-last (x ∷ q) h = ground (arith, all_pills-last q)

pub record Pills (c : Config) (s : Server c.Double) : Type 0 where
  pub total :
      pushed_pills c.workers s.main
      ≡ occurrences poison_pill s.queue + sum_below spent c.workers s.place
  pub order : pills_last s.queue ≡ true
  pub drained : (j : ℕ) → j < c.workers → spent (s.place j) ≡ 1 → all_pills s.queue ≡ true
  pub bounded : pushed_pills c.workers s.main ≤ c.workers
  pub socket : new_socket s.main < 2 ^ 31

module _ {c : Config} {s t : Server c.Double} (inv : Pills c s) where
  Move-Pills : (j : ℕ) → j < c.workers → Move c s j (s.place j) t → Pills c t
  Move-Pills j lt mv = record {
    total = total mv (
        sum_below-change spent c.workers j s.place t.place lt
          (λ k lk ne. ap spent (Move-others c s t j k mv ne)));
    order = ground (arith, inv.order, Move-frame c s t j mv, all_pills-last t.queue);
    drained = λ k lk. drained mv k lk (Move-others c s t j k mv);
    bounded = ground (arith, inv.bounded, Move-frame c s t j mv);
    socket = ground (arith, inv.socket, Move-frame c s t j mv);
  }
    where
      total :
          Move c s j (s.place j) t
          → sum_below spent c.workers t.place + spent (s.place j)
            ≡ sum_below spent c.workers s.place + spent (t.place j)
          → pushed_pills c.workers t.main
            ≡ occurrences poison_pill t.queue + sum_below spent c.workers t.place
      total (wait at l e0 e) sums = ground (arith, inv.total, sums)
      total (wait_again at l e0 e) sums = ground (arith, inv.total, sums)
      total (pop x rest at l e0 e) sums = ground (arith, inv.total, sums)
      total (pop_woken x rest at l e0 e) sums = ground (arith, inv.total, sums)
      total (spurious at e) sums = ground (arith, inv.total, sums)
      total (exit x at e0 e) sums = ground (arith, inv.total, sums)
      total (take_client x at ne e) sums = ground (arith, inv.total, sums)
      total (handle_client socket bytes at sent e) sums =
          ground (
            arith,
            inv.total,
            sums,
            handle-frame c s j socket (parse_request c.strtod c.stack bytes),
          )
      total (reply socket amount at e) sums = ground (arith, inv.total, sums)
      total (close socket at e) sums = ground (arith, inv.total, sums)

      own : Move c s j (s.place j) t → spent (t.place j) ≡ 1 → all_pills t.queue ≡ true
      own (wait at l e0 e) h = absurd (ground arith)
      own (wait_again at l e0 e) h = absurd (ground arith)
      own (pop x rest at l e0 e) h = ground (arith, inv.order)
      own (pop_woken x rest at l e0 e) h = ground (arith, inv.order)
      own (spurious at e) h = absurd (ground arith)
      own (exit x at e0 e) h = ground (arith, inv.drained j lt)
      own (take_client x at ne e) h = absurd (ground arith)
      own (handle_client socket bytes at sent e) h =
          absurd (ground (arith, handle-frame c s j socket (parse_request c.strtod c.stack bytes)))
      own (reply socket amount at e) h = absurd (ground arith)
      own (close socket at e) h = absurd (ground arith)

      drained :
          Move c s j (s.place j) t
          → (k : ℕ) → k < c.workers
          → (k ≢ j → t.place k ≡ s.place k)
          → spent (t.place k) ≡ 1
          → all_pills t.queue ≡ true
      drained mv k lk others h = elim (ℕ_discrete k j) [
        | yes same ↦ own mv (ground arith)
        | no ne ↦ ground (arith, others ne, inv.drained k lk, Move-frame c s t j mv)
      ]

module _ {c : Config} {s t : Server c.Double} (inv : Pills c s) where
  MainMove-Pills : MainMove c s (s.main) t → Pills c t
  MainMove-Pills mv = record {
    total = ground (
      arith,
      mv,
      inv.total,
      inv.socket,
      occurrences-push poison_pill (pushed s.main) s.queue,
      sums,
    );
    order = ground (
      arith,
      mv,
      inv.order,
      inv.total,
      pills_last-push s.queue,
      pills_last-push_socket s.queue (pushed s.main),
    );
    drained = λ j lj h. ground (
      arith,
      mv,
      inv.total,
      all_pills-push s.queue,
      inv.drained j lj,
      sum_below-term spent c.workers j s.place lj,
    );
    bounded = ground (arith, mv, inv.bounded);
    socket = ground (arith, mv, inv.socket);
  }
    where
      sums : sum_below spent c.workers s.place ≡ sum_below spent c.workers t.place
      sums = sum_below-congr spent c.workers s.place t.place (λ k lk. ground (arith, mv))

pub Reach-Pills : {c : Config} {s : Server c.Double} → Reach c s → Pills c s
Reach-Pills {c} start = record {
  total = omega (arith, sum_below-const spent c.workers ((init c).place) 0 (λ j lj. refl));
  order = refl;
  drained = λ j lj h. refl;
  bounded = omega arith;
  socket = omega arith;
}
Reach-Pills (step r (worker_runs j lt mv)) = Move-Pills (Reach-Pills r) j lt mv
Reach-Pills (step r (main_runs mv)) = MainMove-Pills (Reach-Pills r) mv
Reach-Pills (step r (client_acts socket bytes e)) =
    let inv = Reach-Pills r in
    rw e (record {
      total = inv.total;
      order = inv.order;
      drained = inv.drained;
      bounded = inv.bounded;
      socket = inv.socket;
    })
