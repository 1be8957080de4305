-- ===== src/WebServer.antt =====
-- exercise08/task3/server.c: an HTTP server. `main` accepts connections and queues their sockets, and
-- workers take them from the queue, until each is ended by a poison pill. All that is done to the
-- queue is between a lock of `mutex_queue` and its unlock, or a wait on its condition variable, so
-- each such section is one step. A worker that reads from a client waits until that client has sent
-- something or closed its end, or the read fails, which are steps of the surroundings. The `double`s
-- are a parameter.
pub mod Request
pub mod Moves
pub mod Sockets
pub mod Pills
pub mod Shutdown
pub mod Progress
use ps_os.Base.{
  ℕ, ◌+◌, ◌-◌, ◌%◌, ◌^◌, ◌≤◌, ◌<◌, ◌≡◌, ◌≢◌, Bool, true, false, List, [], ◌∷◌, Option, none, some,
  update,
}
use ps_os.MyQueue.{MyQueue, myqueue_init, myqueue_is_empty, myqueue_push, myqueue_pop}
use ps_os.Plugins.{CString}
use ps_os.WebServer.Request.{
  Action, read_failed, welcome, donate, no_donation, shutdown, not_implemented, parse_request,
}

-- -1 as an `int`.
abbrev pub poison_pill : ℕ
poison_pill = 2 ^ 32 - 1

-- Where a worker stands in `thread_func` and `handle_client`.
pub data Place (D : Type 0) : Type 0 where
  idle : Place D  -- before the lock
  waiting : Place D  -- in `pthread_cond_wait`
  woken : Place D
  deciding : ℕ → Place D  -- with what it has popped
  handling : ℕ → Place D  -- before `read`
  replying : ℕ → D → Place D  -- before the reply to a donation
  closing : ℕ → Place D  -- before `close`
  ended : Place D

pub data MainPlace : Type 0 where
  testing : MainPlace
  accepting : MainPlace
  pushing : ℕ → MainPlace
  poisoning : ℕ → MainPlace  -- holds the mutex, with `i`
  broadcasting : MainPlace
  joining : ℕ → MainPlace
  returned : MainPlace
  failed : MainPlace

-- `accepted`, `closed` and `donated` record what has happened.
pub record Server (D : Type 0) : Type 0 where
  pub queue : MyQueue
  pub locked : Bool  -- `main` holds the mutex over several steps
  pub running : ℕ
  pub donations : D
  pub place : ℕ → Place D
  pub arrived : ℕ → Option (Option CString)  -- what `read` on a socket finds, if it returns
  pub main : MainPlace
  pub accepted : List ℕ
  pub closed : List ℕ
  pub donated : List D

-- `double`s with `strtod`, and what `sscanf` finds on the stack.
pub record Config : Type 1 where
  pub Double : Type 0
  pub zero_value : Double
  pub add : Double → Double → Double
  pub strtod : CString → Double
  pub stack : CString × CString
  pub workers : ℕ  -- `n`

abbrev pub wake : {D : Type 0} → Place D → Place D
wake waiting = woken
wake p = p

module _ (c : Config) where
  -- After the workers have been created and the socket listens.
  abbrev pub init : Server (c.Double)
  init = record {
    queue = myqueue_init;
    locked = false;
    running = 1;
    donations = c.zero_value;
    place = λ j. idle;
    arrived = λ v. none;
    main = testing;
    accepted = [];
    closed = [];
    donated = [];
  }

  abbrev pub go : Server c.Double → ℕ → Place c.Double → Server (c.Double)
  go s j p = record s { place = update s.place j p }

  -- `handle_client` up to the reply, for the branch that the request takes.
  abbrev pub handle : Server c.Double → ℕ → ℕ → Action c.Double → Server (c.Double)
  handle s j socket (donate amount) = record (go s j (replying socket amount)) {
    donations = c.add s.donations amount;
    donated = amount ∷ s.donated;
  }
  handle s j socket shutdown = record (go s j (closing socket)) {
    running = (s.running + (2 ^ 32 - 1)) % 2 ^ 32;
  }
  handle s j socket _ = go s j (closing socket)

  -- The steps of worker `j` from place `p`.
  pub data Move (s : Server c.Double) (j : ℕ) (p : Place c.Double) (t : Server c.Double)
      : Type 0 where
    wait :
        p ≡ idle
        → s.locked ≡ false
        → myqueue_is_empty (s.queue) ≡ true
        → t ≡ go s j waiting
        → Move s j p t
    wait_again :
        p ≡ woken
        → s.locked ≡ false
        → myqueue_is_empty (s.queue) ≡ true
        → t ≡ go s j waiting
        → Move s j p t
    pop :
        (v : ℕ) (rest : MyQueue)
        → p ≡ idle
        → s.locked ≡ false
        → myqueue_pop (s.queue) ≡ some (v, rest)
        → t ≡ record (go s j (deciding v)) { queue = rest }
        → Move s j p t
    pop_woken :
        (v : ℕ) (rest : MyQueue)
        → p ≡ woken
        → s.locked ≡ false
        → myqueue_pop (s.queue) ≡ some (v, rest)
        → t ≡ record (go s j (deciding v)) { queue = rest }
        → Move s j p t
    spurious : p ≡ waiting → t ≡ go s j woken → Move s j p t
    exit : (v : ℕ) → p ≡ deciding v → v ≡ poison_pill → t ≡ go s j ended → Move s j p t
    take_client :
        (v : ℕ) → p ≡ deciding v → v ≢ poison_pill → t ≡ go s j (handling v) → Move s j p t
    handle_client :
        (socket : ℕ) (bytes : Option CString)
        → p ≡ handling socket
        → s.arrived socket ≡ some bytes
        → t ≡ handle s j socket (parse_request c.strtod c.stack bytes)
        → Move s j p t
    reply :
        (socket : ℕ) (amount : c.Double)
        → p ≡ replying socket amount
        → t ≡ go s j (closing socket)
        → Move s j p t
    close :
        (socket : ℕ)
        → p ≡ closing socket
        → t ≡ record (go s j idle) { closed = socket ∷ s.closed }
        → Move s j p t

  -- The steps of `main` from place `m`. A signal wakes one worker that waits, if there is one.
  pub data MainMove (s : Server c.Double) (m : MainPlace) (t : Server c.Double) : Type 0 where
    go_on : m ≡ testing → s.running ≢ 0 → t ≡ record s { main = accepting } → MainMove s m t
    stop :
        m ≡ testing
        → s.running ≡ 0
        → t ≡ record s { locked = true; main = poisoning 0 }
        → MainMove s m t
    accept :
        (socket : ℕ)
        → m ≡ accepting
        → socket < 2 ^ 31
        → t ≡ record s {
          accepted = socket ∷ s.accepted;
          arrived = update s.arrived socket none;
          main = pushing socket;
        }
        → MainMove s m t
    accept_interrupted :
        m ≡ accepting → t ≡ record s { locked = true; main = poisoning 0 } → MainMove s m t
    accept_fails : m ≡ accepting → t ≡ record s { main = failed } → MainMove s m t
    push_signal :
        (socket j : ℕ)
        → m ≡ pushing socket
        → j < c.workers
        → s.place j ≡ waiting
        → t ≡ record (go s j woken) { queue = myqueue_push (s.queue) socket; main = testing }
        → MainMove s m t
    push_alone :
        (socket : ℕ)
        → m ≡ pushing socket
        → ((j : ℕ) → j < c.workers → s.place j ≢ waiting)
        → t ≡ record s { queue = myqueue_push (s.queue) socket; main = testing }
        → MainMove s m t
    push_pill :
        (i : ℕ)
        → m ≡ poisoning i
        → i < c.workers
        → t ≡ record s { queue = myqueue_push (s.queue) poison_pill; main = poisoning (i + 1) }
        → MainMove s m t
    pills_done :
        (i : ℕ)
        → m ≡ poisoning i
        → c.workers ≤ i
        → t ≡ record s { main = broadcasting }
        → MainMove s m t
    broadcast :
        m ≡ broadcasting
        → t ≡ record s { place = λ j. wake (s.place j); locked = false; main = joining 0 }
        → MainMove s m t
    join :
        (i : ℕ)
        → m ≡ joining i
        → i < c.workers
        → s.place i ≡ ended
        → t ≡ record s { main = joining (i + 1) }
        → MainMove s m t
    return :
        (i : ℕ) → m ≡ joining i → c.workers ≤ i → t ≡ record s { main = returned } → MainMove s m t

  pub data Step (s t : Server c.Double) : Type 0 where
    worker_runs : (j : ℕ) → j < c.workers → Move s j (s.place j) t → Step s t
    main_runs : MainMove s (s.main) t → Step s t
    client_acts :
        (socket : ℕ) (bytes : Option CString)
        → t ≡ record s { arrived = update s.arrived socket (some bytes) }
        → Step s t

  pub data Reach : Server c.Double → Type 0 where
    start : Reach init
    step : {s t : Server c.Double} → Reach s → Step s t → Reach t
