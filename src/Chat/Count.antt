-- ===== src/Chat/Count.antt =====
-- exercise09/task1/server.c: the number of clients.
use ps_os.Base.{
  ℕ, ◌+◌, ◌≤◌, ◌<◌, ◌≡◌, refl, arith, true, false, List, sum_below, sum_below-update,
  sum_below-extend, sum_below-term, sum_below-congr, update,
}
use ps_os.Plugins.{CString}
use ps_os.Chat.{
  max_connections, reading, closing, leaving, ended, cancelled, ClientPlace, Client, ListenerPlace,
  receiving, registering, Server, init, ClientMove, MainPlace, cancelling_client, ListenerMove,
  MainMove, Step, client_runs, listener_runs, main_runs, handler, Reach, start, step,
}

-- A thread that has not taken itself off the count.
abbrev pub present : Client → ℕ
present c = elim (c.place) [ ended ↦ 0 | _ ↦ 1 ]

-- The place that the listener has found free for the next client.
abbrev pub reserved : ListenerPlace → ℕ
reserved (receiving socket) = 1
reserved (registering socket is_admin) = 1
reserved _ = 0

record Counts (s : Server) : Type 0 where
  total : s.client_count ≡ sum_below present s.created s.clients
  full : s.client_count + reserved (s.listener) ≤ max_connections

abbrev new_client : ListenerPlace → Client
new_client (registering socket is_admin) = record {
  socket = socket;
  is_admin = is_admin;
  place = reading;
  cancel_requested = false;
}
new_client _ = init.clients 0

-- The place that `main` is at in the table.
abbrev slot : MainPlace → ℕ
slot (cancelling_client i) = i
slot _ = 0

module _ {s t : Server} (inv : Counts s) where
  ListenerMove-Counts : {names : List CString} → ListenerMove names s (s.listener) t → Counts t
  ListenerMove-Counts mv = record {
    total = ground (
      arith,
      mv,
      inv.total,
      sum_below-extend present s.created s.clients (new_client s.listener),
    );
    full = ground (arith, mv, inv.full);
  }

  ClientMove-Counts : (j : ℕ) → j < s.created → ClientMove s j (s.clients j).place t → Counts t
  ClientMove-Counts j lt mv =
      let sums = λ (p : ClientPlace).
        sum_below-update present s.created j s.clients (record (s.clients j) { place = p }) lt in
      record {
        total = ground (
          arith,
          mv,
          inv.total,
          sum_below-term present s.created j s.clients lt,
          sums closing,
          sums leaving,
          sums ended,
          sums cancelled,
        );
        full = ground (arith, mv, inv.full);
      }

  MainMove-Counts : MainMove s (s.main) t → Counts t
  MainMove-Counts mv = record {
    total = ground (
      arith,
      mv,
      inv.total,
      sum_below-congr present s.created s.clients
          (update s.clients target (record (s.clients target) { cancel_requested = true }))
          (λ k lk. ground arith),
    );
    full = ground (arith, mv, inv.full);
  }
    where
      target : ℕ
      target = s.client_threads (slot s.main)

Step-Counts : {names : List CString} {s t : Server} → Counts s → Step names s t → Counts t
Step-Counts inv (client_runs j lt mv) = ClientMove-Counts inv j lt mv
Step-Counts inv (listener_runs mv) = ListenerMove-Counts inv mv
Step-Counts inv (main_runs mv) = MainMove-Counts inv mv
Step-Counts inv (handler e) = record {
  total = ground (arith, inv.total);
  full = ground (arith, inv.full);
}

Reach-Counts : {names : List CString} {s : Server} → Reach names s → Counts s
unfolding sum_below
Reach-Counts start = record { total = refl; full = omega arith }
Reach-Counts (step r st) = Step-Counts (Reach-Counts r) st

-- In every reachable state the count is the number of client threads that have not taken themselves
-- off it, and with the place that the listener has found free for the next client it is at most 16,
-- so that the client is written within the bounds of the tables.
pub client_count_bounded :
    {names : List CString} {s : Server}
    → Reach names s
    → (s.client_count ≡ sum_below present s.created s.clients)
      × (s.client_count + reserved (s.listener) ≤ max_connections)
client_count_bounded r = let inv = Reach-Counts r in (inv.total, inv.full)
