-- ===== src/Chat.antt =====
-- exercise09/task1/server.c: the chat server. One thread accepts clients, each client has a thread,
-- and `main` waits for `running` to be cleared. What a thread does between the lock of the mutex and
-- its unlock is one step, since only `main`, at the end, reads the count without it.
pub mod Login
pub mod Count
pub mod Shutdown
use ps_os.Base.{
  ℕ, zero, suc, ◌+◌, ◌-◌, ◌≤◌, ◌<◌, ◌≡◌, Bool, true, false, ◌&&◌, ◌||◌, List, [], ◌∷◌, ◌==◌,
  if◌then◌else◌, length, replicate, is_prefix, take, update,
}
use ps_os.Chat.Login.{admin_usernames, check_admin, receive_username}
use ps_os.Plugins.{CString}

abbrev pub max_connections : ℕ
max_connections = 16

abbrev pub is_shutdown : List ℕ → Bool
is_shutdown msg = is_prefix (b'/' ∷ b's' ∷ b'h' ∷ b'u' ∷ b't' ∷ b'd' ∷ b'o' ∷ b'w' ∷ b'n' ∷ []) msg

-- Where a client's thread stands.
pub data ClientPlace : Type 0 where
  reading : ClientPlace
  closing : ClientPlace  -- before `close`
  leaving : ClientPlace  -- before the count is taken down
  ended : ClientPlace
  cancelled : ClientPlace

-- A client's thread with its `client_info_t`.
pub record Client : Type 0 where
  pub socket : ℕ
  pub is_admin : Bool
  pub place : ClientPlace
  pub cancel_requested : Bool

-- Where the listener stands.
pub data ListenerPlace : Type 0 where
  testing : ListenerPlace
  accepting : ListenerPlace
  counting : ℕ → ListenerPlace
  refusing : ℕ → ListenerPlace
  receiving : ℕ → ListenerPlace
  registering : ℕ → Bool → ListenerPlace
  finished : ListenerPlace

pub data MainPlace : Type 0 where
  spinning : MainPlace
  cancelling : MainPlace
  joining_listener : MainPlace
  closing_client : ℕ → MainPlace
  cancelling_client : ℕ → MainPlace
  joining_client : ℕ → MainPlace
  returned : MainPlace

pub record Server : Type 0 where
  pub running : Bool
  pub client_count : ℕ
  pub client_threads : ℕ → ℕ
  pub client_sockets : ℕ → ℕ
  pub created : ℕ  -- how many client threads there have been
  pub clients : ℕ → Client  -- by the number of the thread
  pub listener : ListenerPlace
  pub listener_cancelled : Bool
  pub main : MainPlace

abbrev pub init : Server
init = record {
  running = true;
  client_count = 0;
  client_threads = λ i. 0;
  client_sockets = λ i. 0;
  created = 0;
  clients = λ j. record { socket = 0; is_admin = false; place = ended; cancel_requested = false };
  listener = testing;
  listener_cancelled = false;
  main = spinning;
}

-- A client's thread goes to a place.
abbrev pub go : Server → ℕ → ClientPlace → Server
go s j p = record s { clients = update s.clients j (record (s.clients j) { place = p }) }

-- The steps of thread `j` in `client_thread`, from place `p`. `read` and `close` end a thread that is
-- to be cancelled.
pub data ClientMove (s : Server) (j : ℕ) (p : ClientPlace) (t : Server) : Type 0 where
  read_text :
      (msg : List ℕ)
      → p ≡ reading
      → (is_shutdown msg && (s.clients j).is_admin) ≡ false
      → t ≡ s
      → ClientMove s j p t
  read_shutdown :
      (msg : List ℕ)
      → p ≡ reading
      → (is_shutdown msg && (s.clients j).is_admin) ≡ true
      → t ≡ record (go s j closing) { running = false }
      → ClientMove s j p t
  read_ends : p ≡ reading → t ≡ go s j closing → ClientMove s j p t
  close_socket : p ≡ closing → t ≡ go s j leaving → ClientMove s j p t
  leave :
      p ≡ leaving
      → t ≡ record (go s j ended) { client_count = s.client_count - 1 }
      → ClientMove s j p t
  end_reading :
      p ≡ reading
      → (s.clients j).cancel_requested ≡ true
      → t ≡ go s j cancelled
      → ClientMove s j p t
  end_closing :
      p ≡ closing
      → (s.clients j).cancel_requested ≡ true
      → t ≡ go s j cancelled
      → ClientMove s j p t

-- What a thread with the count in hand writes for a new client.
abbrev pub register : Server → ℕ → Bool → Server
register s socket is_admin = record s {
  client_sockets = update s.client_sockets s.client_count socket;
  client_threads = update s.client_threads s.client_count s.created;
  client_count = s.client_count + 1;
  created = s.created + 1;
  clients =
      update s.clients s.created (record {
        socket = socket;
        is_admin = is_admin;
        place = reading;
        cancel_requested = false;
      });
  listener = testing;
}

-- The steps of `listener_thread`, for the names on the command line.
pub data ListenerMove (names : List CString) (s : Server) (l : ListenerPlace) (t : Server)
    : Type 0 where
  enter :
      l ≡ testing
      → s.running ≡ true
      → t ≡ record s { listener = accepting }
      → ListenerMove names s l t
  stop :
      l ≡ testing
      → s.running ≡ false
      → t ≡ record s { listener = finished }
      → ListenerMove names s l t
  accept :
      (socket : ℕ)
      → l ≡ accepting
      → t ≡ record s { listener = counting socket }
      → ListenerMove names s l t
  accept_interrupted :
      l ≡ accepting → t ≡ record s { listener = testing } → ListenerMove names s l t
  accept_fails : l ≡ accepting → t ≡ record s { listener = finished } → ListenerMove names s l t
  see_full :
      (socket : ℕ)
      → l ≡ counting socket
      → max_connections ≤ s.client_count
      → t ≡ record s { listener = refusing socket }
      → ListenerMove names s l t
  refuse :
      (socket : ℕ)
      → l ≡ refusing socket
      → t ≡ record s { listener = testing }
      → ListenerMove names s l t
  see_room :
      (socket : ℕ)
      → l ≡ counting socket
      → s.client_count < max_connections
      → t ≡ record s { listener = receiving socket }
      → ListenerMove names s l t
  receive_name :
      (socket : ℕ) (block bytes : List ℕ)
      → l ≡ receiving socket
      → t ≡ record s {
        listener =
            registering socket (check_admin (admin_usernames names) (receive_username block bytes));
      }
      → ListenerMove names s l t
  create :
      (socket : ℕ) (is_admin : Bool)
      → l ≡ registering socket is_admin
      → t ≡ register s socket is_admin
      → ListenerMove names s l t
  end_accepting :
      l ≡ accepting
      → s.listener_cancelled ≡ true
      → t ≡ record s { listener = finished }
      → ListenerMove names s l t
  end_refusing :
      (socket : ℕ)
      → l ≡ refusing socket
      → s.listener_cancelled ≡ true
      → t ≡ record s { listener = finished }
      → ListenerMove names s l t
  end_receiving :
      (socket : ℕ)
      → l ≡ receiving socket
      → s.listener_cancelled ≡ true
      → t ≡ record s { listener = finished }
      → ListenerMove names s l t

-- A client's thread that is over.
abbrev pub is_over : ClientPlace → Bool
is_over ended = true
is_over cancelled = true
is_over _ = false

-- The steps of `main` from the loop on `running`.
pub data MainMove (s : Server) (m : MainPlace) (t : Server) : Type 0 where
  leave_loop :
      m ≡ spinning → s.running ≡ false → t ≡ record s { main = cancelling } → MainMove s m t
  cancel_listener :
      m ≡ cancelling
      → t ≡ record s { listener_cancelled = true; main = joining_listener }
      → MainMove s m t
  join_listener :
      m ≡ joining_listener
      → s.listener ≡ finished
      → t ≡ record s { main = closing_client 0 }
      → MainMove s m t
  close_client :
      (i : ℕ)
      → m ≡ closing_client i
      → i < s.client_count
      → t ≡ record s { main = cancelling_client i }
      → MainMove s m t
  cancel_client :
      (i : ℕ)
      → m ≡ cancelling_client i
      → t ≡ record s {
        clients =
            update s.clients
              (s.client_threads i)
              (record (s.clients (s.client_threads i)) { cancel_requested = true });
        main = joining_client i;
      }
      → MainMove s m t
  join_client :
      (i : ℕ)
      → m ≡ joining_client i
      → is_over (s.clients (s.client_threads i)).place ≡ true
      → t ≡ record s { main = closing_client (i + 1) }
      → MainMove s m t
  return :
      (i : ℕ)
      → m ≡ closing_client i
      → s.client_count ≤ i
      → t ≡ record s { main = returned }
      → MainMove s m t

-- A step of the process; SIGINT calls `handler`.
pub data Step (names : List CString) (s t : Server) : Type 0 where
  client_runs : (j : ℕ) → j < s.created → ClientMove s j (s.clients j).place t → Step names s t
  listener_runs : ListenerMove names s (s.listener) t → Step names s t
  main_runs : MainMove s (s.main) t → Step names s t
  handler : t ≡ record s { running = false } → Step names s t

pub data Reach (names : List CString) : Server → Type 0 where
  start : Reach names init
  step : {s t : Server} → Reach names s → Step names s t → Reach names t
