-- ===== src/DonationServer.antt =====
-- exercise08/task2/server.c: a TCP server that adds up the donations of one client after the other.
-- The `double`s with `strtod` are a parameter. A state holds the message buffer and the total.
pub mod Script
pub mod Total
use ps_os.Base.{
  ℕ, Bool, true, false, List, [], ◌∷◌, ◌++◌, if◌then◌else◌, length, replicate, set, overwrite,
  is_prefix, same_text, strcspn_newline,
}
use ps_os.Plugins.{CString, c_str}

abbrev pub max_buffer : ℕ
max_buffer = 1024

-- What comes of a `read`, and SIGINT while the server is in no call.
pub data Event : Type 0 where
  received : List ℕ → Event
  disconnected : Event
  read_failed : Event  -- also where SIGINT ends the call
  signalled : Event

-- What comes of an `accept`, with what happens on the connection, and SIGINT between two connections.
pub data Connection : Type 0 where
  connected : List Event → Connection
  accept_failed : Connection  -- also where SIGINT ends the call
  interrupted : Connection

pub data Reply (D : Type 0) : Type 0 where
  not_a_number : CString → Reply D
  balance : D → Reply D

-- How a connection, or the program, ends; `waiting` is in a call still.
pub data End : Type 0 where
  closed : End
  exit_success : End
  exit_failure : End
  waiting : End

-- The client has gone, and the server goes on.
abbrev pub is_closed : End → Bool
is_closed closed = true
is_closed _ = false

abbrev pub shutdown_text : CString
shutdown_text = b'/' ∷ b's' ∷ b'h' ∷ b'u' ∷ b't' ∷ b'd' ∷ b'o' ∷ b'w' ∷ b'n' ∷ []

pub record State (D : Type 0) : Type 0 where
  pub msg : List ℕ
  pub donations : D
  pub running : Bool

module _ {D : Type 0} (add : D → D → D) (strtod : CString → D × CString) where
  -- A message that is in the buffer: the reply, and the total and the buffer afterwards.
  unfoldable pub handle_message : State D → Reply D × State D
  handle_message s =
      let text = c_str (set s.msg (strcspn_newline s.msg) 0) in
      let (tmp, end) = strtod text in
      let empty = replicate (length s.msg) 0 in
      if same_text end []
      then (
        balance (add s.donations tmp),
        record s { msg = empty; donations = add s.donations tmp },
      )
      else (not_a_number text, record s { msg = empty })

  -- The inner loop: the replies, the end, and the state.
  unfoldable pub serve_client : List Event → State D → List (Reply D) × End × State D
  serve_client [] s = ([], waiting, s)
  serve_client (disconnected ∷ events) s = ([], closed, s)
  serve_client (read_failed ∷ events) s = ([], exit_failure, s)
  serve_client (signalled ∷ events) s = serve_client events (record s { running = false })
  serve_client (received bytes ∷ events) s =
      let msg = overwrite bytes s.msg in
      let (reply, after) = handle_message (record s { msg = msg }) in
      let (replies, end, last) = serve_client events after in
      if is_prefix shutdown_text msg
      then ([], exit_success, record s { msg = msg })
      else (reply ∷ replies, end, last)

  -- `while (running)`: the replies to all clients in turn, the end, and the total.
  unfoldable pub serve : List Connection → State D → List (Reply D) × End × D
  serve [] s = if s.running then ([], waiting, s.donations) else ([], exit_success, s.donations)
  serve (interrupted ∷ connections) s = serve connections (record s { running = false })
  serve (accept_failed ∷ connections) s =
      if s.running then ([], exit_failure, s.donations) else ([], exit_success, s.donations)
  serve (connected events ∷ connections) s =
      let (replies, end, after) = serve_client events s in
      let (later, last, total) = serve connections after in
      if s.running
      then if is_closed end
        then (replies ++ later, last, total)
        else (replies, end, after.donations)
      else ([], exit_success, s.donations)

  unfoldable pub main : D → List Connection → List (Reply D) × End × D
  main zero_value connections =
      serve connections
        (record { msg = replicate max_buffer 0; donations = zero_value; running = true })
