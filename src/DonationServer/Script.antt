-- ===== src/DonationServer/Script.antt =====
-- exercise08/task2/server.c: the messages, as the lines that the clients send.
use ps_os.Base.{
  ℕ, zero, suc, ◌<◌, ◌≡◌, refl, ap, arith, Bool, false, List, [], ◌∷◌, ◌++◌, ◌==◌, ◌||◌,
  if◌then◌else◌, length, replicate, set, overwrite, is_prefix, same_text, strcspn_newline,
}
use ps_os.Plugins.{CString, c_str}
use ps_os.DonationServer.{
  Event, received, disconnected, read_failed, signalled, Connection, connected, accept_failed,
  interrupted, Reply, not_a_number, balance, End, closed, exit_success, exit_failure, waiting,
  is_closed, shutdown_text,
}

-- The text up to its first 0 or newline.
abbrev pub line : List ℕ → CString
line [] = []
line (c ∷ s) = if (c == 0) || (c == b'\n') then [] else c ∷ line s

-- The messages of one client that are answered, how the connection ends, and whether the program is
-- to go on afterwards.
abbrev pub client_script : List Event → Bool → List (List ℕ) × End × Bool
client_script [] running = ([], waiting, running)
client_script (disconnected ∷ events) running = ([], closed, running)
client_script (read_failed ∷ events) running = ([], exit_failure, running)
client_script (signalled ∷ events) running = client_script events false
client_script (received bytes ∷ events) running =
    let (messages, end, after) = client_script events running in
    if is_prefix shutdown_text bytes
    then ([], exit_success, running)
    else (bytes ∷ messages, end, after)

-- The messages of all clients, and how the program ends.
abbrev pub script : List Connection → Bool → List (List ℕ) × End
script [] running = ([], if running then waiting else exit_success)
script (interrupted ∷ connections) running = script connections false
script (accept_failed ∷ connections) running = ([], if running then exit_failure else exit_success)
script (connected events ∷ connections) running =
    let (messages, end, after) = client_script events running in
    let (later, last) = script connections after in
    if running
    then if is_closed end then (messages ++ later, last) else (messages, end)
    else ([], exit_success)

pub c_str-line : (s : List ℕ) → c_str (set s (strcspn_newline s) 0) ≡ line s
c_str-line [] = refl
c_str-line (zero ∷ s) = ground arith
c_str-line (suc c ∷ s) = ground (arith, c_str-line s)

pub line-overwrite :
    (bytes : List ℕ) (n : ℕ)
    → length bytes < n
    → line (overwrite bytes (replicate n 0)) ≡ line bytes
line-overwrite bytes zero h = absurd (omega arith)
line-overwrite [] (suc n) h = refl
line-overwrite (b ∷ bytes) (suc n) h = ground (arith, line-overwrite bytes n (omega arith))

pub length-overwrite : (bytes text : List ℕ) → length (overwrite bytes text) ≡ length text
length-overwrite [] text = refl
length-overwrite (b ∷ bytes) [] = refl
length-overwrite (b ∷ bytes) (c ∷ text) = ap suc (length-overwrite bytes text)

module _ {D : Type 0} (add : D → D → D) (strtod : CString → D × CString) where
  -- The total after a message, and after several.
  abbrev pub add_message : D → List ℕ → D
  add_message total bytes =
      let (amount, rest) = strtod (line bytes) in
      if same_text rest [] then add total amount else total

  abbrev pub total_of : D → List (List ℕ) → D
  total_of total [] = total
  total_of total (bytes ∷ messages) = total_of (add_message total bytes) messages

  -- A number is answered by the total with it, any other line by the line.
  abbrev pub reply_to : D → List ℕ → Reply D
  reply_to total bytes =
      if same_text (strtod (line bytes)).1 []
      then balance (add_message total bytes)
      else not_a_number (line bytes)

  abbrev pub replies_of : D → List (List ℕ) → List (Reply D)
  replies_of total [] = []
  replies_of total (bytes ∷ messages) =
      reply_to total bytes ∷ replies_of (add_message total bytes) messages

  pub replies_of-append :
      (total : D) (xs ys : List (List ℕ))
      → replies_of total (xs ++ ys) ≡ replies_of total xs ++ replies_of (total_of total xs) ys
  replies_of-append total [] ys = refl
  replies_of-append total (x ∷ xs) ys =
      ap (λ r. reply_to total x ∷ r) (replies_of-append (add_message total x) xs ys)

  pub total_of-append :
      (total : D) (xs ys : List (List ℕ))
      → total_of total (xs ++ ys) ≡ total_of (total_of total xs) ys
  total_of-append total [] ys = refl
  total_of-append total (x ∷ xs) ys = total_of-append (add_message total x) xs ys
