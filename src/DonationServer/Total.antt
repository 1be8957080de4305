-- ===== src/DonationServer/Total.antt =====
-- exercise08/task2/server.c: the replies and the total depend on nothing but the messages.
use ps_os.Base.{
  ℕ, ◌<◌, ◌≡◌, refl, ap, ◌∙◌, arith, true, false, List, [], ◌∷◌, length, replicate, set, overwrite,
  is_prefix, is_prefix-overwrite, strcspn_newline, All, Bool-cases, inl, inr, length-replicate,
}
use ps_os.Plugins.{CString, c_str}
use ps_os.DonationServer.{
  max_buffer, Event, received, disconnected, read_failed, signalled, Connection, connected,
  accept_failed, interrupted, closed, is_closed, shutdown_text, State, handle_message, serve_client,
  serve, main,
}
use ps_os.DonationServer.Script.{
  line, client_script, script, c_str-line, line-overwrite, length-overwrite, add_message, total_of,
  reply_to, replies_of, replies_of-append, total_of-append,
}

module _ {D : Type 0} (add : D → D → D) (strtod : CString → D × CString) where
  handle_message-reply :
      (n : ℕ) (bytes : List ℕ) (s : State D)
      → length bytes < n
      → s.msg ≡ overwrite bytes (replicate n 0)
      → ((handle_message add strtod s).0 ≡ reply_to add strtod s.donations bytes)
        × ((handle_message add strtod s).1 ≡ record {
          msg = replicate n 0;
          donations = add_message add strtod s.donations bytes;
          running = s.running;
        })
  unfolding handle_message
  handle_message-reply n bytes s short e = ground (arith, text, empty)
    where
      text : c_str (set s.msg (strcspn_newline s.msg) 0) ≡ line bytes
      text = c_str-line s.msg ∙ ap line e ∙ line-overwrite bytes n short

      empty : replicate {A = ℕ} (length s.msg) 0 ≡ replicate n 0
      empty =
          ap (λ k. replicate k 0)
            (ap length e ∙ length-overwrite bytes (replicate n 0) ∙ length-replicate {A = ℕ} n 0)

  -- A message that fits with a terminator.
  abbrev pub Fits : ℕ → Event → Type 0
  Fits n (received bytes) = length bytes < n
  Fits n _ = Unit

  abbrev pub ConnectionFits : ℕ → Connection → Type 0
  ConnectionFits n (connected events) = All (Fits n) events
  ConnectionFits n _ = Unit

  -- What is claimed of one client, from a clear buffer.
  record Served (n : ℕ) (events : List Event) (s : State D) : Type 0 where
    replies :
        (serve_client add strtod events s).0
        ≡ replies_of add strtod s.donations (client_script events s.running).0
    end : (serve_client add strtod events s).1 ≡ (client_script events s.running).1
    total :
        (serve_client add strtod events s).2.donations
        ≡ total_of add strtod s.donations (client_script events s.running).0
    running : (serve_client add strtod events s).2.running ≡ (client_script events s.running).2
    clear :
        (client_script events s.running).1 ≡ closed
        → (serve_client add strtod events s).2.msg ≡ replicate n 0

  shutdown_text-pos : All (λ c. 0 < c) shutdown_text
  shutdown_text-pos = omega arith

  serve_client-Served :
      (n : ℕ) (events : List Event) (s : State D)
      → All (Fits n) events
      → s.msg ≡ replicate n 0
      → Served n events s
  unfolding serve_client
  serve_client-Served n [] s h e = record {
    replies = refl;
    end = refl;
    total = refl;
    running = refl;
    clear = λ c. absurd cc;
  }
  serve_client-Served n (disconnected ∷ events) s h e = record {
    replies = refl;
    end = refl;
    total = refl;
    running = refl;
    clear = λ c. e;
  }
  serve_client-Served n (read_failed ∷ events) s h e = record {
    replies = refl;
    end = refl;
    total = refl;
    running = refl;
    clear = λ c. absurd cc;
  }
  serve_client-Served n (signalled ∷ events) s h e =
      let rest = serve_client-Served n events (record s { running = false }) h.1 e in
      record {
        replies = rest.replies;
        end = rest.end;
        total = rest.total;
        running = rest.running;
        clear = rest.clear;
      }
  serve_client-Served n (received bytes ∷ events) s (short, h) e =
      let msg = overwrite bytes s.msg in
      let handled =
        handle_message-reply n bytes (record s { msg = msg }) short (ap (overwrite bytes) e) in
      let found : is_prefix shutdown_text msg ≡ is_prefix shutdown_text bytes =
        ap (λ m. is_prefix shutdown_text (overwrite bytes m)) e
        ∙ is_prefix-overwrite shutdown_text bytes n shutdown_text-pos (omega arith) in
      let rest =
        serve_client-Served n events
          (record {
            msg = replicate n 0;
            donations = add_message add strtod s.donations bytes;
            running = s.running;
          })
          h refl in
      elim (Bool-cases (is_prefix shutdown_text bytes)) [
        | inl stop ↦ record {
          replies = ground (arith, found);
          end = ground (arith, found);
          total = ground (arith, found);
          running = ground (arith, found);
          clear = λ c. absurd (ground (arith, found));
        }
        | inr go ↦ record {
          replies = ground (arith, found, handled, rest.replies);
          end = ground (arith, found, handled, rest.end);
          total = ground (arith, found, handled, rest.total);
          running = ground (arith, found, handled, rest.running);
          clear = λ c. ground (arith, found, handled, rest.clear);
        }
      ]

  serve-script :
      (n : ℕ) (connections : List Connection) (s : State D)
      → All (ConnectionFits n) connections
      → s.msg ≡ replicate n 0
      → let (messages, end) = script connections s.running in
        serve add strtod connections s ≡ (
          replies_of add strtod s.donations messages,
          end,
          total_of add strtod s.donations messages,
        )
  unfolding serve
  serve-script n [] s h e = ground arith
  serve-script n (interrupted ∷ connections) s h e =
      serve-script n connections (record s { running = false }) h.1 e
  serve-script n (accept_failed ∷ connections) s h e = ground arith
  serve-script n (connected events ∷ connections) s (fits, h) e =
      let served = serve_client-Served n events s fits e in
      let after = (serve_client add strtod events s).2 in
      let answered = (client_script events s.running).0 in
      elim (Bool-cases (is_closed (client_script events s.running).1)) [
        | inr over ↦ ground (arith, served.replies, served.end, served.total)
        | inl goes_on ↦ ground (
          arith,
          served.replies,
          served.end,
          served.total,
          served.running,
          serve-script n connections after h (served.clear (ground arith)),
          replies_of-append add strtod s.donations answered (script connections after.running).0,
          total_of-append add strtod s.donations answered (script connections after.running).0,
        )
      ]

  -- Where no message fills the buffer, which messages are answered and how the program ends depends on
  -- the events alone; each message is answered by itself, a number by the running total with it and any
  -- other line by the line; and the total at the end is that of all the numbers, in order. Nothing of
  -- an earlier, longer message is seen in a later one.
  pub main-script :
      (zero_value : D) (connections : List Connection)
      → All (ConnectionFits max_buffer) connections
      → let (messages, end) = script connections true in
        main add strtod zero_value connections
        ≡ (replies_of add strtod zero_value messages, end, total_of add strtod zero_value messages)
  unfolding main
  main-script zero_value connections h =
      serve-script max_buffer connections
        (record { msg = replicate max_buffer 0; donations = zero_value; running = true }) h refl
