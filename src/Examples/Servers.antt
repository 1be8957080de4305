-- ===== src/Examples/Servers.antt =====
-- exercise09/task1 and exercise08/task3: short runs of the servers.
use ps_os.Base.{
  ℕ, ◌+◌, ◌^◌, ◌≤◌, ◌<◌, ◌≡◌, ◌⊎◌, refl, arith, true, ◌&&◌, ◌||◌, List, [], ◌∷◌, ◌++◌, some, length,
  ltb, same_text, replicate, sum_below, ℕ_discrete,
}
use ps_os.Plugins.{CString}
use ps_os.Chat
use ps_os.Chat.Login.{
  max_admins, admin_usernames, check_admin, receive_username, is_name, login_lem,
}
use ps_os.Chat.Count.{present, reserved, client_count_bounded}
use ps_os.Chat.Shutdown.{main_waits}
use ps_os.WebServer
use ps_os.WebServer.Request.{shutdown, dispatch, parse_request}
use ps_os.WebServer.Sockets.{occurrences}
use ps_os.WebServer.Shutdown.{shutdown_complete}
use ps_os.WebServer.Progress.{CanRun, ReadsFromSilent, shutdown_progress}

abbrev ann : CString
ann = b'a' ∷ b'n' ∷ b'n' ∷ []

abbrev admins : List CString
admins = ann ∷ []

abbrev fifty_ones : List ℕ
fifty_ones = replicate 50 1

login_lem_example :
    (receive_username fifty_ones (ann ++ b'\n' ∷ []) ≡ ann)
    × (check_admin (admin_usernames admins) (receive_username fifty_ones (ann ++ b'\n' ∷ []))
        ≡ (is_name ann admins || (ltb (length admins) max_admins && same_text ann [])))
login_lem_example =
    login_lem admins fifty_ones ann [] (omega arith) (omega arith) (ground arith) (omega arith)

-- A client without a name is an administrator.
nameless_is_admin :
    check_admin (admin_usernames admins) (receive_username fifty_ones (b'\n' ∷ [])) ≡ true
unfolding check_admin admin_usernames receive_username same_text
nameless_is_admin = refl

-- One client has come in.
one_client : (s : Chat.Server) × Chat.Reach admins s × (s.client_count ≡ 1)
one_client =
    let entered = Chat.step Chat.start (Chat.listener_runs (Chat.enter refl refl refl)) in
    let accepted = Chat.step entered (Chat.listener_runs (Chat.accept 4 refl refl)) in
    let counted =
      Chat.step accepted (Chat.listener_runs (Chat.see_room 4 refl (omega arith) refl)) in
    let named =
      Chat.step counted
        (Chat.listener_runs (Chat.receive_name 4 fifty_ones (ann ++ b'\n' ∷ []) refl refl)) in
    (_, Chat.step named (Chat.listener_runs (Chat.create 4 _ refl refl)), refl)

client_count_bounded_example :
    (one_client.0.client_count ≡ sum_below present one_client.0.created one_client.0.clients)
    × (one_client.0.client_count + reserved (one_client.0.listener) ≤ Chat.max_connections)
client_count_bounded_example = client_count_bounded one_client.1

-- The server is interrupted before a client comes.
interrupted : (s : Chat.Server) × Chat.Reach admins s × (s.main ≡ Chat.returned)
interrupted =
    let signalled = Chat.step Chat.start (Chat.handler refl) in
    let leaving = Chat.step signalled (Chat.main_runs (Chat.leave_loop refl refl refl)) in
    let cancelled = Chat.step leaving (Chat.main_runs (Chat.cancel_listener refl refl)) in
    let stopped = Chat.step cancelled (Chat.listener_runs (Chat.stop refl refl refl)) in
    let joined = Chat.step stopped (Chat.main_runs (Chat.join_listener refl refl refl)) in
    (_, Chat.step joined (Chat.main_runs (Chat.return 0 refl (omega arith) refl)), refl)

main_waits_example :
    (interrupted.0.listener ≡ Chat.finished)
    × ((k : ℕ)
        → k < interrupted.0.client_count
        → Chat.is_over (interrupted.0.clients (interrupted.0.client_threads k)).place ≡ true)
main_waits_example = main_waits interrupted.1 interrupted.2

abbrev shutdown_request : CString
shutdown_request =
    b'P'
    ∷ b'O'
    ∷ b'S'
    ∷ b'T'
    ∷ b' '
    ∷ (b'/' ∷ b's' ∷ b'h' ∷ b'u' ∷ b't' ∷ b'd' ∷ b'o' ∷ b'w' ∷ b'n' ∷ b' ' ∷ [])

-- One worker, with natural numbers for the amounts.
abbrev one_worker : WebServer.Config
one_worker = record {
  Double = ℕ;
  zero_value = 0;
  add = λ a b. a + b;
  strtod = length;
  stack = ([], []);
  workers = 1;
}

shutdown_parsed : parse_request {D = ℕ} length ([], []) (some shutdown_request) ≡ shutdown
unfolding parse_request dispatch same_text
shutdown_parsed = refl

abbrev Trace : Type 0
Trace = (s : WebServer.Server ℕ) × WebServer.Reach one_worker s

abbrev moves :
    (r : Trace) → {t : WebServer.Server ℕ} → WebServer.Move one_worker r.0 0 (r.0.place 0) t → Trace
moves r {t} mv = (t, WebServer.step r.1 (WebServer.worker_runs 0 (omega arith) mv))

abbrev main_moves :
    (r : Trace) → {t : WebServer.Server ℕ} → WebServer.MainMove one_worker r.0 (r.0.main) t → Trace
main_moves r {t} mv = (t, WebServer.step r.1 (WebServer.main_runs mv))

abbrev client_sends : Trace → ℕ → CString → Trace
client_sends r v bytes = (_, WebServer.step r.1 (WebServer.client_acts v (some bytes) refl))

-- A client asks for the end before `main` tests `running` again.
told_to_stop : Trace
unfolding parse_request dispatch same_text ℕ_discrete
told_to_stop =
    let r0 : Trace = (WebServer.init one_worker, WebServer.start) in
    let r1 = main_moves r0 (WebServer.go_on refl (ground arith) refl) in
    let r2 = main_moves r1 (WebServer.accept 5 refl (omega arith) refl) in
    let r3 = main_moves r2 (WebServer.push_alone 5 refl (λ j lj. cc) refl) in
    let r4 = moves r3 (WebServer.pop 5 [] refl refl refl refl) in
    let r5 = moves r4 (WebServer.take_client 5 refl (ground arith) refl) in
    let sent = client_sends r5 5 shutdown_request in
    let r6 = moves sent (WebServer.handle_client 5 (some shutdown_request) refl refl refl) in
    let r7 = moves r6 (WebServer.close 5 refl refl) in main_moves r7 (WebServer.stop refl refl refl)

told_to_stop-main : told_to_stop.0.main ≡ WebServer.poisoning 0
unfolding told_to_stop
told_to_stop-main = refl

shutdown_progress_example :
    CanRun one_worker told_to_stop.0 ⊎ ReadsFromSilent one_worker told_to_stop.0
shutdown_progress_example = shutdown_progress told_to_stop.1 (rw told_to_stop-main refl)

-- The worker takes the pill, and `main` joins it.
shut_down : Trace
unfolding told_to_stop
shut_down =
    let r1 = main_moves told_to_stop (WebServer.push_pill 0 refl (omega arith) refl) in
    let r2 = main_moves r1 (WebServer.pills_done 1 refl (omega arith) refl) in
    let r3 = main_moves r2 (WebServer.broadcast refl refl) in
    let r4 = moves r3 (WebServer.pop WebServer.poison_pill [] refl refl refl refl) in
    let r5 = moves r4 (WebServer.exit WebServer.poison_pill refl refl refl) in
    let r6 = main_moves r5 (WebServer.join 0 refl (omega arith) refl refl) in
    main_moves r6 (WebServer.return 1 refl (omega arith) refl)

shut_down-main : shut_down.0.main ≡ WebServer.returned
unfolding shut_down
shut_down-main = refl

shutdown_complete_example :
    (shut_down.0.queue ≡ [])
    × ((j : ℕ) → j < 1 → shut_down.0.place j ≡ WebServer.ended)
    × ((v : ℕ) → v < 2 ^ 31 → occurrences v shut_down.0.closed ≡ occurrences v shut_down.0.accepted)
shutdown_complete_example = shutdown_complete shut_down.1 (omega arith) shut_down-main
