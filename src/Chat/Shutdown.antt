-- ===== src/Chat/Shutdown.antt =====
-- exercise09/task1/server.c: what `main` waits for before it returns.
use ps_os.Base.{ℕ, ◌<◌, ◌≡◌, arith, Bool, true, false, List}
use ps_os.Plugins.{CString}
use ps_os.Chat.{
  finished, MainPlace, spinning, cancelling, joining_listener, closing_client, cancelling_client,
  joining_client, returned, Server, is_over, ClientMove, ListenerMove, MainMove, Step, client_runs,
  listener_runs, main_runs, handler, Reach, start, step,
}

-- How many places of the table `main` has gone through.
abbrev pub joined : Server → ℕ
joined s = elim (s.main) [
  | closing_client i ↦ i
  | cancelling_client i ↦ i
  | joining_client i ↦ i
  | returned ↦ s.client_count
  | _ ↦ 0
]

abbrev after_listener : MainPlace → Bool
after_listener spinning = false
after_listener cancelling = false
after_listener joining_listener = false
after_listener _ = true

record Joined (s : Server) : Type 0 where
  over : (k : ℕ) → k < joined s → is_over (s.clients (s.client_threads k)).place ≡ true
  quiet : after_listener (s.main) ≡ true → s.listener ≡ finished

module _ {s t : Server} (inv : Joined s) where
  ClientMove-Joined : (j : ℕ) → ClientMove s j (s.clients j).place t → Joined t
  ClientMove-Joined j mv = record {
    over = λ k lk. ground (arith, mv, inv.over k);
    quiet = λ h. ground (arith, mv, inv.quiet);
  }

  ListenerMove-Joined : {names : List CString} → ListenerMove names s (s.listener) t → Joined t
  ListenerMove-Joined mv = record {
    over = λ k lk. ground (arith, mv, inv.over k, inv.quiet);
    quiet = λ h. ground (arith, mv, inv.quiet);
  }

  MainMove-Joined : MainMove s (s.main) t → Joined t
  MainMove-Joined mv = record {
    over = λ k lk. ground (arith, mv, inv.over k);
    quiet = λ h. ground (arith, mv, inv.quiet);
  }

Step-Joined : {names : List CString} {s t : Server} → Joined s → Step names s t → Joined t
Step-Joined inv (client_runs j lt mv) = ClientMove-Joined inv j mv
Step-Joined inv (listener_runs mv) = ListenerMove-Joined inv mv
Step-Joined inv (main_runs mv) = MainMove-Joined inv mv
Step-Joined inv (handler e) = record {
  over = λ k lk. ground (arith, inv.over k);
  quiet = λ h. ground (arith, inv.quiet);
}

Reach-Joined : {names : List CString} {s : Server} → Reach names s → Joined s
Reach-Joined start = record { over = λ k lk. absurd (omega arith); quiet = λ h. absurd cc }
Reach-Joined (step r st) = Step-Joined (Reach-Joined r) st

-- When `main` has returned, the listener is over, and so is every client thread that stands in the
-- table below the count.
pub main_waits :
    {names : List CString} {s : Server}
    → Reach names s
    → s.main ≡ returned
    → (s.listener ≡ finished)
      × ((k : ℕ) → k < s.client_count → is_over (s.clients (s.client_threads k)).place ≡ true)
main_waits r e =
    let inv = Reach-Joined r in (inv.quiet (ground arith), λ k lk. inv.over k (ground arith))
