-- ===== src/Examples/Donors.antt =====
-- exercise08/task2: two clients, of which the second shuts the server down.
use ps_os.Base.{ℕ, ◌+◌, ◌-◌, ◌≡◌, refl, arith, true, List, [], ◌∷◌, if◌then◌else◌, same_text}
use ps_os.Plugins.{CString}
use ps_os.Scheduler.{isdigit}
use ps_os.DonationServer.{
  received, disconnected, Connection, connected, shutdown_text, not_a_number, balance, exit_success,
  main,
}
use ps_os.DonationServer.Script.{script, replies_of, total_of}
use ps_os.DonationServer.Total.{main-script}

abbrev plus : ℕ → ℕ → ℕ
plus a b = a + b

-- A number of one digit.
abbrev digit : CString → ℕ × CString
digit [] = (0, [])
digit (c ∷ s) = if isdigit c then (c - b'0', s) else (0, c ∷ s)

abbrev visits : List Connection
visits =
    connected (received (b'7' ∷ b'\n' ∷ []) ∷ received (b'x' ∷ []) ∷ disconnected ∷ [])
    ∷ connected (received (b'2' ∷ []) ∷ received shutdown_text ∷ [])
    ∷ []

visits_scripted :
    (replies_of plus digit 0 (script visits true).0
      ≡ balance 7 ∷ not_a_number (b'x' ∷ []) ∷ balance 9 ∷ [])
    × ((script visits true).1 ≡ exit_success)
unfolding same_text
visits_scripted = (refl, refl)

main-script_example : main plus digit 0 visits ≡ (
  replies_of plus digit 0 (script visits true).0,
  (script visits true).1,
  total_of plus digit 0 (script visits true).0,
)
main-script_example = main-script plus digit 0 visits (omega arith)
