-- ===== src/WebServer/Moves.antt =====
-- exercise08/task3/server.c: what a worker's step leaves as it is.
use ps_os.Base.{ℕ, ◌≡◌, ◌≢◌, arith, Option, none, some, ◌⊎◌, inl, inr, ◌∷◌}
use ps_os.WebServer.Request.{Action, parse_request}
use ps_os.WebServer.{
  Place, replying, closing, Server, Config, handle, Move, wait, wait_again, pop, pop_woken,
  spurious, exit, take_client, handle_client, reply, close,
}

-- A client in the hands of a worker stays there.
abbrev pub in_hand : {D : Type 0} → Place D → Option ℕ
in_hand (replying x amount) = some x
in_hand (closing x) = some x
in_hand _ = none

module _ (c : Config) (s : Server c.Double) (j socket : ℕ) where
  pub handle-frame :
      (a : Action c.Double)
      → let t = handle c s j socket a in
        (t.queue ≡ s.queue)
        × (t.main ≡ s.main)
        × (t.accepted ≡ s.accepted)
        × (t.closed ≡ s.closed)
        × (t.locked ≡ s.locked)
        × (in_hand (t.place j) ≡ some socket)
  handle-frame a = ground arith

  pub handle-others :
      (a : Action c.Double) (k : ℕ) → k ≢ j → (handle c s j socket a).place k ≡ s.place k
  handle-others a k ne = ground arith

-- A worker moves itself alone.
pub Move-others :
    (c : Config) (s t : Server c.Double) (j k : ℕ)
    → Move c s j (s.place j) t
    → k ≢ j
    → t.place k ≡ s.place k
Move-others c s t j k (handle_client socket bytes at sent e) ne =
    ground (arith, handle-others c s j socket (parse_request c.strtod c.stack bytes) k ne)
Move-others c s t j k mv ne = ground (arith, mv)

-- A worker takes at most the front of the queue, and leaves the places of `main` and the mutex.
pub Move-frame :
    (c : Config) (s t : Server c.Double) (j : ℕ)
    → Move c s j (s.place j) t
    → (t.main ≡ s.main)
      × (t.locked ≡ s.locked)
      × ((t.queue ≡ s.queue) ⊎ ((x : ℕ) × (s.queue ≡ x ∷ t.queue)))
Move-frame c s t j (pop x rest at l e0 e) = (ground arith, ground arith, inr (x, ground arith))
Move-frame c s t j (pop_woken x rest at l e0 e) =
    (ground arith, ground arith, inr (x, ground arith))
Move-frame c s t j (handle_client socket bytes at sent e) =
    let frame = handle-frame c s j socket (parse_request c.strtod c.stack bytes) in
    (ground (arith, frame), ground (arith, frame), inl (ground (arith, frame)))
Move-frame c s t j (wait at l e0 e) = (ground arith, ground arith, inl (ground arith))
Move-frame c s t j (wait_again at l e0 e) = (ground arith, ground arith, inl (ground arith))
Move-frame c s t j (spurious at e) = (ground arith, ground arith, inl (ground arith))
Move-frame c s t j (exit x at e0 e) = (ground arith, ground arith, inl (ground arith))
Move-frame c s t j (take_client x at ne e) = (ground arith, ground arith, inl (ground arith))
Move-frame c s t j (reply socket amount at e) = (ground arith, ground arith, inl (ground arith))
Move-frame c s t j (close socket at e) = (ground arith, ground arith, inl (ground arith))
