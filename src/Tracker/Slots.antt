-- ===== src/Tracker/Slots.antt =====
-- exercise01/task1/includes/memory_tracking.c, `find_address`: the first slot with an address.
use ps_os.Base.{
  ℕ, zero, suc, ◌+◌, ◌<◌, ◌≡◌, ◌≢◌, refl, none, some, List, [], ◌∷◌, arith, ◌==◌, if◌then◌else◌,
  get_or, set, replicate, length,
}
use ps_os.Tracker.{Memory, free_slot, find_address}

-- A slot that is found lies in the table and has the address.
pub find_address-some :
    (ms : List Memory) (address i : ℕ)
    → find_address ms address ≡ some i
    → (i < length ms) × ((get_or ms i free_slot).address ≡ address)
unfolding find_address
find_address-some [] address i e = cc
find_address-some (m ∷ ms) address zero e = ground arith
find_address-some (m ∷ ms) address (suc i) e = ground (arith, find_address-some ms address i)

pub find_address-none :
    (ms : List Memory) (address j : ℕ)
    → find_address ms address ≡ none
    → j < length ms
    → (get_or ms j free_slot).address ≢ address
unfolding find_address
find_address-none [] address j e lt = absurd (omega arith)
find_address-none (m ∷ ms) address zero e lt = ground arith
find_address-none (m ∷ ms) address (suc j) e lt =
    find_address-none ms address j (ground arith) (omega arith)

-- The bytes of a slot that is in use, and of all such slots.
abbrev pub live_size : Memory → ℕ
live_size m = if m.address == 0 then 0 else m.size

abbrev pub live : List Memory → ℕ
live [] = 0
live (m ∷ ms) = live_size m + live ms

pub live-set :
    (ms : List Memory) (i : ℕ) (m : Memory)
    → i < length ms
    → live (set ms i m) + live_size (get_or ms i free_slot) ≡ live ms + live_size m
live-set [] i m lt = absurd (omega arith)
live-set (x ∷ ms) zero m lt = ground arith
live-set (x ∷ ms) (suc i) m lt = omega (arith, live-set ms i m (omega arith))

pub live-free : (n : ℕ) → live (replicate n free_slot) ≡ 0
live-free zero = refl
live-free (suc n) = omega (arith, live-free n)
