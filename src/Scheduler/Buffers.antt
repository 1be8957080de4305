-- ===== src/Scheduler/Buffers.antt =====
-- exercise05/task1/scheduler.c: the buffer, and the loop that clears it.
use ps_os.Base.{
  ℕ, zero, suc, ◌+◌, ◌<◌, ◌≤◌, ◌≡◌, refl, ap, ap₂, sym, ◌∙◌, List, [], ◌∷◌, arith, ltb,
  if◌then◌else◌, length, get_or, set, overwrite, replicate, list_ext, length-set, length-replicate,
  get_or-replicate, get_or-set_self, get_or-set_ne, ℕ_discrete,
}
use ps_os.Plugins.{c_str}
use ps_os.Scheduler.{Message, is_terminated, clean_loop}

-- The texts that are received into a text of zeros.
pub c_str-overwrite :
    (n : ℕ) (bytes : List ℕ)
    → length bytes ≤ n
    → c_str (overwrite bytes (replicate n 0)) ≡ c_str bytes
c_str-overwrite zero [] h = refl
c_str-overwrite zero (b ∷ bytes) h = absurd (omega arith)
c_str-overwrite (suc n) [] h = refl
c_str-overwrite (suc n) (zero ∷ bytes) h = refl
c_str-overwrite (suc n) (suc b ∷ bytes) h =
    ap (λ r. suc b ∷ r) (c_str-overwrite n bytes (omega arith))

-- They are terminated just if the message holds a 0 or leaves room for one.
pub is_terminated-overwrite :
    (n : ℕ) (bytes : List ℕ)
    → length bytes ≤ n
    → is_terminated (overwrite bytes (replicate n 0)) ≡ ltb (length (c_str bytes)) n
is_terminated-overwrite zero [] h = refl
is_terminated-overwrite zero (b ∷ bytes) h = absurd (omega arith)
is_terminated-overwrite (suc n) [] h = ground arith
is_terminated-overwrite (suc n) (zero ∷ bytes) h = ground arith
is_terminated-overwrite (suc n) (suc b ∷ bytes) h = ground (arith, is_terminated-overwrite n bytes)

pub length-overwrite : (bytes text : List ℕ) → length (overwrite bytes text) ≡ length text
length-overwrite [] text = refl
length-overwrite (b ∷ bytes) [] = refl
length-overwrite (b ∷ bytes) (c ∷ text) = ap suc (length-overwrite bytes text)

clear : ℕ → ℕ → List ℕ → List ℕ
clear zero i xs = xs
clear (suc rounds) i xs = clear rounds (i + 1) (set xs i 0)

clean_loop-clear :
    (rounds i : ℕ) (m : Message)
    → clean_loop rounds i m
      ≡ record { numbers = clear rounds i m.numbers; mesg_text = clear rounds i m.mesg_text }
unfolding clean_loop clear
clean_loop-clear zero i m = refl
clean_loop-clear (suc rounds) i m =
    clean_loop-clear rounds (i + 1)
      (record { numbers = set (m.numbers) i 0; mesg_text = set (m.mesg_text) i 0 })

length-clear : (rounds i : ℕ) (xs : List ℕ) → length (clear rounds i xs) ≡ length xs
unfolding clear
length-clear zero i xs = refl
length-clear (suc rounds) i xs = length-clear rounds (i + 1) (set xs i 0) ∙ length-set xs i 0

get_or-clear :
    (rounds i : ℕ) (xs : List ℕ) (j : ℕ)
    → rounds + i ≡ length xs
    → j < length xs
    → get_or (clear rounds i xs) j 0 ≡ (if ltb j i then get_or xs j 0 else 0)
unfolding clear
get_or-clear zero i xs j e lj = ground arith
get_or-clear (suc rounds) i xs j e lj =
    get_or-clear rounds (i + 1) (set xs i 0) j (omega (arith, length-set xs i 0))
      (omega (arith, length-set xs i 0))
    ∙ elim (ℕ_discrete i j) [
      | yes at ↦ ground (arith, get_or-set_self xs i 0 0)
      | no off ↦ ground (arith, get_or-set_ne xs i j 0 0 off)
    ]

clear-replicate :
    (rounds : ℕ) (xs : List ℕ) → length xs ≡ rounds → clear rounds 0 xs ≡ replicate rounds 0
clear-replicate rounds xs l =
    list_ext (clear rounds 0 xs) (replicate rounds 0) 0
      (length-clear rounds 0 xs ∙ l ∙ sym (length-replicate rounds 0))
      (λ j lj.
        get_or-clear rounds 0 xs j (omega arith) (omega (arith, length-clear rounds 0 xs))
        ∙ ground (arith, get_or-replicate {A = ℕ} rounds 0 j))

abbrev pub IsBuffer : ℕ → Message → Type 0
IsBuffer n m = (length (m.numbers) ≡ n) × (length (m.mesg_text) ≡ n)

abbrev pub clean : ℕ → Message
clean n = record { numbers = replicate n 0; mesg_text = replicate n 0 }

pub clean_loop-clean : (n : ℕ) (m : Message) → IsBuffer n m → clean_loop n 0 m ≡ clean n
clean_loop-clean n m (ln, lt) =
    clean_loop-clear n 0 m
    ∙ ap₂ (λ a b. record { numbers = a; mesg_text = b }) (clear-replicate n m.numbers ln)
        (clear-replicate n m.mesg_text lt)
