-- ===== src/Examples/Messages.antt =====
-- exercise05/task1: messages with numbers.
use ps_os.Base.{
  ℕ, suc, ◌*◌, ◌-◌, ◌^◌, ◌≤◌, ◌≡◌, ◌≢◌, get_or, refl, ap, ◌∙◌, arith, List, [], ◌∷◌, leb,
  if◌then◌else◌, length, length-replicate, replicate,
}
use ps_os.Scheduler.{
  Message, counted, past_end, parse_numbers, parse_loop, Event, message, receive_failed, interrupt,
  main,
}
use ps_os.Plugins.{c_str}
use ps_os.Scheduler.Words.{words}
use ps_os.Scheduler.Parsing.{parse_numbers-bounded}
use ps_os.Scheduler.Tasks.{reports, main-reports}

-- An insertion sort for `qsort`.
abbrev insert : (ℕ → ℕ → ℕ) → ℕ → List ℕ → List ℕ
insert order x [] = x ∷ []
insert order x (y ∷ ys) =
    let rest = insert order x ys in if leb (2 ^ 31) (order y x) then y ∷ rest else x ∷ y ∷ ys

abbrev sort : (ℕ → ℕ → ℕ) → List ℕ → List ℕ
sort order [] = []
sort order (x ∷ xs) = insert order x (sort order xs)

length-insert :
    (order : ℕ → ℕ → ℕ) (x : ℕ) (xs : List ℕ) → length (insert order x xs) ≡ suc (length xs)
length-insert order x [] = refl
length-insert order x (y ∷ ys) = ground (arith, length-insert order x ys)

length-sort : (order : ℕ → ℕ → ℕ) (xs : List ℕ) → length (sort order xs) ≡ length xs
length-sort order [] = refl
length-sort order (x ∷ xs) = length-insert order x (sort order xs) ∙ ap suc (length-sort order xs)

abbrev events : List Event
events =
    message (b'3' ∷ b' ' ∷ b'1' ∷ b'2' ∷ replicate 1020 0)
    ∷ receive_failed
    ∷ message (b'x' ∷ [])
    ∷ interrupt
    ∷ []

abbrev block : Message
block = record { numbers = replicate 1024 7; mesg_text = replicate 1024 7 }

main-reports_example : main sort events block ≡ reports sort length-sort events
main-reports_example =
    main-reports sort length-sort events block
      (length-replicate {A = ℕ} 1024 7, length-replicate {A = ℕ} 1024 7) (omega arith)

-- -1 and 5 as `long`s.
abbrev minus_one : ℕ
minus_one = 2 ^ 64 - 1

abbrev five : ℕ
five = 5

abbrev two_numbers : Message
two_numbers = record { numbers = replicate 4 0; mesg_text = b'1' ∷ b' ' ∷ b'2' ∷ 0 ∷ [] }

two_numbers_found : (parse_numbers two_numbers).0 ≡ counted 2
unfolding parse_numbers parse_loop
two_numbers_found = refl

parse_numbers-bounded_example :
    ((parse_numbers two_numbers).0 ≢ past_end)
    × (length (parse_numbers two_numbers).1.numbers ≡ 4)
    × ((count : ℕ)
        → (parse_numbers two_numbers).0 ≡ counted count
        → (count ≡ length (words (c_str (two_numbers.mesg_text)))) × (2 * count ≤ 4))
    × ((j : ℕ)
        → 4 ≤ 2 * j
        → get_or (parse_numbers two_numbers).1.numbers j 0 ≡ get_or (two_numbers.numbers) j 0)
parse_numbers-bounded_example = parse_numbers-bounded two_numbers refl (omega arith)
