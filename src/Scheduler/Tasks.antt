-- ===== src/Scheduler/Tasks.antt =====
-- exercise05/task1/scheduler.c: each message is a task of its own.
use ps_os.Base.{
  ℕ, zero, suc, ◌+◌, ◌≤◌, ◌<◌, ◌≡◌, refl, ap, ap₂, sym, ◌∙◌, List, [], ◌∷◌, ◌++◌, Option, some,
  arith, length, take, drop, overwrite, replicate, length-append, length-replicate, All,
  Option-cases, true, none, inl, inr,
}
use ps_os.Plugins.{CString, c_str}
use ps_os.Scheduler.{
  msg_size, Message, compare, tokens, Parsed, counted, message_size_zero_error, not_a_number_error,
  past_end, is_terminated, then_reports, parse_loop, parse_numbers, Event, message, receive_failed,
  interrupt, Report, task_failed, sorted_numbers, shutting_down, finish_task, perform_task,
  run_loop, main,
}
use ps_os.Scheduler.Parsing.{
  numbers_of, weight, tokens_from-length, c_str-length, parse_loop-invalid, parse_loop-valid,
  length-parse_loop, numbers_of-readings,
}
use ps_os.Scheduler.Words.{numbers_in, readings, tokens-words}
use ps_os.Scheduler.Buffers.{
  c_str-overwrite, is_terminated-overwrite, length-overwrite, IsBuffer, clean, clean_loop-clean,
}

take-append : (k : ℕ) (xs ys : List ℕ) → length xs ≡ k → take k (xs ++ ys) ≡ xs
take-append zero [] ys e = refl
take-append zero (x ∷ xs) ys e = absurd (omega arith)
take-append (suc k) [] ys e = absurd (omega arith)
take-append (suc k) (x ∷ xs) ys e = ap (λ r. x ∷ r) (take-append k xs ys (omega arith))

length-take-drop : (k : ℕ) (xs : List ℕ) → length (take k xs) + length (drop k xs) ≡ length xs
length-take-drop zero xs = omega arith
length-take-drop (suc k) [] = omega arith
length-take-drop (suc k) (x ∷ xs) = omega (arith, length-take-drop k xs)

module _ (qsort : (ℕ → ℕ → ℕ) → List ℕ → List ℕ)
    (length-qsort : (order : ℕ → ℕ → ℕ) (xs : List ℕ) → length (qsort order xs) ≡ length xs) where
  -- What the program prints for a message.
  abbrev pub report : Option (List ℕ) → Report
  report (some (n ∷ ns)) = sorted_numbers (qsort compare (n ∷ ns))
  report _ = task_failed

  abbrev pub report_of : List ℕ → Report
  report_of bytes = report (numbers_in (c_str bytes))

  abbrev pub reports : List Event → List Report
  reports [] = []
  reports (message bytes ∷ events) = report_of bytes ∷ reports events
  reports (receive_failed ∷ events) = reports events
  reports (interrupt ∷ events) = shutting_down ∷ []

  -- A message as long as the queue takes one that holds a terminator or leaves room for one, as those
  -- of service.c do, which are always 1024 bytes long.
  abbrev pub Fits : Event → Type 0
  Fits (message bytes) = (length bytes ≤ msg_size) × (length (c_str bytes) < msg_size)
  Fits _ = Unit

  finish_task-IsBuffer :
      (parsed : Parsed) (m : Message)
      → let after = (finish_task qsort parsed m).1 in
        (length (after.numbers) ≡ length (m.numbers)) × (after.mesg_text ≡ m.mesg_text)
  unfolding finish_task
  finish_task-IsBuffer (counted count) m = (
    length-append (qsort compare (take count m.numbers)) (drop count m.numbers)
        ∙ omega
            (arith, length-qsort compare (take count m.numbers), length-take-drop count m.numbers),
    refl,
  )
  finish_task-IsBuffer message_size_zero_error m = (refl, refl)
  finish_task-IsBuffer not_a_number_error m = (refl, refl)
  finish_task-IsBuffer past_end m = (refl, refl)

  finish_task-sorted :
      (m : Message) (n : ℕ) (ns : List ℕ)
      → take (suc (length ns)) (m.numbers) ≡ n ∷ ns
      → (finish_task qsort (counted (suc (length ns))) m).0
        ≡ sorted_numbers (qsort compare (n ∷ ns))
  unfolding finish_task
  finish_task-sorted m n ns e = ap sorted_numbers (
      rw e (
        take-append (suc (length ns)) (qsort compare (n ∷ ns)) (drop (suc (length ns)) m.numbers)
          (length-qsort compare (n ∷ ns))))

  perform_task-report :
      (m : Message) (bytes : List ℕ)
      → length (m.mesg_text) ≤ length (m.numbers)
      → is_terminated (m.mesg_text) ≡ true
      → c_str (m.mesg_text) ≡ c_str bytes
      → (perform_task qsort m).0 ≡ report (numbers_of (tokens true (c_str bytes)))
  unfolding perform_task finish_task parse_numbers weight
  perform_task-report m bytes h ends same =
      rw (ends, same)
        (elim (Option-cases (numbers_of (tokens true (c_str bytes)))) [
          | inl bad ↦
              ap (λ p. (finish_task qsort p (written (c_str bytes))).0)
                (parse_loop-invalid (tokens true (c_str bytes)) 0 m.numbers bad room)
              ∙ sym (ap report bad)
          | inr ([], good) ↦
              ap (λ p. (finish_task qsort p (written (c_str bytes))).0)
                (parse_loop-valid (tokens true (c_str bytes)) 0 0 m.numbers [] good room
                  (omega arith)).0
              ∙ sym (ap report good)
          | inr (n ∷ ns, good) ↦
              let parsed =
                parse_loop-valid (tokens true (c_str bytes)) 0 (suc (length ns)) m.numbers (n ∷ ns)
                  good room (omega arith) in
              ap (λ p. (finish_task qsort p (written (c_str bytes))).0)
                (let e : (parse_loop true (tokens true (c_str bytes)) 0 m.numbers).0
                      ≡ counted (suc (length ns)) =
                    ground (arith, parsed.0) in
                  e)
              ∙ finish_task-sorted (written (c_str bytes)) n ns parsed.1
              ∙ sym (ap report good)
        ])
    where
      written : CString → Message
      written text = record m { numbers = (parse_loop true (tokens true text) 0 m.numbers).1 }

      room : 0 + length (tokens true (c_str bytes)) ≤ length (m.numbers)
      room =
          omega
            (arith, tokens_from-length [] (c_str bytes), c_str-length (m.mesg_text), ap length same)

  perform_task-IsBuffer :
      (n : ℕ) (m : Message)
      → is_terminated (m.mesg_text) ≡ true
      → IsBuffer n m
      → IsBuffer n (perform_task qsort m).1
  unfolding perform_task parse_numbers
  perform_task-IsBuffer n m ends (ln, lt) =
      let ts = tokens true (c_str (m.mesg_text)) in
      let parsed : Message = record m { numbers = (parse_loop true ts 0 m.numbers).1 } in
      let kept = finish_task-IsBuffer (parse_loop true ts 0 m.numbers).0 parsed in
      rw ends (kept.0 ∙ length-parse_loop ts 0 m.numbers ∙ ln, ap length kept.1 ∙ lt)

  -- The numbers as the words of the text give them.
  same_report : (bytes : List ℕ) → report (numbers_of (tokens true (c_str bytes))) ≡ report_of bytes
  same_report bytes =
      ap report
        (numbers_of-readings (tokens true (c_str bytes)) ∙ ap readings (tokens-words (c_str bytes)))

  not_fault :
      (found : Option (List ℕ)) (rest : List Report)
      → then_reports (report found) rest ≡ report found ∷ rest
  not_fault none rest = refl
  not_fault (some []) rest = refl
  not_fault (some (n ∷ ns)) rest = refl

  run_loop-reports :
      (events : List Event)
      → All Fits events
      → run_loop qsort events (clean msg_size) ≡ reports events
  unfolding run_loop
  run_loop-reports [] h = refl
  run_loop-reports (message bytes ∷ events) (fits, h) =
      let received : Message = record {
        numbers = replicate msg_size 0;
        mesg_text = overwrite bytes (replicate msg_size 0);
      } in
      let zeros : length (replicate {A = ℕ} msg_size 0) ≡ msg_size =
        length-replicate {A = ℕ} msg_size 0 in
      let ends = is_terminated-overwrite msg_size bytes fits.0 ∙ ground (arith, fits.1) in
      ap₂ then_reports
        (perform_task-report received bytes
            (omega (arith, zeros, length-overwrite bytes (replicate msg_size 0))) ends
            (c_str-overwrite msg_size bytes fits.0)
          ∙ same_report bytes)
        (ap (run_loop qsort events) (
            clean_loop-clean msg_size (perform_task qsort received).1 (
              perform_task-IsBuffer msg_size received ends
                (zeros, length-overwrite bytes (replicate msg_size 0) ∙ zeros)))
          ∙ run_loop-reports events h)
      ∙ not_fault (numbers_in (c_str bytes)) (reports events)
  run_loop-reports (receive_failed ∷ events) h = run_loop-reports events h.1
  run_loop-reports (interrupt ∷ events) h = refl

  -- For messages of at most 1024 bytes that hold a terminator or leave room for one, where `qsort`
  -- keeps the length of a list: each message is reported by itself, with the `long`s nearest to the
  -- numbers that its words begin with, in the order that `qsort` gives them, or with a failure where a
  -- word holds a character other than digits and `-` or there is no word. Nothing of an earlier
  -- message or of the block's first contents is seen, and SIGINT ends the loop.
  pub main-reports :
      (events : List Event) (block : Message)
      → IsBuffer msg_size block
      → All Fits events
      → main qsort events block ≡ reports events
  unfolding main
  main-reports events block buffer h =
      ap (run_loop qsort events) (clean_loop-clean msg_size block buffer)
      ∙ run_loop-reports events h
