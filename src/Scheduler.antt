-- ===== src/Scheduler.antt =====
-- exercise05/task1/scheduler.c: sorts the numbers of each message of a POSIX queue. An `int` is a
-- number below 2^32, a `long` one below 2^64; `qsort` is a parameter.
pub mod Order
pub mod Words
pub mod Parsing
pub mod Buffers
pub mod Tasks
use ps_os.Base.{
  ℕ, zero, suc, ◌+◌, ◌-◌, ◌*◌, ◌%◌, ◌^◌, ◌<◌, Bool, true, false, not, ◌&&◌, ◌||◌, List, [], ◌∷◌,
  ◌++◌, ◌==◌, ltb, leb, length, if◌then◌else◌, replicate, set, take, drop, overwrite,
}
use ps_os.Plugins.{CString, c_str}

abbrev pub msg_size : ℕ
msg_size = 1024

-- `message`: numbers, and a text that fills the same number of bytes.
pub record Message : Type 0 where
  pub numbers : List ℕ
  pub mesg_text : List ℕ

-- The difference of the `int`s at the two addresses, the lower halves of the `long`s there.
abbrev pub compare : ℕ → ℕ → ℕ
compare a b = (a % 2 ^ 32 + (2 ^ 32 - b % 2 ^ 32)) % 2 ^ 32

abbrev pub isdigit : ℕ → Bool
isdigit c = leb b'0' c && leb c b'9'

-- The inner loop of `parse_numbers`.
abbrev pub is_valid : CString → Bool
is_valid [] = true
is_valid (c ∷ token) = (isdigit c || c == b'-') && is_valid token

-- The value of the digits up to the first other character.
abbrev pub digits_value : ℕ → CString → ℕ
digits_value value [] = value
digits_value value (c ∷ s) =
    let rest = digits_value (value * 10 + (c - b'0')) s in if isdigit c then rest else value

-- `LONG_MAX` and `LONG_MIN`, at which `atol`, which is `strtol`, stops.
abbrev pub long_max : ℕ
long_max = 2 ^ 63 - 1

abbrev pub long_min : ℕ
long_min = 2 ^ 63

abbrev pub atol : CString → ℕ
atol [] = 0
atol (c ∷ s) =
    if c == b'-'
    then (if leb (2 ^ 63) (digits_value 0 s)
        then long_min
        else (2 ^ 64 - digits_value 0 s) % 2 ^ 64)
    else (if leb long_max (digits_value 0 (c ∷ s)) then long_max else digits_value 0 (c ∷ s))

-- What the calls of `strtok` return one after the other, with the characters of a word begun.
abbrev pub end_word : CString → List CString → List CString
end_word [] words = words
end_word (c ∷ word) words = (c ∷ word) ∷ words

-- Where the text does not end inside its array, these are the words before a space: the call for
-- another one reads past the end.
abbrev pub tokens_from : Bool → CString → CString → List CString
tokens_from ends word [] = if ends then end_word word [] else []
tokens_from ends word (c ∷ s) =
    if c == b' ' then end_word word (tokens_from ends [] s) else tokens_from ends (word ++ c ∷ []) s

abbrev pub tokens : Bool → CString → List CString
tokens ends s = tokens_from ends [] s

-- What `parse_numbers` returns, or that it reads or writes past the end of an array.
pub data Parsed : Type 0 where
  counted : ℕ → Parsed
  message_size_zero_error : Parsed
  not_a_number_error : Parsed
  past_end : Parsed

-- Whether a text ends inside its array; where it does not, `strtok` reads on behind it.
abbrev pub is_terminated : List ℕ → Bool
is_terminated [] = false
is_terminated (zero ∷ text) = true
is_terminated (suc c ∷ text) = is_terminated text

-- The loop over the tokens, with `count` and the array.
unfoldable pub parse_loop : Bool → List CString → ℕ → List ℕ → Parsed × List ℕ
parse_loop ends [] count numbers = (
  if not ends then past_end else (if count == 0 then message_size_zero_error else counted count),
  numbers,
)
parse_loop ends (token ∷ rest) count numbers =
    let next = parse_loop ends rest (count + 1) (set numbers count (atol token)) in
    if not (is_valid token)
    then (not_a_number_error, numbers)
    else (if ltb count (length numbers) then next else (past_end, numbers))

-- The terminators that `strtok` writes into the text are left out: nothing reads it again before
-- the loop that clears it.
unfoldable pub parse_numbers : Message → Parsed × Message
parse_numbers input =
    let ends = is_terminated (input.mesg_text) in
    let (parsed, numbers) =
      parse_loop ends (tokens ends (c_str (input.mesg_text))) 0 input.numbers in
    (parsed, record input { numbers = numbers })

-- `buffer->numbers[i] = 0; buffer->mesg_text[i] = '\0';`
unfoldable pub clean_loop : ℕ → ℕ → Message → Message
clean_loop zero i buffer = buffer
clean_loop (suc rounds) i buffer =
    clean_loop rounds (i + 1)
      (record { numbers = set (buffer.numbers) i 0; mesg_text = set (buffer.mesg_text) i 0 })

-- What happens to the program: a message comes in, the call fails, or SIGINT, which ends the call.
pub data Event : Type 0 where
  message : List ℕ → Event
  receive_failed : Event
  interrupt : Event

pub data Report : Type 0 where
  task_failed : Report
  sorted_numbers : List ℕ → Report
  shutting_down : Report
  memory_fault : Report  -- what follows is not defined

-- The reports of a run end with a fault.
abbrev pub then_reports : Report → List Report → List Report
then_reports memory_fault rest = memory_fault ∷ []
then_reports report rest = report ∷ rest

module _ (qsort : (ℕ → ℕ → ℕ) → List ℕ → List ℕ) where
  -- What follows the call of `parse_numbers`, with what is printed at the end.
  unfoldable pub finish_task : Parsed → Message → Report × Message
  finish_task (counted count) buffer =
      let numbers = qsort compare (take count buffer.numbers) ++ drop count buffer.numbers in
      (sorted_numbers (take count numbers), record buffer { numbers = numbers })
  finish_task message_size_zero_error buffer = (task_failed, buffer)
  finish_task not_a_number_error buffer = (task_failed, buffer)
  finish_task past_end buffer = (memory_fault, buffer)

  unfoldable pub perform_task : Message → Report × Message
  perform_task buffer = let (count, parsed) = parse_numbers buffer in finish_task count parsed

  -- `while (should_run)`, up to the last event. `mq_receive` writes the message over the text.
  unfoldable pub run_loop : List Event → Message → List Report
  run_loop [] buffer = []
  run_loop (message bytes ∷ events) buffer =
      let received = record buffer { mesg_text = overwrite bytes buffer.mesg_text } in
      let (report, after) = perform_task received in
      then_reports report (run_loop events (clean_loop msg_size 0 after))
  run_loop (receive_failed ∷ events) buffer = run_loop events buffer
  run_loop (interrupt ∷ events) buffer = shutting_down ∷ []

  -- `main` from the block that `malloc` returns.
  unfoldable pub main : List Event → Message → List Report
  main events block = run_loop events (clean_loop msg_size 0 block)
