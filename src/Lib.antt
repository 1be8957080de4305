-- ===== src/Lib.antt =====
-- A verification library for the programs of the operating-systems course (exercises 01 to 11). Each
-- program stands alone, except that several share myqueue.h; the ones modelled here are the programs
-- in which threads, processes, plugins or a table of allocations interact.
--
-- Parts, files and sources:
--   Base            tests, lists and families indexed by threads that the parts share
--   MyQueue         exercise11/task3/myqueue.h, the queue of `int` (the same text in exercises 06, 08, 11)
--   Hive            exercise11/task3/beehive.c: `calculate_positions`, `check_nearby_flowers`,
--                   `sleep_func` and `bear_attack` as functions; Hive/Bees: `thread_func` and `main` as
--                   a step relation on the field, the queue, the two mutexes, the barrier, the atomics
--                   and the place of every bee; Hive/TailQueue: the queue of myqueue.h in memory, since
--                   a push and a pop can meet there
--   Consumers       exercise06/task3/task3.c: `main` and `thread_func` around one queue, a mutex and a
--                   condition variable, as a step relation with the spurious wake-ups apart
--                   Consumers/Polling: exercise06/task2/task2.c, the same without the condition variable
--   SharedBuffer    exercise05/task3/task3.c: the ring in shared memory with two semaphores, children A
--                   and B as a step relation; SharedBuffer/Checksum: `validate_result`;
--                   SharedBuffer/Unguarded: exercise05/task2/task2.c, the ring without semaphores;
--                   SharedBuffer/Setup: `main` of both in the parent, with its error paths
--   Philosophers    exercise07/task2/task2.c: `dine` for ten philosophers as a step relation
--   Plugins         exercise10/task3: `transform` of the five plugins; Plugins/Driver: map_string.c,
--                   whose `dlopen` and `dlsym` are a parameter
--   Tracker         exercise01/task1/includes/memory_tracking.c and .h: `allocate_memory`,
--                   `free_memory`, `check_clean_memory_handling` on an explicit table
--   AddressBook     exercise01/task1/addressbook.c and .h: `add_contact`, `remove_contact`,
--                   `count_contacts`, `print_address_book`, `free_address_book`, `create_contact`,
--                   `duplicate_contact`, `compare_by_name` over a store of nodes and one of contacts;
--                   `none` is an access through `NULL` or past the end of an array
--   Dice            exercise10/task1/task1.c: `thread_func` of the dice game as a step relation, with
--                   its barrier, and the scan of the rolls as a function
--   Counter         exercise06/task1/task1_mutex.c: `thread_func` of a thousand threads as a step
--                   relation
--                   Counter/Atomic: task1_atomic.c, whose additions are atomic; Counter/Refinement
--                   relates the two
--   WebServer       exercise08/task3/server.c: `main` and `thread_func` around the queue of
--                   connections as a step relation; WebServer/Request: the requests of `handle_client`
--   Chat            exercise09/task1/server.c: the listener, `client_thread` and `main` as a step
--                   relation; Chat/Login: the names of administrators and clients
--   DonationServer  exercise08/task2/server.c: the loops of `main` as functions on what the calls return
--   Scheduler       exercise05/task1/scheduler.c: `parse_numbers`, `compare`, and the loop of `main`
--                   as a function on a sequence of messages and signals
--   Calculator      exercise03/task2/calculator.c: all of it, from the arguments to the exit code
--   Shift           exercise04/task1/task1.c: `string_shift_right` and `main`
--   Sums            exercise03/task3/task3b.c: `main` and `thread_add` as a step relation on the
--                   bytes of the array
--   Roulette        exercise07/task3: roulette.c and task3.c with a thread for each job
--   Fibonacci       exercise10/task2: `fibonacci_of_integer`
--   Examples        tests on concrete inputs, and the theorems at such inputs
--
-- Concurrency: each access to shared memory, each lock operation, each semaphore operation and each
-- release of a barrier is one atomic step, and any thread or process may take the next one. A blocked
-- call has no step. A thread's `Place` says where in its code it stands. What a program does under a
-- lock, or while all others wait, may be one step; Counter and the unguarded ring keep the load apart.
-- In Hive the loads and stores of a push and a pop are steps of their own, as they hold different
-- mutexes. In Sums, where each thread has its own sum, what `main` writes for a thread and an addition
-- are one step each.
--
-- Integers: `size_t` and `uint64_t` are numbers below 2^64 with the wrap-around written out, an `int`
-- in the queue is its bit pattern below 2^32. Loops that count up are recursion on the rounds left, so
-- no fuel is needed; the loops along a linked list take fuel, for which the number of nodes is enough.
--
-- Surroundings: a client of WebServer sends or closes its end by a step of its own, and `read` returns
-- only behind one. A freed entry of the queue in Hive is not handed out by `malloc` again. In Scheduler
-- an access past the end of an array ends the run.
--
-- Parameters: `dlopen` and `dlsym` (Plugins), `malloc` (Shift), `qsort` (Scheduler, of which the
-- length of the result is relied on), `rand_r` (Roulette), the arithmetic of `double` with `strtod`
-- (Calculator, WebServer, DonationServer), what the files hold (Sums), and what uninitialised memory
-- holds (Shift, Scheduler, Chat, WebServer, Sums).
--
-- Not modelled: printing, the parsing of numeric arguments, failing allocations (except in Tracker,
-- where the address 0 is one, and Shift), failing thread creation, the set-up of sockets, timing.
-- The pipelines, the FIFO server, the thread pool (a stub), and the earlier texts of the same
-- programs (beehive in exercise11, the server of exercise08/task1) have no model.
pub mod AddressBook
pub mod Base
pub mod Calculator
pub mod Chat
pub mod Consumers
pub mod Counter
pub mod Dice
pub mod DonationServer
pub mod Examples
pub mod Fibonacci
pub mod Hive
pub mod MyQueue
pub mod Philosophers
pub mod Plugins
pub mod Roulette
pub mod Scheduler
pub mod SharedBuffer
pub mod Shift
pub mod Sums
pub mod Tracker
pub mod WebServer
