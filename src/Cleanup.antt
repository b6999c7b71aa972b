-- ===== src/Cleanup.antt =====
-- booksrc/ch16/cleanup_hdlr.c: two threads copy blocks with buffers of their own, which a cleanup
-- handler frees when a thread is canceled. The results of the calls are an argument, and so is the
-- round in which the first thread acts upon a cancel request. A buffer is a number, and of the heap
-- it is kept which buffers have been freed, in order.
pub mod Freed
use sp327_alonso_a.Common.{
  ℕ, zero, suc, ◌+◌, Bool, true, false, Option, none, some, List, [], ◌∷◌, ◌==◌, if◌then◌else◌,
}
use sp327_alonso_a.Common.Int.{ℤ, pos, negsuc}

-- A round of the loop: `fread` gives nothing; `fwrite` writes; or it writes nothing, at the end of
-- the file, with an error, or with neither.
pub data Round : Type 0 where
  nothing_read : Round
  written : Round
  at_end : Round
  write_error : Round
  nothing_written : Round

-- How a thread leaves the loop.
pub data Left : Type 0 where
  returned : Left
  fatal : Left
  canceled : Left

abbrev pub is_due : (cancel_at : Option ℕ) → ℕ → Bool
is_due none i = false
is_due (some c) i = i == c

-- The loop of `testit_mt_refactored`, from `i` on with rounds left.
unfoldable pub testit_loop : (rounds : ℕ → Round) → (cancel_at : Option ℕ) → (left i : ℕ) → Left
testit_loop rounds cancel_at zero i = returned
testit_loop rounds cancel_at (suc left) i =
    let rest = testit_loop rounds cancel_at left (i + 1) in
    if is_due cancel_at i then canceled else elim (rounds i) [
      | nothing_read ↦ fatal
      | written ↦ rest
      | at_end ↦ returned
      | write_error ↦ fatal
      | nothing_written ↦ rest
    ]

-- The buffers that a thread has freed, and its stack of cleanup handlers: the argument with which
-- each calls `cleanup_handler`.
pub record Cleanups : Type 0 where
  pub freed : List ℕ
  pub handlers : List ℕ

unfoldable pub free : ℕ → Cleanups → Cleanups
free buffer c = record c { freed = buffer ∷ c.freed }

unfoldable pub cleanup_handler : ℕ → Cleanups → Cleanups
unfolding free
cleanup_handler arg c = free arg c

unfoldable pub pthread_cleanup_push : ℕ → Cleanups → Cleanups
pthread_cleanup_push arg c = record c { handlers = arg ∷ c.handlers }

-- The handler on top is removed, and called if `execute` is not 0.
unfoldable pub pthread_cleanup_pop : (execute : Bool) → Cleanups → Cleanups
unfolding cleanup_handler
pthread_cleanup_pop execute c = elim c.handlers [
  | [] ↦ c
  | arg ∷ rest ↦
      let popped : Cleanups = record c { handlers = rest } in
      if execute then cleanup_handler arg popped else popped
]

-- `pthread_exit` and a cancellation call the handlers that there are, from the top.
unfoldable pub run_handlers : List ℕ → Cleanups → Cleanups
unfolding cleanup_handler
run_handlers [] c = record c { handlers = [] }
run_handlers (arg ∷ rest) c = run_handlers rest (cleanup_handler arg c)

unfoldable pub exit_thread : Cleanups → Cleanups
unfolding run_handlers
exit_thread c = run_handlers c.handlers c

-- A thread that has ended, and what it has freed; or the end of the process.
pub data Thread : Type 0 where
  process_ends : Thread
  ended : (was_canceled : Bool) → (freed : List ℕ) → Thread

-- The end of the wrapper, behind the loop: the pop, `free` and `pthread_exit`.
unfoldable pub behind_loop : (iobuf : ℕ) → Left → Cleanups → Thread
unfolding exit_thread free pthread_cleanup_pop
behind_loop iobuf returned c =
    ended false (exit_thread (free iobuf (pthread_cleanup_pop false c))).freed
behind_loop iobuf fatal c = process_ends
behind_loop iobuf canceled c = ended true (exit_thread c).freed

-- `malloc` returns a buffer, or `none` for NULL.
unfoldable pub wrapper_testit_mt_refactored :
    (malloc : Option ℕ) → (rounds : ℕ → Round) → (cancel_at : Option ℕ) → (numio : ℕ) → Thread
unfolding testit_loop pthread_cleanup_push behind_loop
wrapper_testit_mt_refactored none rounds cancel_at numio = process_ends
wrapper_testit_mt_refactored (some iobuf) rounds cancel_at numio =
    behind_loop iobuf (testit_loop rounds cancel_at numio 0)
      (pthread_cleanup_push iobuf (record { freed = []; handlers = [] }))

-- `pthread_join` on a thread, with its error: what is printed.
pub data Line : Type 0 where
  joined : (thrdnum : ℕ) → (was_canceled : Bool) → Line
  not_joined : (ret : ℕ) → Line

-- What `main` leaves: the lines of the join loop, and the buffers that each thread has freed.
pub data Ended : Type 0 where
  failure : Ended
  success : List Line → (freed_first freed_second : List ℕ) → Ended

pub record Calls : Type 0 where
  pub fopen : ℕ → Bool
  pub create : ℕ → Bool
  pub malloc : ℕ → Option ℕ
  pub rounds : ℕ → ℕ → Round
  pub pthread_cancel : Bool
  pub cancel_at : ℕ
  pub pthread_join : ℕ → ℕ

abbrev pub join_line : (ret thrdnum : ℕ) → (was_canceled : Bool) → Line
join_line ret thrdnum was_canceled =
    if ret == 0 then joined thrdnum was_canceled else not_joined ret

abbrev pub is_one : ℤ → Bool
is_one (pos n) = n == 1
is_one (negsuc n) = false

module _ (calls : Calls) where
  -- The join loop, over the two threads.
  abbrev pub join_loop : Thread → Thread → Ended
  join_loop process_ends second = failure
  join_loop (ended c n) process_ends = failure
  join_loop (ended c n) (ended d m) =
      success (join_line (calls.pthread_join 0) 0 c ∷ join_line (calls.pthread_join 1) 1 d ∷ []) n m

  -- `main` behind the creation loop, with the number of its second argument.
  unfoldable pub run_threads : (numio : ℕ) → (cancel : ℤ) → Ended
  unfolding wrapper_testit_mt_refactored
  run_threads numio cancel =
      let second = wrapper_testit_mt_refactored (calls.malloc 1) (calls.rounds 1) none numio in
      let thread =
        λ (c : Option ℕ). wrapper_testit_mt_refactored (calls.malloc 0) (calls.rounds 0) c numio in
      if is_one cancel
      then (if calls.pthread_cancel
          then join_loop (thread (some calls.cancel_at)) second
          else failure)
      else join_loop (thread none) second

  -- `main` behind the validation of its arguments.
  unfoldable pub opened : (numio : ℕ) → (cancel : ℤ) → Ended
  unfolding run_threads
  opened numio cancel =
      if calls.fopen 0
      then (if calls.fopen 1
          then (if calls.create 0
              then (if calls.create 1 then run_threads numio cancel else failure)
              else failure)
          else failure)
      else failure

  -- `main`, with the numbers in its arguments
  unfoldable pub cleanup_hdlr : List ℤ → Ended
  unfolding opened
  cleanup_hdlr (pos (suc n) ∷ cancel ∷ []) = opened (suc n) cancel
  cleanup_hdlr other = failure
