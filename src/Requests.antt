-- ===== src/Requests.antt =====
-- M9Lab/M9/main.c: the command line, the random requests, and the loop that enqueues them. `rand`
-- and `malloc` are read from the arguments.
pub mod Laws
use sp327_alonso_a.Common.{
  ℕ, zero, suc, ◌+◌, ◌-◌, ◌*◌, ◌/◌, ◌%◌, Bool, true, false, ◌||◌, Option, none, some, List, [], ◌∷◌,
  ltb, leb, ◌==◌, if◌then◌else◌,
}
use mathlib.Core.Option as Options
use sp327_alonso_a.Common.Int.{ℤ, pos, pos_part, ltb_ℤ}
use sp327_alonso_a.Queue.Memory.{Ptr, null, int_max}
use sp327_alonso_a.Tasks.{Timespec, lit, num, Text}

-- `random_sleep_time_in_range`, where `rand` returns `r`; `none` is a signed overflow in the
-- width of the range.
unfoldable pub random_sleep_time_in_range : (min_ms max_ms : ℤ) → (r : ℕ) → Option Timespec
random_sleep_time_in_range min_ms max_ms r =
    let invalid = ltb_ℤ max_ms min_ms || ltb_ℤ min_ms (pos 0) in
    let lo = if invalid then 0 else pos_part min_ms in
    let hi = if invalid then 0 else pos_part max_ms in
    let millis = lo + r % (hi - lo + 1) in
    if leb int_max (hi - lo)
    then none
    else some (record { tv_sec = millis / 1000; tv_nsec = millis % 1000 * 1000000 })

-- the argument block of a request
pub data Payload : Type 0 where
  message : Text → Payload
  value : ℕ → Payload
  delay : Timespec → Payload

pub data WorkFn : Type 0 where
  write_log compute_sum delay_task : WorkFn

-- `request_t`, with the address of its argument block and what the block holds
pub record Request : Type 0 where
  pub work_fn : WorkFn
  pub arg : Ptr
  pub payload : Payload

-- What a call returns: the pointer and what it points at, the static counter, and the blocks that
-- are allocated and not freed.
pub record Created : Type 0 where
  pub result : Ptr
  pub request : Option Request
  pub msg_count : ℕ
  pub live : List Ptr

abbrev failed : ℕ → Created
failed msg_count = record { result = null; request = none; msg_count = msg_count; live = [] }

abbrev made : (r arg : Ptr) → WorkFn → Payload → ℕ → Created
made r arg f p msg_count = record {
  result = r;
  request = some (record { work_fn = f; arg = arg; payload = p });
  msg_count = msg_count;
  live = r ∷ arg ∷ [];
}

-- `create_request`: `r` and `arg` are what `malloc` returns for the request and for its argument,
-- `draw` what `rand` returns. The range 25 to 250 of the third case has no overflow.
unfoldable pub create_request : (task_type : ℕ) → (r arg : Ptr) → (draw msg_count : ℕ) → Created
unfolding random_sleep_time_in_range
create_request task_type r arg draw msg_count =
    if r == null
    then failed msg_count
    else if task_type == 0
    then (if arg == null
        then failed msg_count
        else made r arg write_log (message (lit "Log message " ∷ num (pos msg_count) ∷ []))
            (msg_count + 1))
    else if task_type == 1
    then (if arg == null
        then failed msg_count
        else made r arg compute_sum (value (draw % 1000)) msg_count)
    else if task_type == 2
    then (if arg == null
        then failed msg_count
        else elim (random_sleep_time_in_range (pos 25) (pos 250) draw) [
          | none ↦ failed msg_count
          | some ts ↦ made r arg delay_task (delay ts) msg_count
        ])
    else failed msg_count

-- What the environment gives one round of the request loop.
pub record Round : Type 0 where
  pub kind : ℕ  -- `rand`, for the type of the task
  pub draw : ℕ  -- `rand`, inside `create_request`
  pub r : Ptr
  pub arg : Ptr

-- The loop of `main` over `count`, with the pointers that it enqueues; `fuel` bounds the rounds.
unfoldable pub request_loop :
    (fuel count : ℕ) → (num_requests : ℤ) → (ℕ → Round) → (msg_count : ℕ) → Option (List Ptr)
unfolding create_request
request_loop zero count num_requests rounds msg_count = none
request_loop (suc fuel) count num_requests rounds msg_count =
    let c =
      create_request ((rounds count).kind % 3) (rounds count).r (rounds count).arg
        (rounds count).draw msg_count in
    let rest =
      Options.map (λ rs. c.result ∷ rs)
        (request_loop fuel (count + 1) num_requests rounds c.msg_count) in
    if leb count (pos_part num_requests) then rest else some []

-- How `main` begins: the exits on a bad command line, or the pool and the number of requests.
pub data Start : Type 0 where
  exits : (status : ℕ) → Start
  runs : (num_threads num_requests : ℤ) → Start

-- The command line of `main`; `threads` and `requests` are `atoi` of its two arguments.
unfoldable pub main_start : (argc : ℕ) → (threads requests : ℤ) → Start
main_start argc threads requests =
    if ltb argc 3
    then exits 0
    else if ltb_ℤ (pos 20) threads
    then exits 0
    else runs threads requests
