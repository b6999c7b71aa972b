-- ===== src/Requests/Laws.antt =====
-- The requests of M9Lab/M9/main.c: sleep ranges, allocation failures, and the length of the loop.
use sp327_alonso_a.Common.{
  ℕ, zero, suc, ◌+◌, ◌-◌, ◌*◌, ◌/◌, ◌%◌, ◌≤◌, ◌<◌, ◌≡◌, ◌≢◌, ◌⊎◌, inl, inr, some, List, [], ◌∷◌,
  arith, leb, ◌==◌, if◌then◌else◌, length, Bool-cases,
}
use sp327_alonso_a.Common.Int.{ℤ, pos, pos_part}
use sp327_alonso_a.Queue.Memory.{Ptr, null, int_max}
use sp327_alonso_a.Tasks.{Timespec}
use sp327_alonso_a.Requests.{
  random_sleep_time_in_range, create_request, Round, request_loop, runs, main_start,
}

-- For a range 0 <= min <= max, with max - min below INT_MAX, the time is defined, a valid argument of
-- `nanosleep`, a whole number of milliseconds, and from min to max of them.
pub random_sleep-within :
    (lo hi r : ℕ)
    → lo ≤ hi
    → hi - lo < int_max
    → (ts : Timespec) × (random_sleep_time_in_range (pos lo) (pos hi) r ≡ some ts)
      × (ts.tv_nsec < 1000000000)
      × (lo ≤ ts.tv_sec * 1000 + ts.tv_nsec / 1000000)
      × (ts.tv_sec * 1000 + ts.tv_nsec / 1000000 ≤ hi)
      × (ts.tv_nsec % 1000000 ≡ 0)
unfolding random_sleep_time_in_range
random_sleep-within lo hi r ordered narrow =
    let m = lo + r % (hi - lo + 1) in
    let width : r % (hi - lo + 1) < hi - lo + 1 = grind arith in
    let upper : m ≤ hi = omega arith in
    (
      record { tv_sec = m / 1000; tv_nsec = m % 1000 * 1000000 },
      ground arith,
      omega arith,
      omega arith,
      omega arith,
      omega arith,
    )

-- `create_request` with a known type of task fails exactly if one of its allocations does; then
-- nothing stays allocated and the message counter is as it was. Otherwise both blocks are live, the
-- result is the request's block, and the counter goes up for a log message alone.
pub create_request-outcome :
    (kind r arg draw msg_count : ℕ)
    → kind < 3
    → let c = create_request kind r arg draw msg_count in
      (((r ≡ null) ⊎ (arg ≡ null)) × (c.result ≡ null) × (c.live ≡ []) × (c.msg_count ≡ msg_count))
      ⊎ ((r ≢ null)
          × (arg ≢ null)
          × (c.result ≡ r)
          × (c.live ≡ r ∷ arg ∷ [])
          × (c.msg_count ≡ (if kind == 0 then msg_count + 1 else msg_count)))
unfolding create_request
create_request-outcome kind r arg draw msg_count known =
    ground (arith, random_sleep-within 25 250 draw)

-- With fuel for one round more than are left, the request loop ends, having enqueued
-- num_requests - count + 1 pointers, none if the number is smaller than `count`.
pub request_loop-length :
    (fuel count : ℕ) (n : ℤ) (rounds : ℕ → Round) (msg_count : ℕ)
    → pos_part n + 1 - count < fuel
    → (rs : List Ptr) × (request_loop fuel count n rounds msg_count ≡ some rs)
      × (length rs ≡ pos_part n + 1 - count)
unfolding request_loop
request_loop-length zero count n rounds msg_count h = absurd (omega arith)
request_loop-length (suc fuel) count n rounds msg_count h =
    elim (Bool-cases (leb count (pos_part n))) [
      | inl more ↦
          let c =
            create_request ((rounds count).kind % 3) (rounds count).r (rounds count).arg
              (rounds count).draw msg_count in
          let (rs, e, len) =
            request_loop-length fuel (count + 1) n rounds c.msg_count (ground arith) in
          (c.result ∷ rs, rw (more, e), ground arith)
      | inr enough ↦ ([], rw enough, ground arith)
    ]

-- `main` starts no pool with more than 20 threads, the size of `threads` in `struct thread_pool`.
pub main_start-threads :
    (argc : ℕ) (a b t n : ℤ)
    → main_start argc a b ≡ runs t n
    → (t ≡ a) × (n ≡ b) × (3 ≤ argc) × (pos_part t ≤ 20)
unfolding main_start
main_start-threads argc a b t n h = ground arith
