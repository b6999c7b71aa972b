-- ===== src/Checks/TasksRun.antt =====
-- Requests, tasks and the thread pool at concrete inputs.
use sp327_alonso_a.Common.{ℕ, ◌+◌, ◌<◌, ◌≡◌, refl, some, List, [], ◌∷◌, arith, length, get_elem?}
use sp327_alonso_a.Common.Int.{pos, negsuc}
use sp327_alonso_a.Tasks.{sum_below}
use sp327_alonso_a.Requests.{random_sleep_time_in_range, Round, request_loop}
use sp327_alonso_a.Threads.{ThreadPool, Params, Created, ok, thread_pool_init, thread_pool_destroy}
use sp327_alonso_a.Threads.Laws.{IsGood, slot, pool_round_trip}

sum_ten : sum_below (pos 10) ≡ 45
unfolding sum_below
sum_ten = refl

invalid_range :
    random_sleep_time_in_range (negsuc 4) (pos 9) 777 ≡ some (record { tv_sec = 0; tv_nsec = 0 })
unfolding random_sleep_time_in_range
invalid_range = refl

abbrev every_round : ℕ → Round
every_round count = record { kind = count; draw = 7; r = 100 + count; arg = 200 + count }

three_requests : request_loop 4 1 (pos 3) every_round 1 ≡ some (101 ∷ 102 ∷ 103 ∷ [])
unfolding request_loop
three_requests = refl

abbrev all_good : ℕ → Created
all_good i = record { params = 10 + i; worker = 40 + i; code = 0; thread = 70 + i }

all_good-IsGood : (i : ℕ) → IsGood (all_good i)
all_good-IsGood i = record { params = omega arith; worker = omega arith; code = refl }

pool_round_trip_example :
    (p : ThreadPool) × (given : List Params) × (thread_pool_init 5 1 all_good (pos 2)
      ≡ ok (p, given))
    × (p.next_thread_id ≡ 3)
    × (length given ≡ 2)
    × ((j : ℕ) → j < 2 → get_elem? p.threads j ≡ slot all_good j)
    × (thread_pool_destroy (some p) ≡ ok (70 ∷ 71 ∷ []))
pool_round_trip_example = pool_round_trip 1 all_good all_good-IsGood 5 2 (omega arith) (omega arith)
