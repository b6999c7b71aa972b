-- ===== src/Checks/PoolRun.antt =====
-- The pool over the list queue: a whole run with one worker and one request.
use sp327_alonso_a.Common.{ℕ, ◌<◌, ◌≡◌, refl, ◌≢◌, ◌⊎◌, true, false, List, [], ◌∷◌, arith}
use sp327_alonso_a.Queue.Memory.{Ptr, null}
use sp327_alonso_a.Pool.{
  asleep, exited, finished, System, Step, enqueue, notify, close, close_notify, join, finish, take,
  end, sleep, serve, Reach, here, later,
}
use sp327_alonso_a.Pool.Invariant.{no_lost_wakeup, all_served}
use sp327_alonso_a.Pool.Invariant.State.{pending, count}
use sp327_alonso_a.Pool.ListQueue.{ListQueue, Lists, list_queue, empty}
use sp327_alonso_a.Pool.NullRequest.{null_request_lost}
use sp327_alonso_a.Pool.Progress.{measure, shutdown_progress, shutdown_terminates}

abbrev plan : List Ptr
plan = 7 ∷ []

abbrev Reached : Type 0
Reached = (s : System ListQueue) × Reach list_queue 1 empty plan s

-- The worker sleeps, `main` enqueues request 7 and has not broadcast.
abbrev asleep_early : Reached
asleep_early = (_, later (later here (sleep 0 (omega arith) refl refl)) (enqueue refl refl))

-- The worker has served request 7, and `main` has closed the queue and joins.
abbrev at_join : Reached
at_join = (
  _,
  later
      (later
        (later
          (later (later (later here (enqueue refl refl)) (notify refl))
            (take 0 (omega arith) refl (omega arith) refl))
          (serve 0 (omega arith) refl))
        (close refl refl))
      (close_notify refl),
)

-- The worker has seen the end of the work.
abbrev worker_gone : Reached
worker_gone = (_, later at_join.1 (end 0 (omega arith) refl refl refl))

abbrev all_done : Reached
all_done = (_, later (later worker_gone.1 (join refl (omega arith) refl)) (finish refl))

served_seven : all_done.0.served ≡ 7 ∷ []
served_seven = refl

no_lost_wakeup_example : (pending asleep_early.0.main ≡ true) ⊎ Lists asleep_early.0.shared [] false
no_lost_wakeup_example =
    no_lost_wakeup list_queue 1 {plan = plan} (refl, refl) (omega arith, tt) asleep_early.1 0 refl

all_served_example :
    (all_done.0.taken ≡ plan)
    × ((a : Ptr) → count a all_done.0.served ≡ count a plan)
    × ((j : ℕ) → j < 1 → all_done.0.pc j ≡ exited)
    × Lists all_done.0.shared [] true
all_served_example =
    all_served list_queue 1 (refl, refl) (omega arith, tt) all_done.1 (omega arith) refl

shutdown_progress_example :
    ((j : ℕ) → at_join.0.pc j ≢ asleep) × ((t : System ListQueue) × Step list_queue 1 at_join.0 t)
shutdown_progress_example =
    shutdown_progress list_queue 1 {plan = plan} (refl, refl) (omega arith, tt) 0 at_join.1 refl

shutdown_terminates_example : measure 1 plan worker_gone.0 < measure 1 plan at_join.0
shutdown_terminates_example =
    shutdown_terminates list_queue 1 (refl, refl) (omega arith, tt) 0 at_join.1 refl
      (end 0 (omega arith) refl refl refl)

null_request_lost_example :
    (s : System ListQueue) × Reach list_queue 1 empty (null ∷ 5 ∷ []) s
    × (s.main ≡ finished)
    × (s.served ≡ [])
    × Lists s.shared (5 ∷ []) true
null_request_lost_example = null_request_lost 5
