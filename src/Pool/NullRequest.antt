-- ===== src/Pool/NullRequest.antt =====
-- M9Lab/M9/main.c enqueues what `create_request` returns, `NULL` included.
use sp327_alonso_a.Common.{◌≡◌, refl, true, [], ◌∷◌, arith}
use sp327_alonso_a.Queue.Memory.{Ptr, null}
use sp327_alonso_a.Pool.{
  finished, System, enqueue, notify, close, close_notify, join, finish, end, Reach, here, later,
}
use sp327_alonso_a.Pool.ListQueue.{ListQueue, Lists, list_queue, empty}

-- A request that `create_request` could not allocate is enqueued as `NULL`. With one worker there
-- is a run in which the worker takes it for the end of the work and exits: the program finishes,
-- and the request `r` behind it is still queued and was never served.
pub null_request_lost :
    (r : Ptr)
    → (s : System ListQueue) × Reach list_queue 1 empty (null ∷ r ∷ []) s
      × (s.main ≡ finished)
      × (s.served ≡ [])
      × Lists s.shared (r ∷ []) true
null_request_lost r = (
  _,
  later
      (later
        (later
          (later
            (later
              (later
                (later (later (later here (enqueue refl refl)) (notify refl))
                  (end 0 (omega arith) refl refl refl))
                (enqueue refl refl))
              (notify refl))
            (close refl refl))
          (close_notify refl))
        (join refl (omega arith) refl))
      (finish refl),
  refl,
  refl,
  (refl, refl),
)
