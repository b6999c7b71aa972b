-- ===== src/Queue.antt =====
-- M9Lab/M9/queue.c: the linked queue of requests that the worker threads share, over an explicit
-- store. `que` and the nodes are addresses; a read through an address that holds nothing is a
-- fault. What `malloc` returns, and the return codes of the mutex calls, come from the caller.
pub mod Chain
pub mod Dequeue
pub mod Enqueue
pub mod Lifecycle
pub mod Memory
pub mod Shape
use sp327_alonso_a.Common.{ℕ, ◌+◌, ◌-◌, Bool, true, false, ◌==◌, if◌then◌else◌}
use Memory.{
  Ptr, null, Node, node, QueueData, Store, Cmd, pure, ◌>>=◌, ◌>>◌, exit_failure, load_node,
  load_queue, store_node, store_queue, free_node, free_queue, set_next, lock_mtx, unlock_mtx,
  cond_broadcast, cond_wait, incr_int,
}

-- The return codes of one locked section: of `pthread_mutex_lock` and `pthread_mutex_unlock`.
pub record Codes : Type 0 where
  pub lock_code : ℕ
  pub unlock_code : ℕ

-- `queue_init`, where `malloc` returns `que` and `calloc` returns `header`.
unfoldable pub queue_init : (que header mutex cond_var : Ptr) → Cmd Ptr
unfolding store_node store_queue
queue_init que header mutex cond_var =
    if que == null then exit_failure else if header == null then exit_failure else do
      store_node header (node null null)
      store_queue que (record {
        header = header;
        tail = header;
        size = 0;
        isclosed = false;
        mutex = mutex;
        cond_var = cond_var;
      })
      pure que

-- The two branches of `queue_enqueue` that follow the first link.
link_again : Ptr → Ptr → QueueData → Cmd (Unit {0})
unfolding set_next store_queue
link_again que fresh q =
    if q.size == 0
    then (do set_next q.header fresh; store_queue que (record q { tail = fresh }))
    else (do set_next q.tail fresh; store_queue que (record q { tail = fresh }))

-- `queue_enqueue`, where `malloc` returns `fresh`; the code does not test it.
unfoldable pub queue_enqueue : Codes → (fresh que value : Ptr) → Cmd (Unit {0})
unfolding link_again store_node lock_mtx load_queue set_next store_queue incr_int unlock_mtx
    cond_broadcast
queue_enqueue codes fresh que value = do
  store_node fresh (node value null)
  lock_mtx codes.lock_code
  q ← load_queue que
  set_next q.tail fresh
  store_queue que (record q { tail = fresh })
  q ← load_queue que
  link_again que fresh q
  q ← load_queue que
  store_queue que (record q { size = (← incr_int q.size) })
  unlock_mtx codes.unlock_code
  cond_broadcast

unfoldable pub queue_close : Codes → Ptr → Cmd (Unit {0})
unfolding lock_mtx load_queue store_queue unlock_mtx cond_broadcast
queue_close codes que = do
  lock_mtx codes.lock_code
  q ← load_queue que
  store_queue que (record q { isclosed = true })
  unlock_mtx codes.unlock_code
  cond_broadcast

unfoldable pub queue_isclose : Ptr → Cmd Bool
unfolding load_queue
queue_isclose que = do q ← load_queue que; pure (if q.isclosed then true else false)

unfoldable pub queue_destroy : Ptr → Cmd (Unit {0})
unfolding load_queue free_node free_queue
queue_destroy que = do q ← load_queue que; free_node q.header; free_queue que

-- The end of `queue_dequeue`, behind its loop.
take_first : Codes → Ptr → Cmd Ptr
unfolding load_queue load_node set_next store_queue free_node unlock_mtx
take_first codes que = do
  q ← load_queue que
  h ← load_node q.header
  n ← load_node h.next
  set_next q.header n.next
  store_queue que (record q { size = q.size - 1 })
  q' ← load_queue que
  (if q'.size == 0 then store_queue que (record q' { tail = q'.header }) else pure tt)
  m ← load_node h.next
  free_node h.next
  unlock_mtx codes.unlock_code
  pure m.value

-- The loop of `queue_dequeue`, entered with the mutex held: at the start of the call, and again
-- when `pthread_cond_wait` returns.
unfoldable pub dequeue_loop : Codes → Ptr → Cmd Ptr
unfolding take_first load_queue queue_isclose cond_broadcast unlock_mtx cond_wait
dequeue_loop codes que = do
  q ← load_queue que
  if q.size == 0
      then (do
        closed ← queue_isclose que
        if closed then (do cond_broadcast; unlock_mtx codes.unlock_code; pure null) else cond_wait)
      else take_first codes que

unfoldable pub queue_dequeue : Codes → Ptr → Cmd Ptr
unfolding lock_mtx dequeue_loop
queue_dequeue codes que = do lock_mtx codes.lock_code; dequeue_loop codes que
