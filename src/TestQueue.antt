-- ===== src/TestQueue.antt =====
-- M9Lab/M9/test_queue.c: the unit tests of the queue. A failing assertion ends its test like a call of
-- `exit`. The wrappers of `pthread_mutex_lock` and `pthread_mutex_unlock` return what `will_return`
-- has queued, here 0 for each section. What `malloc` returns comes from the caller.
pub mod Pass
use sp327_alonso_a.Common.{ℕ, Bool, true, false, not, ◌==◌, if◌then◌else◌}
use sp327_alonso_a.Queue.{
  Codes, queue_init, queue_enqueue, queue_dequeue, queue_close, queue_isclose, queue_destroy,
}
use sp327_alonso_a.Queue.Memory.{
  Ptr, null, Cmd, pure, ◌>>=◌, ◌>>◌, exit_failure, fault, load_queue, free_node, free_queue,
}

-- The addresses of the local variables, and what the allocations return.
pub record Addresses : Type 0 where
  pub que : Ptr
  pub header : Ptr
  pub first : Ptr
  pub second : Ptr
  pub mutex : Ptr
  pub cond_var : Ptr
  pub data1 : Ptr
  pub data2 : Ptr

abbrev pub assert_true : Bool → Cmd (Unit {0})
assert_true b = if b then pure tt else exit_failure

-- `will_return` with 0 for both wrappers
abbrev pub wrapped : Codes
wrapped = record { lock_code = 0; unlock_code = 0 }

-- `queue_enqueue` with the wrappers. It ends with `pthread_cond_broadcast`, which is undefined for a
-- condition variable that has not been initialized.
unfoldable pub enqueue : (initialized : Bool) → (fresh que value : Ptr) → Cmd (Unit {0})
unfolding queue_enqueue
enqueue initialized fresh que value = do
  queue_enqueue wrapped fresh que value
  (if initialized then pure tt else λ s. fault)

-- `assert_int_equal(que->size, n)`
unfoldable pub assert_size : Ptr → ℕ → Cmd (Unit {0})
unfolding load_queue
assert_size que n = do q ← load_queue que; assert_true (q.size == n)

module _ (a : Addresses) where
  unfoldable pub test_queue_init : Cmd (Unit {0})
  unfolding queue_init load_queue free_node free_queue
  test_queue_init = do
    que ← queue_init a.que a.header a.mutex a.cond_var
    assert_true (not (que == null))
    q ← load_queue que
    assert_true (q.mutex == a.mutex)
    assert_true (q.cond_var == a.cond_var)
    assert_true (not q.isclosed)
    assert_true (q.size == 0)
    assert_true (not (q.header == null))
    assert_true (q.header == q.tail)
    free_node q.header
    free_queue que

  -- What `test_queue_dequeue` and `test_que_is_close` begin with.
  unfoldable pub in_and_out : Ptr → Cmd (Unit {0})
  unfolding assert_size enqueue queue_dequeue
  in_and_out que = do
    enqueue true a.first que a.data1
    assert_size que 1
    enqueue true a.second que a.data2
    assert_size que 2
    _ ← queue_dequeue wrapped que
    assert_size que 1
    _ ← queue_dequeue wrapped que
    assert_size que 0

  unfoldable pub test_queue_dequeue : Cmd (Unit {0})
  unfolding queue_init in_and_out queue_destroy
  test_queue_dequeue = do
    que ← queue_init a.que a.header a.mutex a.cond_var
    in_and_out que
    queue_destroy que

  unfoldable pub test_que_is_close : Cmd (Unit {0})
  unfolding queue_init in_and_out queue_close queue_isclose queue_destroy
  test_que_is_close = do
    que ← queue_init a.que a.header a.mutex a.cond_var
    in_and_out que
    queue_close wrapped que
    closed ← queue_isclose que
    assert_true closed
    queue_destroy que

  -- Its `mutex` and `cond_var` are not initialized.
  unfoldable pub test_queue_enqueue_when_q_empty : Cmd (Unit {0})
  unfolding queue_init enqueue assert_size
  test_queue_enqueue_when_q_empty = do
    que ← queue_init a.que a.header a.mutex a.cond_var
    enqueue false a.first que a.data1
    assert_size que 1
