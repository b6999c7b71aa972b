-- ===== src/Checks/QueueRun.antt =====
-- The queue over small stores.
use sp327_alonso_a.Common.{
  ℕ, ◌≡◌, refl, Bool, false, none, some, [], ◌∷◌, arith, ◌==◌, if◌then◌else◌,
}
use sp327_alonso_a.Queue.{queue_init, queue_enqueue, queue_dequeue}
use sp327_alonso_a.Queue.Memory.{Ptr, node, QueueData, Store, Cmd, pure, ◌>>=◌, ◌>>◌, fault}
use sp327_alonso_a.Queue.Shape.{IsQueue, Returns, good_codes}
use sp327_alonso_a.Queue.Enqueue.{Enqueued, queue_enqueue_lem}
use sp327_alonso_a.Queue.Dequeue.{Dequeued, dequeue-cons}
use sp327_alonso_a.TestQueue.{
  Addresses, test_queue_init, test_queue_dequeue, test_que_is_close,
  test_queue_enqueue_when_q_empty,
}
use sp327_alonso_a.TestQueue.Pass.{tests_pass}

abbrev blank : Store
blank = record { nodes = λ _. none; queues = λ _. none; held = false; broadcasts = 0 }

-- The queue at 1 with its header at 2, and in the second store request 70 in the node 3.
abbrev data_of : Ptr → ℕ → Bool → QueueData
data_of tail size closed = record {
  header = 2;
  tail = tail;
  size = size;
  isclosed = closed;
  mutex = 8;
  cond_var = 9;
}

abbrev one_store : Store
one_store = record blank {
  nodes = λ a. if a == 2 then some (node 0 3) else if a == 3 then some (node 70 0) else none;
  queues = λ a. if a == 1 then some (data_of 3 1 false) else none;
}

one_store-IsQueue : IsQueue one_store 1 ((3, 70) ∷ []) false
one_store-IsQueue = record {
  d = data_of 3 1 false;
  v = 0;
  ne_null = omega arith;
  holds = refl;
  chain = (refl, omega arith, refl, (0, refl, omega arith, refl));
  size = refl;
  isclosed = refl;
  unlocked = refl;
}

-- test_queue_dequeue of test_queue.c: the sizes behind each call.
two_in_two_out : Cmd (Ptr × Ptr)
unfolding queue_init queue_enqueue queue_dequeue
two_in_two_out = do
  que ← queue_init 1 2 8 9
  queue_enqueue good_codes 3 que 70
  queue_enqueue good_codes 4 que 80
  a ← queue_dequeue good_codes que
  b ← queue_dequeue good_codes que
  pure (a, b)

two_in_two_out_result : Returns (λ r t. r ≡ (70, 80)) (two_in_two_out blank)
unfolding two_in_two_out
two_in_two_out_result = refl

queue_enqueue_lem_example :
    Returns
      (λ _ t. Enqueued one_store 1 4 80 ((3, 70) ∷ []) false t)
      (queue_enqueue good_codes 4 1 80 one_store)
queue_enqueue_lem_example =
    queue_enqueue_lem 4 80 one_store-IsQueue (omega arith) refl (omega arith)

dequeue-cons_example :
    Returns
      (λ r t. (r ≡ 70) × Dequeued one_store 1 3 [] false t)
      (queue_dequeue good_codes 1 one_store)
dequeue-cons_example = dequeue-cons one_store-IsQueue

abbrev addresses : Addresses
addresses = record {
  que = 1;
  header = 2;
  first = 3;
  second = 4;
  mutex = 8;
  cond_var = 9;
  data1 = 70;
  data2 = 80;
}

tests_pass_example :
    Returns (λ _ t. t.queues 1 ≡ none) (test_queue_init addresses blank)
    × Returns (λ _ t. t.queues 1 ≡ none) (test_queue_dequeue addresses blank)
    × Returns (λ _ t. t.queues 1 ≡ none) (test_que_is_close addresses blank)
    × (test_queue_enqueue_when_q_empty addresses blank ≡ fault)
tests_pass_example =
    tests_pass addresses blank (omega arith) (omega arith) refl (omega arith) refl (omega arith)
      (omega arith) refl (omega arith) (omega arith)
