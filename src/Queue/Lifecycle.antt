-- ===== src/Queue/Lifecycle.antt =====
-- `queue_init`, `queue_close`, `queue_isclose` and `queue_destroy`.
use sp327_alonso_a.Common.{◌+◌, ◌≡◌, refl, ◌≢◌, Bool, true, false, none, some, [], arith}
use sp327_alonso_a.Queue.{
  Codes, queue_enqueue, queue_dequeue, queue_init, queue_close, queue_isclose, queue_destroy,
}
use sp327_alonso_a.Queue.Memory.{Ptr, null, node, QueueData, Store, exits, fault}
use sp327_alonso_a.Queue.Chain.{Cells, Chain-first}
use sp327_alonso_a.Queue.Shape.{IsQueue, Returns, Returns-mono, good_codes}

abbrev made : (header mutex cond_var : Ptr) → QueueData
made header mutex cond_var = record {
  header = header;
  tail = header;
  size = 0;
  isclosed = false;
  mutex = mutex;
  cond_var = cond_var;
}

abbrev Fresh : Store → (que header mutex cond_var r : Ptr) → Store → Type 0
Fresh s que header mutex cond_var r t =
    (r ≡ que)
    × (t.nodes header ≡ some (node null null))
    × (t.queues que ≡ some (made header mutex cond_var))
    × (t.held ≡ false)
    × ((a : Ptr) → a ≢ header → t.nodes a ≡ s.nodes a)

init_facts :
    (s : Store) (que header mutex cond_var : Ptr)
    → que ≢ null
    → header ≢ null
    → s.held ≡ false
    → Returns (Fresh s que header mutex cond_var) (queue_init que header mutex cond_var s)
unfolding queue_init
init_facts s que header mutex cond_var nq nh unlocked = ground arith

-- With both allocations succeeding and the mutex free, `queue_init` returns the address of a queue
-- that is empty and open; all other nodes are as they were.
pub queue_init_lem :
    (s : Store) (que header mutex cond_var : Ptr)
    → que ≢ null
    → header ≢ null
    → s.held ≡ false
    → Returns
        (λ r t.
          (r ≡ que) × IsQueue t que [] false × ((a : Ptr) → a ≢ header → t.nodes a ≡ s.nodes a))
        (queue_init que header mutex cond_var s)
unfolding queue_init
queue_init_lem s que header mutex cond_var nq nh unlocked =
    Returns-mono {P = Fresh s que header mutex cond_var}
      {Q = λ r t.
        (r ≡ que) × IsQueue t que [] false × ((a : Ptr) → a ≢ header → t.nodes a ≡ s.nodes a)}
      _ (init_facts s que header mutex cond_var nq nh unlocked)
      (λ r t k. (
        k.0,
        record {
          d = made header mutex cond_var;
          v = null;
          ne_null = nq;
          holds = k.2;
          chain = (null, k.1, nh, refl);
          size = refl;
          isclosed = refl;
          unlocked = k.3;
        },
        k.4,
      ))

abbrev Shut : Store → Ptr → QueueData → Store → Type 0
Shut s que d t =
    (t.queues que ≡ some (record d { isclosed = true }))
    × (t.nodes ≡ s.nodes)
    × (t.held ≡ false)
    × (t.broadcasts ≡ s.broadcasts + 1)

module _ {s : Store} {que : Ptr} {cs : Cells} {closed : Bool} where
  close_facts :
      (q : IsQueue s que cs closed)
      → Returns (λ _ t. Shut s que q.d t) (queue_close good_codes que s)
  unfolding queue_close
  close_facts q = ground arith

  -- With the mutex calls succeeding, `queue_close` keeps the queued nodes, marks the queue closed,
  -- and makes one broadcast.
  pub queue_close_lem :
      IsQueue s que cs closed
      → Returns
          (λ _ t. IsQueue t que cs true × (t.broadcasts ≡ s.broadcasts + 1))
          (queue_close good_codes que s)
  queue_close_lem q =
      Returns-mono {P = λ _ t. Shut s que q.d t}
        {Q = λ _ t. IsQueue t que cs true × (t.broadcasts ≡ s.broadcasts + 1)} _ (close_facts q)
        (λ _ t k. (
          record {
            d = record q.d { isclosed = true };
            v = q.v;
            ne_null = q.ne_null;
            holds = k.0;
            chain = rw k.1 q.chain;
            size = q.size;
            isclosed = refl;
            unlocked = k.2;
          },
          k.3,
        ))

  pub queue_isclose_lem :
      IsQueue s que cs closed → Returns (λ r t. (r ≡ closed) × (t ≡ s)) (queue_isclose que s)
  unfolding queue_isclose
  queue_isclose_lem q = ground arith

  -- `queue_destroy` frees the queue and its header node, and leaves all other nodes as they were:
  -- requests that are still queued stay allocated.
  pub queue_destroy_lem :
      (q : IsQueue s que cs closed)
      → Returns
          (λ _ t.
            (t.queues que ≡ none)
            × (t.nodes q.d.header ≡ none)
            × ((a : Ptr) → a ≢ q.d.header → t.nodes a ≡ s.nodes a))
          (queue_destroy que s)
  unfolding queue_destroy
  queue_destroy_lem q =
      let (n, hn, nh) = Chain-first s.nodes q.d.header q.v cs q.d.tail q.chain in ground arith

-- If the mutex is free and `pthread_mutex_lock` returns an error, each of `queue_enqueue` (with
-- memory for its node), `queue_dequeue` and `queue_close` ends the process.
pub lock_failure :
    (s : Store) (que fresh e : Ptr) (codes : Codes)
    → s.held ≡ false
    → fresh ≢ null
    → codes.lock_code ≢ 0
    → (queue_enqueue codes fresh que e s ≡ exits)
      × (queue_dequeue codes que s ≡ exits)
      × (queue_close codes que s ≡ exits)
unfolding queue_enqueue queue_dequeue queue_close
lock_failure s que fresh e codes unlocked nf bad = ground arith

-- `queue_enqueue` does not test its `malloc`: when memory is short it writes through `NULL`.
pub enqueue-null :
    (s : Store) (que e : Ptr) (codes : Codes) → queue_enqueue codes null que e s ≡ fault
unfolding queue_enqueue
enqueue-null s que e codes = refl
