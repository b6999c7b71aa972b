-- ===== src/Queue/Dequeue.antt =====
-- `queue_dequeue` removes the first request, sleeps, or reports the end of the work.
use sp327_alonso_a.Common.{
  ◌+◌, ◌-◌, ◌≡◌, refl, ◌∙◌, ◌≢◌, Bool, true, false, none, some, [], ◌∷◌, arith, ◌==◌, length,
  if◌then◌else◌,
}
use sp327_alonso_a.Queue.{queue_dequeue}
use sp327_alonso_a.Queue.Memory.{Ptr, null, node, QueueData, Store, sleeps}
use sp327_alonso_a.Queue.Chain.{Cells, Chain, ne_of_has, Chain-first, Chain-frame}
use sp327_alonso_a.Queue.Shape.{IsQueue, Returns, Returns-mono, good_codes}

module _ (s : Store) (que p e n v : Ptr) (d : QueueData) where
  -- The first node is unlinked and freed, nothing else is written.
  abbrev Unlinked : Ptr → Store → Type 0
  Unlinked tail t =
      (t.queues que ≡ some (record d { tail = tail; size = d.size - 1 }))
      × (t.held ≡ false)
      × (t.broadcasts ≡ s.broadcasts)
      × (t.nodes d.header ≡ some (node v n))
      × (t.nodes p ≡ none)
      × ((a : Ptr) → a ≢ d.header → a ≢ p → t.nodes a ≡ s.nodes a)

  dequeue-some :
      que ≢ null
      → s.queues que ≡ some d
      → s.held ≡ false
      → d.header ≢ null
      → p ≢ null
      → d.header ≢ p
      → s.nodes d.header ≡ some (node v p)
      → s.nodes p ≡ some (node e n)
      → d.size ≢ 0
      → Returns
          (λ r t. (r ≡ e) × Unlinked (if d.size - 1 == 0 then d.header else d.tail) t)
          (queue_dequeue good_codes que s)
  unfolding queue_dequeue
  dequeue-some nq hq unlocked nh np apart hh hp more = ground arith

-- With other calls' marks on a store the queue in it is the same.
pub IsQueue-same :
    {s : Store} {que : Ptr} {closed : Bool} (cs : Cells) (t : Store)
    → IsQueue s que cs closed
    → t.queues que ≡ s.queues que
    → t.nodes ≡ s.nodes
    → t.held ≡ false
    → IsQueue t que cs closed
IsQueue-same cs t q same_queue same_nodes unlocked = record {
  d = q.d;
  v = q.v;
  ne_null = q.ne_null;
  holds = same_queue ∙ q.holds;
  chain = rw same_nodes q.chain;
  size = q.size;
  isclosed = q.isclosed;
  unlocked = unlocked;
}

-- The first cell is gone, its node is freed, and nobody is woken.
abbrev pub Dequeued : Store → (que p : Ptr) → Cells → Bool → Store → Type 0
Dequeued s que p cs closed t =
    IsQueue t que cs closed × (t.nodes p ≡ none) × (t.broadcasts ≡ s.broadcasts)

-- Nothing is queued and the queue is closed: `NULL`, and the other sleepers are woken.
abbrev pub Ended : Store → Ptr → Store → Type 0
Ended s que t = IsQueue t que [] true × (t.broadcasts ≡ s.broadcasts + 1)

module _ {s : Store} {que : Ptr} where
  -- On an empty queue that is open, with the mutex calls succeeding, `queue_dequeue` sleeps in
  -- `pthread_cond_wait` with memory and mutex as it found them.
  pub dequeue-sleeps : IsQueue s que [] false → queue_dequeue good_codes que s ≡ sleeps s
  unfolding queue_dequeue
  dequeue-sleeps q = ground arith

  closed_facts :
      IsQueue s que [] true
      → Returns
          (λ r t.
            (r ≡ null)
            × (t.queues que ≡ s.queues que)
            × (t.nodes ≡ s.nodes)
            × (t.held ≡ false)
            × (t.broadcasts ≡ s.broadcasts + 1))
          (queue_dequeue good_codes que s)
  unfolding queue_dequeue
  closed_facts q = ground arith

  -- On an empty queue that is closed, with the mutex calls succeeding, `queue_dequeue` returns
  -- `NULL` after one broadcast and leaves the queue empty and closed.
  pub dequeue-closed :
      IsQueue s que [] true
      → Returns (λ r t. (r ≡ null) × Ended s que t) (queue_dequeue good_codes que s)
  dequeue-closed q =
      Returns-mono
        {P = λ r t.
          (r ≡ null)
          × (t.queues que ≡ s.queues que)
          × (t.nodes ≡ s.nodes)
          × (t.held ≡ false)
          × (t.broadcasts ≡ s.broadcasts + 1)}
        {Q = λ r t. (r ≡ null) × Ended s que t} _ (closed_facts q)
        (λ r t k. (k.0, (IsQueue-same [] t q k.1 k.2 k.3, k.4)))

Unlinked-rest :
    (s : Store) (que p e : Ptr) (d : QueueData) (v : Ptr) (closed : Bool) (cs : Cells) (t : Store)
    → que ≢ null
    → (c : Chain s.nodes d.header v ((p, e) ∷ cs) d.tail) → d.size ≡ length cs + 1
    → d.isclosed ≡ closed
    → (n : Ptr) → s.nodes p ≡ some (node e n)
    → Unlinked s que p e n v d (if d.size - 1 == 0 then d.header else d.tail) t
    → Dequeued s que p cs closed t
Unlinked-rest s que p e d v closed [] t nq c size isclosed n hn k = (
  record {
    d = record d { tail = d.header; size = 0 };
    v = v;
    ne_null = nq;
    holds = ground arith;
    chain = (n, k.3, c.1, refl);
    size = refl;
    isclosed = isclosed;
    unlocked = k.1;
  },
  k.4,
  k.2,
)
Unlinked-rest s que p e d v closed ((q, f) ∷ cs) t nq c size isclosed n hn k = (
  record {
    d = record d { size = d.size - 1 };
    v = v;
    ne_null = nq;
    holds = ground arith;
    chain = (
      ground arith,
      c.1,
      ground arith,
      Chain-frame q f cs d.tail c.3.3 (λ a i.
          k.5 a (ne_of_has a d.header ((q, f) ∷ cs) i (ground arith))
            (ne_of_has a p ((q, f) ∷ cs) i c.3.2)),
    );
    size = omega arith;
    isclosed = isclosed;
    unlocked = k.1;
  },
  k.4,
  k.2,
)

module _ {s : Store} {que p e : Ptr} {cs : Cells} {closed : Bool} where
  -- On a queue that is not empty, open or closed, with the mutex calls succeeding, `queue_dequeue`
  -- returns the data of the first node; the node is freed, the other nodes are still queued in
  -- order, and no broadcast is made.
  pub dequeue-cons :
      IsQueue s que ((p, e) ∷ cs) closed
      → Returns (λ r t. (r ≡ e) × Dequeued s que p cs closed t) (queue_dequeue good_codes que s)
  dequeue-cons q =
      let c = q.chain in
      let (n, hn, np) = Chain-first s.nodes p e cs q.d.tail c.3 in
      Returns-mono
        {P = λ r t.
          (r ≡ e)
          × Unlinked s que p e n q.v q.d (if q.d.size - 1 == 0 then q.d.header else q.d.tail) t}
        {Q = λ r t. (r ≡ e) × Dequeued s que p cs closed t} _
        (dequeue-some s que p e n q.v q.d q.ne_null q.holds q.unlocked c.1 np (ground arith) c.0 hn
          (omega arith))
        (λ r t k. (
          k.0,
          Unlinked-rest s que p e q.d q.v closed cs t q.ne_null c (omega arith) q.isclosed n hn k.1,
        ))
