-- ===== src/Queue/Enqueue.antt =====
-- `queue_enqueue` appends its argument, whichever branch links the node.
use sp327_alonso_a.Common.{
  ◌+◌, ◌<◌, ◌≡◌, ◌∙◌, ◌≢◌, Bool, false, none, some, [], ◌∷◌, ◌++◌, arith, length, length-append,
}
use sp327_alonso_a.Queue.{queue_enqueue}
use sp327_alonso_a.Queue.Memory.{Ptr, null, node, QueueData, Store, int_max}
use sp327_alonso_a.Queue.Chain.{Cells, Chain, Chain-last, Chain-snoc, not-mem_of_none}
use sp327_alonso_a.Queue.Shape.{IsQueue, Returns, Returns-mono, good_codes}

module _ (s : Store) (que fresh e : Ptr) (d : QueueData) where
  -- What the branches leave: the new node behind the old tail, with `n` in its own `next`.
  abbrev Linked : Ptr → Ptr → Store → Type 0
  Linked vl n t =
      (t.queues que ≡ some (record d { tail = fresh; size = d.size + 1 }))
      × (t.held ≡ false)
      × (t.broadcasts ≡ s.broadcasts + 1)
      × (t.nodes fresh ≡ some (node e n))
      × (t.nodes d.tail ≡ some (node vl fresh))
      × ((a : Ptr) → a ≢ d.tail → a ≢ fresh → t.nodes a ≡ s.nodes a)

  module _ {vl nl : Ptr} (nq : que ≢ null) (hq : s.queues que ≡ some d) (unlocked : s.held ≡ false)
      (nf : fresh ≢ null) (hf : s.nodes fresh ≡ none) (hl : s.nodes d.tail ≡ some (node vl nl))
      (nt : d.tail ≢ null) where
    enqueue-empty :
        d.header ≡ d.tail
        → d.size ≡ 0
        → Returns (λ _ t. Linked vl null t) (queue_enqueue good_codes fresh que e s)
    unfolding queue_enqueue
    enqueue-empty same empty = ground arith

    -- The second branch makes the new node its own successor.
    enqueue-more :
        d.size ≢ 0
        → d.size < int_max
        → Returns (λ _ t. Linked vl fresh t) (queue_enqueue good_codes fresh que e s)
    unfolding queue_enqueue
    enqueue-more more room = ground arith

  Linked-IsQueue :
      {vl nl n : Ptr} {closed : Bool} (cs : Cells) (v : Ptr) (t : Store)
      → que ≢ null
      → fresh ≢ null
      → s.nodes fresh ≡ none
      → s.nodes d.tail ≡ some (node vl nl)
      → Chain s.nodes d.header v cs d.tail
      → d.size ≡ length cs
      → d.isclosed ≡ closed
      → Linked vl n t
      → IsQueue t que (cs ++ (fresh, e) ∷ []) closed
  Linked-IsQueue {vl} {nl} {n} cs v t nq nf hf hl c size isclosed k = record {
    d = record d { tail = fresh; size = d.size + 1 };
    v = v;
    ne_null = nq;
    holds = k.0;
    chain =
        Chain-snoc fresh e n vl nl d.header v cs d.tail c
          (not-mem_of_none s.nodes fresh d.header v cs d.tail c hf) nf k.3 hl k.4 k.5;
    size = omega (arith, length-append cs ((fresh, e) ∷ []));
    isclosed = isclosed;
    unlocked = k.1;
  }

-- What a client sees: the new cell is last, sleepers have been woken, and no memory was taken but
-- the new node.
abbrev pub Enqueued : Store → (que fresh e : Ptr) → Cells → Bool → Store → Type 0
Enqueued s que fresh e cs closed t =
    IsQueue t que (cs ++ (fresh, e) ∷ []) closed
    × (t.broadcasts ≡ s.broadcasts + 1)
    × ((a : Ptr) → a ≢ fresh → s.nodes a ≡ none → t.nodes a ≡ none)

module _ {s : Store} {que : Ptr} {cs : Cells} {closed : Bool} (fresh e : Ptr) where
  -- On a queue of fewer than INT_MAX nodes, with `malloc` returning an unused address and the
  -- mutex calls succeeding, `queue_enqueue` returns; the new node is last in the queue with its
  -- data, the rest of the queue is as it was, there has been one more broadcast, and addresses that
  -- held no node, but for that of the new one, hold none still.
  pub queue_enqueue_lem :
      IsQueue s que cs closed
      → fresh ≢ null
      → s.nodes fresh ≡ none
      → length cs < int_max
      → Returns (λ _ t. Enqueued s que fresh e cs closed t) (queue_enqueue good_codes fresh que e s)
  queue_enqueue_lem q nf hf room = go cs q.chain q.size room
    where
      open q use {d, v, ne_null, holds, isclosed, unlocked}

      still_none :
          (t : Store) {vl nl : Ptr}
          → s.nodes d.tail ≡ some (node vl nl)
          → ((a : Ptr) → a ≢ d.tail → a ≢ fresh → t.nodes a ≡ s.nodes a)
          → (a : Ptr) → a ≢ fresh
          → s.nodes a ≡ none
          → t.nodes a ≡ none
      still_none t at_tail same a apart nothing = same a (λ e. ground arith) apart ∙ nothing

      go :
          (cs : Cells)
          → Chain s.nodes d.header v cs d.tail
          → d.size ≡ length cs
          → length cs < int_max
          → Returns
              (λ _ t. Enqueued s que fresh e cs closed t)
              (queue_enqueue good_codes fresh que e s)
      go [] c size room =
          Returns-mono {P = λ _ t. Linked s que fresh e d v null t}
            {Q = λ _ t. Enqueued s que fresh e [] closed t} _
            (enqueue-empty s que fresh e d {vl = v} {nl = c.0} ne_null holds unlocked nf hf
              (ground arith) (ground arith) (ground arith) (omega arith))
            (λ _ t k. (
              Linked-IsQueue s que fresh e d {nl = c.0} [] v t ne_null nf hf (ground arith) c size
                  isclosed k,
              k.2,
              still_none t {vl = v} {nl = c.0} (ground arith) k.5,
            ))
      go (x ∷ cs) c size room =
          let l = Chain-last d.header v (x ∷ cs) d.tail c in
          Returns-mono {P = λ _ t. Linked s que fresh e d l.value fresh t}
            {Q = λ _ t. Enqueued s que fresh e (x ∷ cs) closed t} _
            (enqueue-more s que fresh e d ne_null holds unlocked nf hf l.holds l.ne_null
              (omega arith) (omega arith))
            (λ _ t k. (
              Linked-IsQueue s que fresh e d (x ∷ cs) v t ne_null nf hf l.holds c size isclosed k,
              k.2,
              still_none t l.holds k.5,
            ))
