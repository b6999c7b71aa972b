-- ===== src/TestQueue/Pass.antt =====
-- What the tests of the queue do.
use mathlib.Core.Path.{subst}
use sp327_alonso_a.Common.{
  ℕ, ◌+◌, ◌≡◌, ◌≢◌, refl, sym, ◌∙◌, Bool, true, false, none, [], ◌∷◌, arith, length, ◌<◌, ap,
}
use sp327_alonso_a.Queue.{queue_init, queue_destroy}
use sp327_alonso_a.Queue.Memory.{Ptr, null, Store, Cmd, and_then, ok, fault, int_max}
use sp327_alonso_a.Queue.Chain.{Cells}
use sp327_alonso_a.Queue.Shape.{IsQueue, Returns, Returns-mono, Returns-then, Returns-ok}
use sp327_alonso_a.Queue.Enqueue.{Enqueued, queue_enqueue_lem}
use sp327_alonso_a.Queue.Dequeue.{Dequeued, dequeue-cons}
use sp327_alonso_a.Queue.Lifecycle.{
  queue_init_lem, queue_close_lem, queue_isclose_lem, queue_destroy_lem,
}
use sp327_alonso_a.TestQueue.{
  Addresses, enqueue, assert_size, in_and_out, test_queue_init, test_queue_dequeue,
  test_que_is_close, test_queue_enqueue_when_q_empty,
}

size-assert :
    {t : Store} {que : Ptr} {cs : Cells} {closed : Bool} (n : ℕ)
    → IsQueue t que cs closed
    → length cs ≡ n
    → assert_size que n t ≡ ok tt t
unfolding assert_size
size-assert n q e = ground arith

-- An assertion that holds, and the rest behind it.
sized :
    {t : Store} {que : Ptr} {cs : Cells} {closed : Bool} (Q : Unit {0} → Store → Type 0) (n : ℕ)
    (k : Cmd (Unit {0}))
    → IsQueue t que cs closed
    → length cs ≡ n
    → Returns Q (k t)
    → Returns Q (and_then (assert_size que n t) (λ _. k))
sized Q n k q e rest = rw (size-assert n q e) rest

destroyed :
    {s : Store} {que : Ptr} {cs : Cells} {closed : Bool}
    → IsQueue s que cs closed
    → Returns (λ _ t. t.queues que ≡ none) (queue_destroy que s)
destroyed {s} {que} q =
    Returns-mono
      {P = λ _ t.
        (t.queues que ≡ none)
        × (t.nodes q.d.header ≡ none)
        × ((p : Ptr) → p ≢ q.d.header → t.nodes p ≡ s.nodes p)}
      {Q = λ _ t. t.queues que ≡ none} _ (queue_destroy_lem q) (λ _ t k. k.0)

module _ {s : Store} {que : Ptr} {cs : Cells} {closed : Bool} (fresh e : Ptr)
    (q : IsQueue s que cs closed) (nf : fresh ≢ null) (hf : s.nodes fresh ≡ none)
    (room : length cs < int_max) where
  enqueue_initialized :
      Returns (λ _ t. Enqueued s que fresh e cs closed t) (enqueue true fresh que e s)
  unfolding enqueue
  enqueue_initialized =
      let P : Unit {0} → Store → Type 0 = λ _ t. Enqueued s que fresh e cs closed t in
      Returns-then P P _ _ (queue_enqueue_lem fresh e q nf hf room) (λ _ t k. k)

  enqueue_uninitialized : enqueue false fresh que e s ≡ fault
  unfolding enqueue
  enqueue_uninitialized =
      let P : Unit {0} → Store → Type 0 = λ _ t. Enqueued s que fresh e cs closed t in
      let (u, t, run, k) = Returns-ok P _ (queue_enqueue_lem fresh e q nf hf room) in rw run refl

module _ (a : Addresses) where
  open a use {que, header, first, second, data1, data2}

  module _ (s : Store) (nf : first ≢ null) (ns : second ≢ null) (apart : first ≢ second)
      (hf : s.nodes first ≡ none) (hs : s.nodes second ≡ none) where
    in_and_out_lem :
        IsQueue s que [] false → Returns (λ _ t. IsQueue t que [] false) (in_and_out a que s)
    unfolding in_and_out
    in_and_out_lem q =
        let Q : Unit {0} → Store → Type 0 = λ _ t. IsQueue t que [] false in
        Returns-then (λ _ t. Enqueued s que first data1 [] false t) Q _ _
          (enqueue_initialized first data1 q nf hf (omega arith))
          (λ _ t1 k1. sized Q 1 _ k1.0 refl (
            Returns-then (λ _ t. Enqueued t1 que second data2 ((first, data1) ∷ []) false t) Q _ _
              (enqueue_initialized second data2 k1.0 ns (k1.2 second (λ e. apart (sym e)) hs)
                (omega arith))
              (λ _ t2 k2. sized Q 2 _ k2.0 refl (
                Returns-then
                  (λ r t. (r ≡ data1) × Dequeued t2 que first ((second, data2) ∷ []) false t) Q _ _
                  (dequeue-cons k2.0)
                  (λ _ t3 k3. sized Q 1 _ k3.1.0 refl (
                    Returns-then (λ r t. (r ≡ data2) × Dequeued t3 que second [] false t) Q _ _
                      (dequeue-cons k3.1.0) (λ _ t4 k4. rw (size-assert 0 k4.1.0 refl) k4.1.0)))))))

  module _ (s : Store) (nq : que ≢ null) (nh : header ≢ null) (unlocked : s.held ≡ false) where
    init_passes : Returns (λ _ t. t.queues que ≡ none) (test_queue_init a s)
    unfolding test_queue_init queue_init
    init_passes = ground arith

    module _ (nf : first ≢ null) (hf : s.nodes first ≡ none) (hn : first ≢ header) where
      abbrev Made : Ptr → Store → Type 0
      Made r t =
          (r ≡ que) × IsQueue t que [] false × ((p : Ptr) → p ≢ header → t.nodes p ≡ s.nodes p)

      made : Returns Made (queue_init que header a.mutex a.cond_var s)
      made = queue_init_lem s que header a.mutex a.cond_var nq nh unlocked

      enqueue_faults : test_queue_enqueue_when_q_empty a s ≡ fault
      unfolding test_queue_enqueue_when_q_empty
      enqueue_faults =
          let (r, t, run, k) = Returns-ok Made _ made in
          rw (run, k.0)
            (ap (λ z. and_then z (λ _. assert_size que 1))
              (enqueue_uninitialized first data1 k.1 nf (k.2 first hn ∙ hf) (omega arith)))

      module _ (ns : second ≢ null) (hs : s.nodes second ≡ none) (hm : second ≢ header)
          (apart : first ≢ second) where
        dequeue_passes : Returns (λ _ t. t.queues que ≡ none) (test_queue_dequeue a s)
        unfolding test_queue_dequeue
        dequeue_passes =
            let Q : Unit {0} → Store → Type 0 = λ _ t. t.queues que ≡ none in
            Returns-then Made Q _ _ made (λ r t k. rw k.0 (
              Returns-then (λ _ u. IsQueue u que [] false) Q _ _
                (in_and_out_lem t nf ns apart (k.2 first hn ∙ hf) (k.2 second hm ∙ hs) k.1)
                (λ _ u l. destroyed l)))

        close_passes : Returns (λ _ t. t.queues que ≡ none) (test_que_is_close a s)
        unfolding test_que_is_close
        close_passes =
            let Q : Unit {0} → Store → Type 0 = λ _ t. t.queues que ≡ none in
            Returns-then Made Q _ _ made (λ r t k. rw k.0 (
              Returns-then (λ _ u. IsQueue u que [] false) Q _ _
                (in_and_out_lem t nf ns apart (k.2 first hn ∙ hf) (k.2 second hm ∙ hs) k.1)
                (λ _ u l.
                  Returns-then (λ _ v. IsQueue v que [] true × (v.broadcasts ≡ u.broadcasts + 1)) Q
                    _ _ (queue_close_lem l)
                    (λ _ v g.
                      Returns-then (λ c w. (c ≡ true) × (w ≡ v)) Q _ _ (queue_isclose_lem g.0)
                        (λ c w h.
                          rw h.0 (destroyed (subst (λ x. IsQueue x que [] true) (sym h.1) g.0)))))))

        -- Whatever addresses the allocations return, when they are distinct, not null and not in
        -- use: no assertion of the tests of `queue_init`, of `queue_dequeue` and of closing fails,
        -- these tests do not fault or sleep, and they have freed the queue at their end. The test
        -- that enqueues to an empty queue has undefined behaviour, as its condition variable has
        -- not been initialized.
        pub tests_pass :
            Returns (λ _ t. t.queues que ≡ none) (test_queue_init a s)
            × Returns (λ _ t. t.queues que ≡ none) (test_queue_dequeue a s)
            × Returns (λ _ t. t.queues que ≡ none) (test_que_is_close a s)
            × (test_queue_enqueue_when_q_empty a s ≡ fault)
        tests_pass = (init_passes, dequeue_passes, close_passes, enqueue_faults)
