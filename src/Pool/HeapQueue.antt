-- ===== src/Pool/HeapQueue.antt =====
-- The queue of M9Lab/M9/queue.c is an implementation of the interface: its calls, where they
-- return or sleep, keep the laws. `Enqueue` supposes that `malloc` returns an unused address, and
-- that fewer than INT_MAX requests are queued.
use sp327_alonso_a.Common.{
  ◌<◌, ◌≡◌, refl, ap, ◌∙◌, ◌≢◌, Bool, true, false, none, some, List, [], ◌∷◌, ◌++◌, arith, length,
}
use mathlib.Core.List.{map-append}
use mathlib.Core.Path.{subst}
use sp327_alonso_a.Queue.{queue_enqueue, queue_dequeue, queue_close}
use sp327_alonso_a.Queue.Memory.{Ptr, null, QueueData, Store, Run, ok, sleeps, int_max}
use sp327_alonso_a.Queue.Chain.{Cells}
use sp327_alonso_a.Queue.Shape.{IsQueue, items, Returns-ok, good_codes}
use sp327_alonso_a.Queue.Enqueue.{Enqueued, queue_enqueue_lem}
use sp327_alonso_a.Queue.Dequeue.{Ended, Dequeued, dequeue-sleeps, dequeue-closed, dequeue-cons}
use sp327_alonso_a.Queue.Lifecycle.{queue_close_lem}
use sp327_alonso_a.Pool.Interface.{Outcome, returned, waits, After, QueueImpl}

-- `queue_dequeue` as it ends in `t`: with a result, or asleep.
abbrev pub EndsAs : Outcome → Run Ptr → Store → Type 0
EndsAs (returned r) run t = run ≡ ok r t
EndsAs waits run t = run ≡ sleeps t

module _ (que : Ptr) where
  abbrev pub HoldsIn : Store → List Ptr → Bool → Type 0
  HoldsIn s es c = (cs : Cells) × IsQueue s que cs c × (items cs ≡ es)

  abbrev pub EnqueueIn : Ptr → Store → Store → Type 0
  EnqueueIn e s t =
      (fresh : Ptr) × (fresh ≢ null)
      × (s.nodes fresh ≡ none)
      × ((d : QueueData) → s.queues que ≡ some d → d.size < int_max)
      × (queue_enqueue good_codes fresh que e s ≡ ok tt t)

  pub enqueue-HoldsIn :
      (e : Ptr) (s t : Store) (es : List Ptr) (c : Bool)
      → HoldsIn s es c
      → EnqueueIn e s t
      → HoldsIn t (es ++ e ∷ []) c
  enqueue-HoldsIn e s t es c (cs, q, same) (fresh, nf, hf, room, run) =
      let lt : length cs < int_max = omega (arith, room q.d q.holds) in
      let k : Enqueued s que fresh e cs c t = rw run at (queue_enqueue_lem fresh e q nf hf lt) in
      (cs ++ (fresh, e) ∷ [], k.0, map-append _ cs ((fresh, e) ∷ []) ∙ ap (λ u. u ++ e ∷ []) same)

  after-cons :
      (s t : Store) (o : Outcome) (p e : Ptr) (cs : Cells) (c : Bool)
      → IsQueue s que ((p, e) ∷ cs) c
      → EndsAs o (queue_dequeue good_codes que s) t
      → After (e ∷ items cs) c o (HoldsIn t)
  after-cons s t (returned r) p e cs c q run =
      let k : (r ≡ e) × Dequeued s que p cs c t = rw run at (dequeue-cons q) in
      (k.0, (cs, k.1.0, refl))
  after-cons s t waits p e cs c q run = let k : ⊥ = rw run at (dequeue-cons q) in k

  after-closed :
      (s t : Store) (o : Outcome)
      → IsQueue s que [] true
      → EndsAs o (queue_dequeue good_codes que s) t
      → After [] true o (HoldsIn t)
  after-closed s t (returned r) q run =
      let k : (r ≡ null) × Ended s que t = rw run at (dequeue-closed q) in (k.0, ([], k.1.0, refl))
  after-closed s t waits q run = let k : ⊥ = rw run at (dequeue-closed q) in k

  after-open :
      (s t : Store) (o : Outcome)
      → IsQueue s que [] false
      → EndsAs o (queue_dequeue good_codes que s) t
      → After [] false o (HoldsIn t)
  after-open s t (returned r) q run = cc (dequeue-sleeps q)
  after-open s t waits q run =
      let e : s ≡ t = cc (dequeue-sleeps q) in ([], subst (λ u. IsQueue u que [] false) e q, refl)

  pub dequeue-HoldsIn :
      (s t : Store) (o : Outcome) (es : List Ptr) (c : Bool)
      → HoldsIn s es c
      → EndsAs o (queue_dequeue good_codes que s) t
      → After es c o (HoldsIn t)
  dequeue-HoldsIn s t o es c ((p, e) ∷ cs, q, same) run =
      rw (← same) (after-cons s t o p e cs c q run)
  dequeue-HoldsIn s t o es true ([], q, same) run = rw (← same) (after-closed s t o q run)
  dequeue-HoldsIn s t o es false ([], q, same) run = rw (← same) (after-open s t o q run)

  pub close-HoldsIn :
      (s t : Store) (es : List Ptr) (c : Bool)
      → HoldsIn s es c
      → queue_close good_codes que s ≡ ok tt t
      → HoldsIn t es true
  close-HoldsIn s t es c (cs, q, same) run =
      let k : IsQueue t que cs true × _ = rw run at (queue_close_lem q) in (cs, k.0, same)

  pub ends :
      (s : Store) (es : List Ptr) (c : Bool)
      → HoldsIn s es c
      → (o : Outcome) × (t : Store) × EndsAs o (queue_dequeue good_codes que s) t
  ends s es c ((p, e) ∷ cs, q, same) =
      let (a, t, run, _) =
        Returns-ok (λ r t. (r ≡ e) × Dequeued s que p cs c t) _ (dequeue-cons q) in
      (returned a, t, run)
  ends s es true ([], q, same) =
      let (a, t, run, _) = Returns-ok (λ r t. (r ≡ null) × Ended s que t) _ (dequeue-closed q) in
      (returned a, t, run)
  ends s es false ([], q, same) = (waits, s, dequeue-sleeps q)

  abbrev pub heap_queue : QueueImpl Store
  heap_queue = record {
    Holds = HoldsIn;
    Enqueue = EnqueueIn;
    Dequeue = λ s o t. EndsAs o (queue_dequeue good_codes que s) t;
    Close = λ s t. queue_close good_codes que s ≡ ok tt t;
    enqueue_law = enqueue-HoldsIn;
    dequeue_law = dequeue-HoldsIn;
    close_law = close-HoldsIn;
    dequeue_total = ends;
  }
