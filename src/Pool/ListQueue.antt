-- ===== src/Pool/ListQueue.antt =====
-- The specification of the queue as a list of requests and a flag, itself an implementation of the
-- interface.
use sp327_alonso_a.Common.{◌≡◌, refl, Bool, true, false, List, [], ◌∷◌, ◌++◌, arith}
use sp327_alonso_a.Queue.Memory.{Ptr, null}
use sp327_alonso_a.Pool.Interface.{Outcome, returned, waits, After, QueueImpl}

pub record ListQueue : Type 0 where
  pub requests : List Ptr
  pub shut : Bool

abbrev pub dequeue_list : ListQueue → Outcome × ListQueue
dequeue_list q = go q.requests q.shut
  where
    go : List Ptr → Bool → Outcome × ListQueue
    go (r ∷ rs) c = (returned r, record { requests = rs; shut = c })
    go [] true = (returned null, record { requests = []; shut = true })
    go [] false = (waits, record { requests = []; shut = false })

pub dequeue_list-After :
    (s t : ListQueue) (o : Outcome) (es : List Ptr) (c : Bool)
    → (s.requests ≡ es) × (s.shut ≡ c)
    → dequeue_list s ≡ (o, t)
    → After es c o (λ es' c'. (t.requests ≡ es') × (t.shut ≡ c'))
dequeue_list-After s t o es c h e = ground arith

abbrev pub Lists : ListQueue → List Ptr → Bool → Type 0
Lists s es c = (s.requests ≡ es) × (s.shut ≡ c)

pub append-Lists :
    (e : Ptr) (s t : ListQueue) (es : List Ptr) (c : Bool)
    → Lists s es c
    → t ≡ record s { requests = s.requests ++ e ∷ [] }
    → Lists t (es ++ e ∷ []) c
append-Lists e s t es c h q = ground arith

pub shut-Lists :
    (s t : ListQueue) (es : List Ptr) (c : Bool)
    → Lists s es c
    → t ≡ record s { shut = true }
    → Lists t es true
shut-Lists s t es c h q = ground arith

abbrev pub list_queue : QueueImpl ListQueue
list_queue = record {
  Holds = Lists;
  Enqueue = λ e s t. t ≡ record s { requests = s.requests ++ e ∷ [] };
  Dequeue = λ s o t. dequeue_list s ≡ (o, t);
  Close = λ s t. t ≡ record s { shut = true };
  enqueue_law = append-Lists;
  dequeue_law = dequeue_list-After;
  close_law = shut-Lists;
  dequeue_total = λ s es c h. ((dequeue_list s).0, (dequeue_list s).1, refl);
}

abbrev pub empty : ListQueue
empty = record { requests = []; shut = false }
