-- ===== src/Pool/Interface.antt =====
-- What the workers and `main` rely on of the queue: the interface M9Lab/M9/queue.h with its laws.
use sp327_alonso_a.Common.{◌≡◌, Bool, true, false, List, [], ◌∷◌, ◌++◌}
use sp327_alonso_a.Queue.Memory.{Ptr, null}

-- How a locked section of `queue_dequeue` ends.
pub data Outcome : Type 0 where
  returned : Ptr → Outcome
  waits : Outcome

-- `R` is the queue's content afterwards. Any other combination does not happen.
abbrev pub After : List Ptr → Bool → Outcome → (List Ptr → Bool → Type 0) → Type 0
After (e ∷ es) c (returned r) R = (r ≡ e) × R es c
After [] true (returned r) R = (r ≡ null) × R [] true
After [] false waits R = R [] false
After _ _ _ R = ⊥

-- A queue over the states `S`: the calls as relations between the states before and after.
pub record QueueImpl (S : Type 0) : Type 1 where
  pub Holds : S → List Ptr → Bool → Type 0
  pub Enqueue : Ptr → S → S → Type 0
  pub Dequeue : S → Outcome → S → Type 0
  pub Close : S → S → Type 0
  pub enqueue_law :
      (e : Ptr) (s t : S) (es : List Ptr) (c : Bool)
      → Holds s es c
      → Enqueue e s t
      → Holds t (es ++ e ∷ []) c
  pub dequeue_law :
      (s t : S) (o : Outcome) (es : List Ptr) (c : Bool)
      → Holds s es c
      → Dequeue s o t
      → After es c o (Holds t)
  pub close_law : (s t : S) (es : List Ptr) (c : Bool) → Holds s es c → Close s t → Holds t es true
  pub dequeue_total :
      (s : S) (es : List Ptr) (c : Bool) → Holds s es c → (o : Outcome) × (t : S) × Dequeue s o t
