-- ===== src/Pool/Invariant/Cases.antt =====
-- What the outcome of a `queue_dequeue` says of the queue before it, and facts on lists.
use sp327_alonso_a.Common.{◌+◌, ◌≡◌, refl, ◌≢◌, Bool, true, false, List, [], ◌∷◌, ◌++◌, arith}
use sp327_alonso_a.Queue.Memory.{Ptr, null}
use sp327_alonso_a.Pool.Interface.{returned, waits, After}
use sp327_alonso_a.Pool.Invariant.State.{Real, count}

module _ (R : List Ptr → Bool → Type 0) where
  pub take_case :
      (es : List Ptr) (c : Bool) (r : Ptr)
      → After es c (returned r) R
      → r ≢ null
      → (rest : List Ptr) × (es ≡ r ∷ rest) × R rest c
  take_case (e ∷ es) c r h ne = (es, cc, h.1)
  take_case [] true r h ne = absurd (ne h.0)
  take_case [] false r h ne = absurd h

  pub end_case :
      (es xs : List Ptr) (c : Bool) (r : Ptr)
      → After es c (returned r) R
      → r ≡ null
      → Real (es ++ xs)
      → (es ≡ []) × (c ≡ true) × R [] true
  end_case (e ∷ es) xs c r h z real = absurd (real.0 cc)
  end_case [] xs true r h z real = (refl, refl, h.1)
  end_case [] xs false r h z real = absurd h

  pub sleep_case :
      (es : List Ptr) (c : Bool) → After es c waits R → (es ≡ []) × (c ≡ false) × R [] false
  sleep_case (e ∷ es) c h = absurd h
  sleep_case [] true h = absurd h
  sleep_case [] false h = (refl, refl, h)

pub count-append : (a : Ptr) (xs ys : List Ptr) → count a (xs ++ ys) ≡ count a xs + count a ys
count-append a [] ys = omega arith
count-append a (x ∷ xs) ys = omega (arith, count-append a xs ys)
