-- ===== src/Pool/Invariant/State.antt =====
-- The invariant: which requests are where, and who may sleep.
use sp327_alonso_a.Common.{
  ℕ, ◌+◌, ◌<◌, ◌≡◌, ◌≢◌, ◌⊎◌, Bool, true, false, List, [], ◌∷◌, ◌++◌, ◌==◌, if◌then◌else◌,
}
use sp327_alonso_a.Queue.Memory.{Ptr, null}
use sp327_alonso_a.Pool.{
  Pc, asleep, working, exited, MainPc, producing, notifying, closing, joining, finished, System,
}
use sp327_alonso_a.Pool.Family.{total}
use sp327_alonso_a.Pool.Interface.{QueueImpl}

-- requests that `main` has still to enqueue
abbrev pub upcoming : MainPc → List Ptr
upcoming (producing rest) = rest
upcoming (notifying rest) = rest
upcoming _ = []

abbrev pub is_closed : MainPc → Bool
is_closed (producing _) = false
is_closed (notifying _) = false
is_closed _ = true

-- `main` has changed the queue and has not yet broadcast.
abbrev pub pending : MainPc → Bool
pending (notifying _) = true
pending closing = true
pending _ = false

-- `main` has joined worker `j`.
abbrev pub Joined : ℕ → MainPc → ℕ → Type 0
Joined n (joining i) j = j < i
Joined n finished j = j < n
Joined n _ j = ⊥

abbrev pub count : Ptr → List Ptr → ℕ
count a [] = 0
count a (x ∷ xs) = (if a == x then 1 else 0) + count a xs

-- 1 if the worker has request `a` in hand
abbrev pub in_hand : Ptr → Pc → ℕ
in_hand a (working r) = if a == r then 1 else 0
in_hand a _ = 0

-- No request is `NULL`.
abbrev pub Real : List Ptr → Type 0
Real [] = Unit
Real (r ∷ rs) = (r ≢ null) × Real rs

module _ {S : Type 0} (Q : QueueImpl S) (n : ℕ) (plan : List Ptr) where
  open Q use {Holds}

  pub record Inv (s : System S) : Type 0 where
    pub es : List Ptr
    pub closed : Bool
    pub holds : Holds s.shared es closed
    pub order : plan ≡ s.taken ++ (es ++ upcoming s.main)
    pub real : Real (es ++ upcoming s.main)
    pub shut : closed ≡ is_closed s.main
    pub done : (i : ℕ) → s.pc i ≡ exited → (closed ≡ true) × (es ≡ [])
    pub sleepers :
        (i : ℕ) → s.pc i ≡ asleep → (pending s.main ≡ true) ⊎ ((es ≡ []) × (closed ≡ false))
    pub counted : (a : Ptr) → count a s.served + total (in_hand a) n s.pc ≡ count a s.taken
    pub joined : (j : ℕ) → Joined n s.main j → s.pc j ≡ exited
