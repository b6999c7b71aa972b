-- ===== src/Queue/Shape.antt =====
-- When a store holds a queue with given contents.
use sp327_alonso_a.Common.{◌≡◌, refl, ◌≢◌, ◌||◌, Bool, false, some, List, ◌==◌, map, length}
use sp327_alonso_a.Queue.Memory.{
  Ptr, null, QueueData, Store, Run, ok, sleeps, exits, fault, Cmd, and_then,
}
use sp327_alonso_a.Queue.{Codes}
use sp327_alonso_a.Queue.Chain.{Cells, has, Chain}

-- `que` points at a queue whose nodes behind its header are `cs`, in order. `d` is the queue's
-- record, and `v` the unused `data` of the header node.
pub record IsQueue (s : Store) (que : Ptr) (cs : Cells) (closed : Bool) : Type 0 where
  pub d : QueueData
  pub v : Ptr
  pub ne_null : que ≢ null
  pub holds : s.queues que ≡ some d
  pub chain : Chain s.nodes d.header v cs d.tail
  pub size : d.size ≡ length cs
  pub isclosed : d.isclosed ≡ closed
  pub unlocked : s.held ≡ false

-- what the queue holds for its clients: the `data` of each node
abbrev pub items : Cells → List Ptr
items = map (λ c. c.1)

-- The call returned, and `P` holds of its result and of the store that it leaves.
abbrev pub Returns : {A : Type 0} → (A → Store → Type 0) → Run A → Type 0
Returns P (ok a s) = P a s
Returns P (sleeps s) = ⊥
Returns P exits = ⊥
Returns P fault = ⊥

module _ {A : Type 0} {P Q : A → Store → Type 0} where
  pub Returns-mono : (r : Run A) → Returns P r → ((a : A) (s : Store) → P a s → Q a s) → Returns Q r
  Returns-mono (ok a s) p weaken = weaken a s p
  Returns-mono (sleeps _) p weaken = elim p [ ]
  Returns-mono exits p weaken = elim p [ ]
  Returns-mono fault p weaken = elim p [ ]

abbrev pub good_codes : Codes
good_codes = record { lock_code = 0; unlock_code = 0 }

-- Nodes outside `cs` and `p` are as they were.
abbrev pub SameBut : Ptr → Cells → Store → Store → Type 0
SameBut p cs s t = (a : Ptr) → ((a == p) || has a cs) ≡ false → t.nodes a ≡ s.nodes a

module _ {A : Type 0} (P : A → Store → Type 0) where
  pub Returns-ok : (r : Run A) → Returns P r → (a : A) × (t : Store) × (r ≡ ok a t) × P a t
  Returns-ok (ok a s) p = (a, s, refl, p)
  Returns-ok (sleeps _) p = elim p [ ]
  Returns-ok exits p = elim p [ ]
  Returns-ok fault p = elim p [ ]

-- A command that returns, and the rest behind it.
module _ {A B : Type 0} (P : A → Store → Type 0) (Q : B → Store → Type 0) (k : A → Cmd B) where
  pub Returns-then :
      (r : Run A)
      → Returns P r
      → ((a : A) (t : Store) → P a t → Returns Q (k a t))
      → Returns Q (and_then r k)
  Returns-then (ok a t) p rest = rest a t p
  Returns-then (sleeps _) p rest = elim p [ ]
  Returns-then exits p rest = elim p [ ]
  Returns-then fault p rest = elim p [ ]
