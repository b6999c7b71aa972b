-- ===== src/Factorial/Threads.antt =====
-- facto.c with its two threads step by step, with locking or without. A read and a write of the
-- global `gFactorial` are steps of their own.
use sp327_alonso_a.Common.{ℕ, zero, suc, ◌+◌, ◌*◌, ◌%◌, ◌^◌, ◌≡◌, Bool, false, ◌&&◌}

-- Where a thread stands: before its mutex, at the store of 1, in the loop with rounds left and the
-- number `i`, with a product to store, behind `printf` with what it has printed, or at its end.
pub data Phase : Type 0 where
  waiting : Phase
  resetting : Phase
  looping : (left i : ℕ) → Phase
  multiplied : (left i product : ℕ) → Phase
  printed : ℕ → Phase
  finished : ℕ → Phase

-- `gFactorial`, and whether the mutex is held
pub record Shared : Type 0 where
  pub factorial : ℕ
  pub locked : Bool

-- One step of `worker` with `N`; `locking` is `gLocking`.
pub data Local (locking : Bool) (n : ℕ) : Phase → Shared → Phase → Shared → Type 0 where
  lock :
      {s : Shared}
      → (locking && s.locked) ≡ false
      → Local locking n waiting s resetting (record s { locked = locking })
  reset : {s : Shared} → Local locking n resetting s (looping n 1) (record s { factorial = 1 })
  multiply :
      {s : Shared} {left i : ℕ}
      → Local locking n (looping (suc left) i) s (multiplied left i (s.factorial * i % 2 ^ 64)) s
  store :
      {s : Shared} {left i v : ℕ}
      → Local locking n (multiplied left i v) s (looping left (i + 1)) (record s { factorial = v })
  print : {s : Shared} {i : ℕ} → Local locking n (looping zero i) s (printed s.factorial) s
  unlock :
      {s : Shared} {v : ℕ}
      → Local locking n (printed v) s (finished v) (record s { locked = false })

pub record System : Type 0 where
  pub shared : Shared
  pub one : Phase
  pub two : Phase

-- A step of one of the threads, whose numbers are `m` and `n`.
pub data Step (locking : Bool) (m n : ℕ) : System → System → Type 0 where
  by_one :
      {s t : Shared} {p p' q : Phase}
      → Local locking m p s p' t
      → Step locking m n
          (record { shared = s; one = p; two = q })
          (record { shared = t; one = p'; two = q })
  by_two :
      {s t : Shared} {p q q' : Phase}
      → Local locking n q s q' t
      → Step locking m n
          (record { shared = s; one = p; two = q })
          (record { shared = t; one = p; two = q' })

abbrev pub launched : System
launched = record {
  shared = record { factorial = 1; locked = false };
  one = waiting;
  two = waiting;
}

pub data Reach (locking : Bool) (m n : ℕ) (start : System) : System → Type 0 where
  here : Reach locking m n start start
  next :
      {b c : System} → Reach locking m n start b → Step locking m n b c → Reach locking m n start c
