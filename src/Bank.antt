-- ===== src/Bank.antt =====
-- booksrc/solutions_to_assgn/ch15/bankacc.c: two threads deposit and withdraw, with a mutex or
-- without. A read and a write of the global `gBalance` are steps of their own, so that the threads
-- interleave between them. Amounts are far below the range of a `long`.
pub mod Serial
pub mod Race
use sp327_alonso_a.Common.{
  ℕ, suc, ◌≡◌, Bool, true, false, ◌&&◌, not, Option, none, some, List, [], ◌∷◌, ltb, ◌==◌,
  if◌then◌else◌,
}
use sp327_alonso_a.Common.Int.{ℤ, pos, negsuc, ◌+ℤ◌, ◌-ℤ◌, ltb_ℤ}
use sp327_alonso_a.Common.Run.{Run, ok, exits}

-- A call in a thread's body.
pub data Op : Type 0 where
  deposit : ℤ → Op
  withdraw : ℤ → Op

abbrev pub min_credit : ℤ
min_credit = pos 500

-- What a thread has still to do: nothing yet, the rest of its body, the rest behind the test of
-- `withdraw` for an amount, or the rest behind a write of the value that it has computed.
pub data Phase : Type 0 where
  waiting : Phase
  inside : List Op → Phase
  checked : ℤ → List Op → Phase
  computed : ℤ → List Op → Phase
  finished : Phase

-- `deposit` and `withdraw` up to the next access of `gBalance`, which is `balance` now
unfoldable pub next_op : Op → List Op → ℤ → Phase
next_op (deposit amt) rest balance =
    if ltb_ℤ (pos 0) amt then computed (balance +ℤ amt) rest else inside rest
next_op (withdraw amt) rest balance =
    if ltb_ℤ (balance -ℤ amt) min_credit then inside rest else checked amt rest

-- `gBalance`, and whether the mutex is held
pub record Shared : Type 0 where
  pub balance : ℤ
  pub locked : Bool

-- One step of a thread with this body; `locking` is `gLocking`.
pub data Local (locking : Bool) (body : List Op) : Phase → Shared → Phase → Shared → Type 0 where
  lock :
      {s : Shared}
      → (locking && s.locked) ≡ false
      → Local locking body waiting s (inside body) (record s { locked = locking })
  begin :
      {s : Shared} (op : Op) (rest : List Op)
      → Local locking body (inside (op ∷ rest)) s (next_op op rest s.balance) s
  compute :
      {s : Shared} (amt : ℤ) (rest : List Op)
      → Local locking body (checked amt rest) s (computed (s.balance -ℤ amt) rest) s
  store :
      {s : Shared} (v : ℤ) (rest : List Op)
      → Local locking body (computed v rest) s (inside rest) (record s { balance = v })
  unlock : {s : Shared} → Local locking body (inside []) s finished (record s { locked = false })

-- `worker`: the bodies of its two cases, by `threadnum`; other numbers are warned of.
abbrev pub body : ℕ → List Op
body threadnum =
    if threadnum == 1
    then deposit (pos 3000) ∷ withdraw (pos 250) ∷ []
    else if threadnum == 2
    then withdraw (pos 9000) ∷ deposit (pos 1000) ∷ []
    else []

pub record Bank : Type 0 where
  pub shared : Shared
  pub one : Phase
  pub two : Phase

-- A step of one of the two threads, whose bodies are arguments.
pub data Step (locking : Bool) (first second : List Op) : Bank → Bank → Type 0 where
  by_one :
      {s t : Shared} {p p' q : Phase}
      → Local locking first p s p' t
      → Step locking first second
          (record { shared = s; one = p; two = q })
          (record { shared = t; one = p'; two = q })
  by_two :
      {s t : Shared} {p q q' : Phase}
      → Local locking second q s q' t
      → Step locking first second
          (record { shared = s; one = p; two = q })
          (record { shared = t; one = p; two = q' })

abbrev pub opened : ℤ → Bank
opened balance = record {
  shared = record { balance = balance; locked = false };
  one = waiting;
  two = waiting;
}

pub data Reach (locking : Bool) (first second : List Op) (start : Bank) : Bank → Type 0 where
  here : Reach locking first second start start
  next :
      {b c : Bank}
      → Reach locking first second start b
      → Step locking first second b c
      → Reach locking first second start c

-- `main` up to the threads: the number of arguments, `atoi` of the first, and whether
-- `pthread_mutex_init` and `pthread_create` succeed. The result is `gLocking`.
unfoldable pub set_up : (argc : ℕ) (number : ℤ) (mutex_init threads : Bool) → Run Bool
set_up argc (negsuc n) mutex_init threads = exits
set_up argc (pos n) mutex_init threads =
    if not (argc == 2)
    then exits
    else if n == 0
    then (if threads then ok false else exits)
    else if n == 1
    then (if mutex_init && threads then ok true else exits)
    else exits
