-- ===== src/Queue/Memory.antt =====
-- The memory of the queue (the types of M9Lab/M9/queue_internal.h), and commands over it.
use sp327_alonso_a.Common.{ℕ, ◌+◌, Bool, true, false, Option, none, some, ◌==◌, if◌then◌else◌}

abbrev pub Ptr : Type 0
Ptr = ℕ

abbrev pub null : Ptr
null = 0

-- `queue_node_t`; `value` is its `data`
pub record Node : Type 0 where
  pub value : Ptr
  pub next : Ptr

abbrev pub node : Ptr → Ptr → Node
node v q = record { value = v; next = q }

-- `struct queue`
pub record QueueData : Type 0 where
  pub header : Ptr
  pub tail : Ptr
  pub size : ℕ
  pub isclosed : Bool
  pub mutex : Ptr
  pub cond_var : Ptr

-- Memory, and what the calls into pthread have done: whether the caller holds the mutex, and how
-- often it has called `pthread_cond_broadcast`.
pub record Store : Type 0 where
  pub nodes : Ptr → Option Node
  pub queues : Ptr → Option QueueData
  pub held : Bool
  pub broadcasts : ℕ

-- `fault` is undefined behaviour, `exits` a call of `exit(EXIT_FAILURE)`, and `sleeps` a thread
-- that is inside `pthread_cond_wait`.
pub data Run (A : Type 0) : Type 0 where
  ok : A → Store → Run A
  sleeps : Store → Run A
  exits : Run A
  fault : Run A

abbrev pub Cmd : Type 0 → Type 0
Cmd A = Store → Run A

abbrev pub pure : {A : Type 0} → A → Cmd A
pure = ok

module _ {A B : Type 0} where
  abbrev pub and_then : Run A → (A → Cmd B) → Run B
  and_then (ok a s) k = k a s
  and_then (sleeps s) k = sleeps s
  and_then exits k = exits
  and_then fault k = fault

  infixl 5 ◌>>=◌ ◌>>◌
  abbrev pub ◌>>=◌ : Cmd A → (A → Cmd B) → Cmd B
  m >>= k = λ s. and_then (m s) k

  abbrev pub ◌>>◌ : Cmd A → Cmd B → Cmd B
  m >> n = m >>= λ _. n

abbrev pub exit_failure : {A : Type 0} → Cmd A
exit_failure _ = exits

abbrev pub write : {A : Type 0} → (Ptr → Option A) → Ptr → Option A → Ptr → Option A
write h p c a = if a == p then c else h a

-- Reads through `NULL` or through an address that holds no object are faults.
unfoldable pub load_node : Ptr → Cmd Node
load_node p s = if p == null then fault else elim (s.nodes p) [ none ↦ fault | some n ↦ ok n s ]

unfoldable pub load_queue : Ptr → Cmd QueueData
load_queue q s = if q == null then fault else elim (s.queues q) [ none ↦ fault | some d ↦ ok d s ]

-- A write through a pointer that `malloc` has just returned. A `NULL` faults.
unfoldable pub store_node : Ptr → Node → Cmd (Unit {0})
store_node p n s =
    if p == null then fault else ok tt (record s { nodes = write s.nodes p (some n) })

unfoldable pub store_queue : Ptr → QueueData → Cmd (Unit {0})
store_queue q d s =
    if q == null then fault else ok tt (record s { queues = write s.queues q (some d) })

-- `p->next = r`
unfoldable pub set_next : Ptr → Ptr → Cmd (Unit {0})
unfolding load_node store_node
set_next p r = do n ← load_node p; store_node p (record n { next = r })

unfoldable pub free_node : Ptr → Cmd (Unit {0})
unfolding load_node
free_node p = do _ ← load_node p; λ s. ok tt (record s { nodes = write s.nodes p none })

unfoldable pub free_queue : Ptr → Cmd (Unit {0})
unfolding load_queue
free_queue q = do _ ← load_queue q; λ s. ok tt (record s { queues = write s.queues q none })

-- `LOCK_MTX` of common.h: a failing call ends the process. Locking twice is a deadlock.
unfoldable pub lock_mtx : ℕ → Cmd (Unit {0})
lock_mtx code s =
    if s.held then fault else if code == 0 then ok tt (record s { held = true }) else exits

-- `UNLOCK_MTX`. Unlocking a mutex that is not held is undefined.
unfoldable pub unlock_mtx : ℕ → Cmd (Unit {0})
unlock_mtx code s =
    if s.held then (if code == 0 then ok tt (record s { held = false }) else exits) else fault

unfoldable pub cond_broadcast : Cmd (Unit {0})
cond_broadcast s = ok tt (record s { broadcasts = s.broadcasts + 1 })

-- `pthread_cond_wait` gives the mutex back while the thread sleeps.
unfoldable pub cond_wait : {A : Type 0} → Cmd A
cond_wait s = if s.held then sleeps (record s { held = false }) else fault

abbrev pub int_max : ℕ
int_max = 2147483647

-- `n += 1` on an `int` that is not negative: past INT_MAX the addition is undefined.
unfoldable pub incr_int : ℕ → Cmd ℕ
incr_int n s = if n == int_max then fault else ok (n + 1) s
