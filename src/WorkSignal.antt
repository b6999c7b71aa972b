-- ===== src/WorkSignal.antt =====
-- booksrc/ch15/cv_simple.c: thread B does a piece of work and signals a condition variable, on
-- which thread A waits. The mutex and the condition variable follow POSIX: a signal wakes a thread
-- that waits already and is lost otherwise, a thread that is woken takes the mutex again before
-- `pthread_cond_wait` returns, and it may be woken spuriously. `pthread_join` does not fail, since
-- both threads are joinable and are joined once.
pub mod Waiting
pub mod Lost
pub mod Order
use sp327_alonso_a.Common.{ℕ, ◌≡◌, Bool, true, false}

-- Where `workerA` stands: at `LOCK_MTX`, at the call of `pthread_cond_wait`, inside of it, woken
-- and without the mutex, at the test of `gWorkDone`, at `UNLOCK_MTX`, or at its end.
pub data ThreadA : Type 0 where
  unborn : ThreadA
  at_lock : ThreadA
  at_wait : ThreadA
  asleep : ThreadA
  woken : ThreadA
  at_recheck : ThreadA
  at_unlock : ThreadA
  ended : ThreadA

-- Where `workerB` stands: at its work up to `LOCK_MTX`, at the store to `gWorkDone`, at
-- `pthread_cond_signal`, at `UNLOCK_MTX`, or at its end.
pub data ThreadB : Type 0 where
  unborn_b : ThreadB
  at_work : ThreadB
  at_store : ThreadB
  at_signal : ThreadB
  at_release : ThreadB
  ended_b : ThreadB

-- who holds `mycv_mutex`
pub data Owner : Type 0 where
  nobody : Owner
  thread_a : Owner
  thread_b : Owner

-- The process with its two threads, its mutex and `gWorkDone`; or after `exit` of `main`; or after
-- `FATAL`.
pub data Process : Type 0 where
  running : ThreadA → ThreadB → Owner → Bool → Process
  exited : Process
  died : Process

-- What `pthread_cond_signal` does to thread A.
unfoldable pub signalled : ThreadA → ThreadA
signalled asleep = woken
signalled a = a

-- A step goes on with the code, is a spurious wakeup, or is a call that fails.
pub data Kind : Type 0 where
  ordinary : Kind
  spurious : Kind
  failing : Kind

-- `main` creates thread A first.
abbrev pub is_born : ThreadA → Bool
is_born unborn = false
is_born _ = true

-- A call is ahead whose failure is fatal: not behind both threads, where `main` only warns.
abbrev pub calls_left : ThreadA → ThreadB → Bool
calls_left ended ended_b = false
calls_left _ _ = true

pub data Step : Kind → Process → Process → Type 0 where
  -- `main`: both `pthread_create`s, and the end behind the joins
  creates_a :
      {o : Owner} {w : Bool}
      → Step ordinary (running unborn unborn_b o w) (running at_lock unborn_b o w)
  creates_b :
      {o : Owner} {w : Bool} (a : ThreadA)
      → is_born a ≡ true
      → Step ordinary (running a unborn_b o w) (running a at_work o w)
  leaves : {o : Owner} {w : Bool} → Step ordinary (running ended ended_b o w) exited
  -- `workerA`
  locks_a :
      {b : ThreadB} {w : Bool}
      → Step ordinary (running at_lock b nobody w) (running at_wait b thread_a w)
  waits :
      {b : ThreadB} {o : Owner} {w : Bool}
      → Step ordinary (running at_wait b o w) (running asleep b nobody w)
  wakes :
      {b : ThreadB} {o : Owner} {w : Bool}
      → Step spurious (running asleep b o w) (running woken b o w)
  relocks :
      {b : ThreadB} {w : Bool}
      → Step ordinary (running woken b nobody w) (running at_recheck b thread_a w)
  finds_done :
      {b : ThreadB} {o : Owner}
      → Step ordinary (running at_recheck b o true) (running at_unlock b o true)
  goes_back :
      {b : ThreadB} {o : Owner}
      → Step ordinary (running at_recheck b o false) (running at_wait b o false)
  unlocks_a :
      {b : ThreadB} {o : Owner} {w : Bool}
      → Step ordinary (running at_unlock b o w) (running ended b nobody w)
  -- `workerB`
  locks_b :
      {a : ThreadA} {w : Bool}
      → Step ordinary (running a at_work nobody w) (running a at_store thread_b w)
  stores :
      {a : ThreadA} {o : Owner} {w : Bool}
      → Step ordinary (running a at_store o w) (running a at_signal o true)
  signals :
      {o : Owner} {w : Bool} (a : ThreadA)
      → Step ordinary (running a at_signal o w) (running (signalled a) at_release o w)
  unlocks_b :
      {a : ThreadA} {o : Owner} {w : Bool}
      → Step ordinary (running a at_release o w) (running a ended_b nobody w)
  -- a call fails, and `FATAL` ends the process
  fails :
      {o : Owner} {w : Bool} (a : ThreadA) (b : ThreadB)
      → calls_left a b ≡ true
      → Step failing (running a b o w) died

-- The runs from a process; `allowed` says which kinds of steps they may have.
pub data Reach (allowed : Kind → Bool) (start : Process) : Process → Type 0 where
  here : Reach allowed start start
  next :
      {s t : Process} {k : Kind}
      → Reach allowed start s
      → allowed k ≡ true
      → Step k s t
      → Reach allowed start t

abbrev pub any_kind : Kind → Bool
any_kind _ = true

abbrev pub only_ordinary : Kind → Bool
only_ordinary ordinary = true
only_ordinary _ = false

-- `main` before it creates a thread
abbrev pub launched : Process
launched = running unborn unborn_b nobody false
