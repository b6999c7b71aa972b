-- ===== src/Pool.antt =====
-- M9Lab/M9/worker_thread.c, thread_pool.c and main.c: one producer and `n` workers over a shared
-- queue, as interleavings of their locked sections. `Family` holds per-thread state.
pub mod Family
pub mod HeapQueue
pub mod Interface
pub mod Invariant
pub mod ListQueue
pub mod NullRequest
pub mod Progress
use sp327_alonso_a.Common.{ℕ, suc, ◌+◌, ◌<◌, ◌≡◌, ◌≢◌, List, [], ◌∷◌, ◌++◌}
use sp327_alonso_a.Queue.Memory.{Ptr, null}
use Family.{update}
use Interface.{Outcome, returned, waits, QueueImpl}

-- Where a worker stands in `do_work`.
pub data Pc : Type 0 where
  ready : Pc  -- about to run the locked section of `queue_dequeue`, or woken inside it
  asleep : Pc  -- in `pthread_cond_wait`
  working : Ptr → Pc  -- in `req->work_fn`
  exited : Pc

-- Where `main` stands, with the requests that it has still to enqueue.
pub data MainPc : Type 0 where
  producing : List Ptr → MainPc  -- head of the request loop
  notifying : List Ptr → MainPc  -- in `queue_enqueue`, before its broadcast
  closing : MainPc  -- in `queue_close`, before its broadcast
  joining : ℕ → MainPc  -- in `thread_pool_destroy`, at `pthread_join` of this worker
  finished : MainPc

-- `taken` and `served` record what the workers have dequeued and completed, in order.
pub record System (S : Type 0) : Type 0 where
  pub shared : S
  pub main : MainPc
  pub pc : ℕ → Pc
  pub taken : List Ptr
  pub served : List Ptr

-- A broadcast: every sleeper has to take the mutex again and repeat its test.
abbrev pub wake : Pc → Pc
wake asleep = ready
wake p = p

module _ {S : Type 0} (Q : QueueImpl S) (n : ℕ) where
  open Q use {Enqueue, Dequeue, Close}

  pub data Step (s : System S) : System S → Type 0 where
    -- main: `queue_enqueue`, up to its unlock
    enqueue :
        {r : Ptr} {rest : List Ptr} {t : S}
        → s.main ≡ producing (r ∷ rest)
        → Enqueue r s.shared t
        → Step s (record s { shared = t; main = notifying rest })
    -- main: the broadcast of `queue_enqueue`
    notify :
        {rest : List Ptr}
        → s.main ≡ notifying rest
        → Step s (record s { main = producing rest; pc = λ j. wake (s.pc j) })
    -- main: `queue_close`, up to its unlock
    close :
        {t : S}
        → s.main ≡ producing []
        → Close s.shared t
        → Step s (record s { shared = t; main = closing })
    -- main: the broadcast of `queue_close`
    close_notify :
        s.main ≡ closing → Step s (record s { main = joining 0; pc = λ j. wake (s.pc j) })
    -- main: `pthread_join` returns once the thread has exited
    join :
        {i : ℕ}
        → s.main ≡ joining i
        → i < n
        → s.pc i ≡ exited
        → Step s (record s { main = joining (i + 1) })
    finish : s.main ≡ joining n → Step s (record s { main = finished })
    -- worker: `queue_dequeue` returns a request
    take :
        (i : ℕ) {r : Ptr} {t : S}
        → i < n
        → s.pc i ≡ ready
        → r ≢ null
        → Dequeue s.shared (returned r) t
        → Step s
            (record s { shared = t; pc = update s.pc i (working r); taken = s.taken ++ r ∷ [] })
    -- worker: `queue_dequeue` returns `NULL`, after a broadcast, and the loop ends
    end :
        (i : ℕ) {r : Ptr} {t : S}
        → i < n
        → s.pc i ≡ ready
        → r ≡ null
        → Dequeue s.shared (returned r) t
        → Step s (record s { shared = t; pc = update (λ j. wake (s.pc j)) i exited })
    -- worker: nothing to do, `pthread_cond_wait`
    sleep :
        (i : ℕ) {t : S}
        → i < n
        → s.pc i ≡ ready
        → Dequeue s.shared waits t
        → Step s (record s { shared = t; pc = update s.pc i asleep })
    -- worker: `work_fn` returns
    serve :
        (i : ℕ) {r : Ptr}
        → i < n
        → s.pc i ≡ working r
        → Step s (record s { pc = update s.pc i ready; served = s.served ++ r ∷ [] })
    -- worker: a wakeup without a broadcast, which POSIX allows
    spurious : (i : ℕ) → i < n → s.pc i ≡ asleep → Step s (record s { pc = update s.pc i ready })

  -- `main` after `thread_pool_init`, with `n` workers and the requests `plan`.
  abbrev pub start : S → List Ptr → System S
  start q plan = record {
    shared = q;
    main = producing plan;
    pc = λ _. ready;
    taken = [];
    served = [];
  }

  pub data Reach (q : S) (plan : List Ptr) : System S → Type 0 where
    here : Reach q plan (start q plan)
    later : {s t : System S} → Reach q plan s → Step s t → Reach q plan t
