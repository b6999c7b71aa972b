-- ===== src/Threads.antt =====
-- M9Lab/M9/thread_pool.c: the array of worker threads, its set-up and its tear-down.
pub mod Laws
use sp327_alonso_a.Common.{
  ℕ, zero, suc, ◌+◌, ◌-◌, Bool, true, false, Option, none, some, List, [], ◌∷◌, ◌++◌, ltb, ◌==◌,
  if◌then◌else◌, length, get_elem?, set, replicate,
}
pub use sp327_alonso_a.Common.Run.{Run, ok, fault, exits, ◌>>=◌}
use sp327_alonso_a.Common.Int.{ℤ, pos, pos_part}
use sp327_alonso_a.Queue.Memory.{Ptr, null}

abbrev pub max_worker_threads : ℕ
max_worker_threads = 20

-- `struct worker_thread`; `thread` is the identifier that `pthread_create` gave
pub record WorkerThread : Type 0 where
  pub thread_id : ℕ
  pub thread : ℕ

-- `struct worker_thread_params`
pub record Params : Type 0 where
  pub thread_id : ℕ
  pub que : Ptr

-- `struct thread_pool`. `threads` has an entry for each slot of the array, `none` where it has not
-- been written. `que` is never written by the code, and has no field here.
pub record ThreadPool : Type 0 where
  pub next_thread_id : ℕ
  pub num_threads : ℤ
  pub threads : List (Option WorkerThread)

-- What the environment gives one round of `thread_pool_init`: the two `malloc` results, and the
-- return code and the identifier of `pthread_create`.
pub record Created : Type 0 where
  pub params : Ptr
  pub worker : Ptr
  pub code : ℕ
  pub thread : ℕ

unfoldable pub create_worker_thread : Created → Run ℕ
create_worker_thread e = if e.code == 0 then ok e.thread else exits

-- One round of the loop, for slot `i`: a `NULL` of `malloc` is written through, and a slot past the
-- array is out of bounds. The result has the parameters that the new thread is given.
unfoldable pub init_slot : (que : Ptr) → Created → (i : ℕ) → ThreadPool → Run (ThreadPool × Params)
unfolding create_worker_thread
init_slot que e i pool =
    if e.params == null
    then fault
    else if ltb i max_worker_threads
    then (if e.worker == null
        then fault
        else create_worker_thread e >>= (λ thread. ok (
          record pool {
            threads =
                set pool.threads i
                  (some (record { thread_id = pool.next_thread_id; thread = thread }));
            next_thread_id = pool.next_thread_id + 1;
          },
          record { thread_id = pool.next_thread_id; que = que },
        )))
    else fault

-- `k` rounds of the loop, from slot `i`
unfoldable pub init_loop :
    (k : ℕ) → (que : Ptr) → (ℕ → Created) → (i : ℕ) → ThreadPool → Run (ThreadPool × List Params)
unfolding init_slot
init_loop zero que env i pool = ok (pool, [])
init_loop (suc k) que env i pool =
    init_slot que (env i) i pool
    >>= (λ (p, given). init_loop k que env (i + 1) p >>= (λ (p', more). ok (p', given ∷ more)))

-- `thread_pool_init`, where `malloc` returns `fresh` for the pool.
unfoldable pub thread_pool_init :
    (fresh que : Ptr) → (ℕ → Created) → ℤ → Run (ThreadPool × List Params)
unfolding init_loop
thread_pool_init fresh que env num_threads =
    if fresh == null
    then exits
    else init_loop (pos_part num_threads) que env 0 (record {
      next_thread_id = 1;
      num_threads = num_threads;
      threads = replicate max_worker_threads none;
    })

-- The loop of `thread_pool_destroy`: the threads that are joined, in order, and then freed. A slot
-- that was never written is read as a pointer: a fault.
unfoldable pub join_loop : (k i : ℕ) → ThreadPool → Run (List ℕ)
join_loop zero i pool = ok []
join_loop (suc k) i pool = elim (get_elem? pool.threads i) [
  | none ↦ fault
  | some none ↦ fault
  | some (some w) ↦ join_loop k (i + 1) pool >>= (λ rest. ok (w.thread ∷ rest))
]

-- `thread_pool_destroy`; a `NULL` pool is reported and nothing is done.
unfoldable pub thread_pool_destroy : Option ThreadPool → Run (List ℕ)
unfolding join_loop
thread_pool_destroy none = ok []
thread_pool_destroy (some pool) = join_loop (pos_part pool.num_threads) 0 pool
