-- ===== src/Threads/Laws.antt =====
-- `thread_pool_init` fills the slots in order; `thread_pool_destroy` joins what was started.
use sp327_alonso_a.Common.{
  ℕ, zero, suc, ◌+◌, ◌≤◌, ◌<◌, ◌≡◌, refl, ◌∙◌, ap, ◌≢◌, Option, none, some, List, [], ◌∷◌, arith,
  length, get_elem?, set, replicate, length-set, get_elem?-set_self, get_elem?-set_ne,
}
use mathlib.Core.Path.{subst}
use native.Mathlib.Decide.{dec_lt, ℕ_discrete}
use sp327_alonso_a.Common.Int.{pos}
use sp327_alonso_a.Queue.Memory.{Ptr, null}
use sp327_alonso_a.Threads.{
  max_worker_threads, WorkerThread, Params, ThreadPool, ok, fault, Created, init_slot, init_loop,
  thread_pool_init, join_loop, thread_pool_destroy,
}

-- Memory is enough, and `pthread_create` succeeds.
pub record IsGood (e : Created) : Type 0 where
  pub params : e.params ≢ null
  pub worker : e.worker ≢ null
  pub code : e.code ≡ 0

-- the slot of thread `j`
abbrev pub slot : (ℕ → Created) → ℕ → Option (Option WorkerThread)
slot env j = some (some (record { thread_id = j + 1; thread = (env j).thread }))

-- the identifiers of the threads `i`, `i + 1`, ..., `k` of them
abbrev pub started : (ℕ → Created) → (k i : ℕ) → List ℕ
started env zero i = []
started env (suc k) i = (env i).thread ∷ started env k (i + 1)

module _ (que : Ptr) (env : ℕ → Created) (good : (i : ℕ) → IsGood (env i)) where
  abbrev after_slot : ℕ → ThreadPool → ThreadPool
  after_slot i pool = record pool {
    threads =
        set pool.threads i
          (some (record { thread_id = pool.next_thread_id; thread = (env i).thread }));
    next_thread_id = pool.next_thread_id + 1;
  }

  init_slot-good :
      (i : ℕ) (pool : ThreadPool)
      → i < max_worker_threads
      → init_slot que (env i) i pool
        ≡ ok (after_slot i pool, record { thread_id = pool.next_thread_id; que = que })
  unfolding init_slot
  init_slot-good i pool lt = ground (arith, good i)

  init_slot-overrun :
      (i : ℕ) (pool : ThreadPool) → max_worker_threads ≤ i → init_slot que (env i) i pool ≡ fault
  unfolding init_slot
  init_slot-overrun i pool ge = ground (arith, good i)

  init_loop-overrun :
      (k i : ℕ) (pool : ThreadPool)
      → i ≤ max_worker_threads
      → max_worker_threads < i + k
      → init_loop k que env i pool ≡ fault
  unfolding init_loop
  init_loop-overrun zero i pool le lt = absurd (omega arith)
  init_loop-overrun (suc k) i pool le lt = elim (dec_lt i max_worker_threads) [
    | yes below ↦ rw (
      init_slot-good i pool below,
      init_loop-overrun k (i + 1) (after_slot i pool) (omega arith) (omega arith),
    )
    | no past ↦ rw (init_slot-overrun i pool (omega arith))
  ]

  -- After `k` rounds from slot `i`: the slots from `i` on are filled, those before are as they were.
  record Filled (k i : ℕ) (pool p : ThreadPool) (given : List Params) : Type 0 where
    next : p.next_thread_id ≡ i + k + 1
    count : p.num_threads ≡ pool.num_threads
    size : length p.threads ≡ max_worker_threads
    params : length given ≡ k
    filled : (j : ℕ) → i ≤ j → j < i + k → get_elem? p.threads j ≡ slot env j
    before : (j : ℕ) → j < i → get_elem? p.threads j ≡ get_elem? pool.threads j

  init_loop-Filled :
      (k i : ℕ) (pool : ThreadPool)
      → i + k ≤ max_worker_threads
      → pool.next_thread_id ≡ i + 1
      → length pool.threads ≡ max_worker_threads
      → (p : ThreadPool) × (given : List Params) × (init_loop k que env i pool ≡ ok (p, given))
        × Filled k i pool p given
  unfolding init_loop
  init_loop-Filled zero i pool room next size = (
    pool,
    [],
    refl,
    record {
      next = omega arith;
      count = refl;
      size = size;
      params = refl;
      filled = λ j le lt. absurd (omega arith);
      before = λ j lt. refl;
    },
  )
  init_loop-Filled (suc k) i pool room next size =
      let lt : i < max_worker_threads = omega arith in
      let pool' = after_slot i pool in
      let (p, given, run, f) =
        init_loop-Filled k (i + 1) pool' (omega arith) (omega arith)
          (length-set pool.threads i _ ∙ size) in
      (
        p,
        record { thread_id = pool.next_thread_id; que = que } ∷ given,
        rw (init_slot-good i pool lt, run),
        record {
          next = omega (arith, f.next);
          count = f.count;
          size = f.size;
          params = omega (arith, f.params);
          filled = λ j le lt'. elim (ℕ_discrete i j) [
            | yes here ↦
                subst (λ u. get_elem? p.threads u ≡ slot env u) here
                  (f.before i (omega arith)
                    ∙ get_elem?-set_self pool.threads i _ (omega arith)
                    ∙ ap (λ u. some (some (record { thread_id = u; thread = (env i).thread })))
                        next)
            | no later ↦ f.filled j (omega arith) (omega arith)
          ];
          before =
              λ j lt'. f.before j (omega arith) ∙ get_elem?-set_ne pool.threads _ (omega arith);
        },
      )

  join_loop-started :
      (k i : ℕ) (pool : ThreadPool)
      → ((j : ℕ) → i ≤ j → j < i + k → get_elem? pool.threads j ≡ slot env j)
      → join_loop k i pool ≡ ok (started env k i)
  unfolding join_loop
  join_loop-started zero i pool filled = refl
  join_loop-started (suc k) i pool filled = ground (
    arith,
    filled i (omega arith) (omega arith),
    join_loop-started k (i + 1) pool (λ j le lt. filled j (omega arith) (omega arith)),
  )

  -- For 0 <= n <= 20 threads, with memory enough and `pthread_create` succeeding, the pool has the
  -- threads 1 to n in its first n slots, n parameter blocks have been handed out, the next id is
  -- n + 1, and `thread_pool_destroy` joins each of the n threads once, in the order of creation.
  pub pool_round_trip :
      (fresh n : ℕ)
      → fresh ≢ null
      → n ≤ max_worker_threads
      → (p : ThreadPool) × (given : List Params) × (thread_pool_init fresh que env (pos n)
          ≡ ok (p, given))
        × (p.next_thread_id ≡ n + 1)
        × (length given ≡ n)
        × ((j : ℕ) → j < n → get_elem? p.threads j ≡ slot env j)
        × (thread_pool_destroy (some p) ≡ ok (started env n 0))
  unfolding thread_pool_init thread_pool_destroy
  pool_round_trip fresh n nf room =
      let pool : ThreadPool = record {
        next_thread_id = 1;
        num_threads = pos n;
        threads = replicate max_worker_threads none;
      } in
      let (p, given, run, f) = init_loop-Filled n 0 pool (omega arith) refl refl in
      (
        p,
        given,
        ground (arith, run),
        omega (arith, f.next),
        f.params,
        λ j lt. f.filled j (omega arith) (omega arith),
        rw f.count (join_loop-started n 0 p (λ j le lt. f.filled j le lt)),
      )

  -- More than 20 threads overrun the array `threads`, whatever the pool is for.
  pub pool_overrun :
      (fresh n : ℕ)
      → fresh ≢ null
      → max_worker_threads < n
      → thread_pool_init fresh que env (pos n) ≡ fault
  unfolding thread_pool_init
  pool_overrun fresh n nf many = ground (
    arith,
    init_loop-overrun n 0 (record {
      next_thread_id = 1;
      num_threads = pos n;
      threads = replicate max_worker_threads none;
    }),
  )
