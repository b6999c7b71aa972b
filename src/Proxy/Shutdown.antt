-- ===== src/Proxy/Shutdown.antt =====
-- The proxy from its start to SIGINT.
use sp327_alonso_a.Common.{
  refl, ℕ, ◌<◌, ◌≡◌, ◌≢◌, Bool, true, false, ◌&&◌, not, some, List, [], ◌∷◌, ◌++◌, if◌then◌else◌,
  arith,
}
use sp327_alonso_a.Common.Int.{ℤ, pos}
use sp327_alonso_a.Queue.Memory.{Ptr, null}
use sp327_alonso_a.Threads.{
  Run, fault, ok, ◌>>=◌, Created, ThreadPool, thread_pool_init, thread_pool_destroy,
  max_worker_threads,
}
use sp327_alonso_a.Threads.Laws.{IsGood, pool_overrun}
use sp327_alonso_a.Proxy.Connect.{is_negative}
use sp327_alonso_a.Proxy.Server.{
  Incoming, stopped, accept_loop, Listening, listen_fails, Librequest, run_server,
}
use sp327_alonso_a.Proxy.Librequest.{LibrequestLaws, server_stopped}

-- a round that does not end the loop
abbrev pub accepted : Incoming → Bool
accepted c = not c.stop && not (is_negative c.newsockfd)

abbrev pub all_accepted : List Incoming → Bool
all_accepted [] = true
all_accepted (c ∷ rest) = accepted c && all_accepted rest

-- the connections that both calls of `malloc` have room for
abbrev pub with_memory : List Incoming → List ℤ
with_memory [] = []
with_memory (c ∷ rest) =
    if c.box && c.request then (c.newsockfd ∷ with_memory rest) else with_memory rest

accept_loop-stopped :
    (cs : List Incoming) (last : Incoming) (rest : List Incoming)
    → all_accepted cs ≡ true
    → last.stop ≡ true
    → accept_loop (cs ++ (last ∷ rest)) ≡ (with_memory cs, stopped)
unfolding accept_loop
accept_loop-stopped [] last rest fine stop = rw stop
accept_loop-stopped (c ∷ cs) last rest fine stop =
    let later = accept_loop-stopped cs last rest in ground (arith, later, stop)

-- The proxy is started with a number of threads for which `librequest` does what its headers say,
-- and with a socket that listens. It accepts the connections `cs`, and then `stop` is set at the head
-- of the loop. Then exactly the connections that `malloc` had room for have been enqueued, in the
-- order of their arrival, the socket is closed, the pool has been joined, and the queue is freed.
pub run_server-stopped :
    {Que Pool : Type 0} (library : Librequest Que Pool) (number : ℤ)
    (laws : LibrequestLaws library number) (l : Listening) (cs : List Incoming) (last : Incoming)
    (rest : List Incoming)
    → listen_fails l ≡ false
    → all_accepted cs ≡ true
    → last.stop ≡ true
    → run_server library 2 number l (cs ++ (last ∷ rest))
      ≡ ok (record {
        enqueued = with_memory cs;
        ended = true;
        closed = l.socket ∷ [];
        joined = laws.threads;
        freed = laws.block ∷ [];
      })
run_server-stopped library number laws l cs last rest listens fine stop =
    server_stopped library number laws l (cs ++ (last ∷ rest)) (with_memory cs) listens
      (accept_loop-stopped cs last rest fine stop)

-- the functions of M9Lab/M9/thread_pool.c, as far as the proxy sees them
abbrev pub pool_init : (fresh que : Ptr) → (ℕ → Created) → ℤ → Run ThreadPool
pool_init fresh que env number = thread_pool_init fresh que env number >>= λ made. ok made.0

abbrev pub pool_destroy : ThreadPool → Run (List ℕ)
pool_destroy pool = thread_pool_destroy (some pool)

-- When `thread_pool_init` is that of M9Lab/M9, with memory enough and `pthread_create` succeeding:
-- any number of threads above 20 on the command line, which the proxy does not check, overruns the
-- array of the pool before the proxy listens.
pub run_server-overrun :
    {Que : Type 0} (library : Librequest Que ThreadPool) (made : Que) (que : Ptr)
    (env : ℕ → Created)
    → ((i : ℕ) → IsGood (env i))
    → (fresh n : ℕ) (l : Listening) (cs : List Incoming) → fresh ≢ null
    → max_worker_threads < n
    → library.queue_init ≡ ok made
    → library.thread_pool_init made (pos n)
      ≡ (pool_init fresh que env (pos n) >>= λ pool. ok (pool, made))
    → run_server library 2 (pos n) l cs ≡ fault
unfolding run_server
run_server-overrun library made que env good fresh n l cs nf many init pool =
    rw (init, pool, pool_overrun que env good fresh n nf many) refl
