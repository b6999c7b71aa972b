-- ===== src/Checks/ServerRun.antt =====
-- The theorems on Final/proxy_server/main.c at concrete inputs.
use sp327_alonso_a.Common.{
  arith, ℕ, ◌+◌, ◌≡◌, refl, Bool, true, false, none, some, List, if◌then◌else◌, [], ◌∷◌, replicate,
}
use sp327_alonso_a.Common.Int.{ℤ, pos}
use sp327_alonso_a.Threads.{
  ok, fault, ◌>>=◌, Created, ThreadPool, thread_pool_init, thread_pool_destroy,
}
use sp327_alonso_a.Proxy.Server.{Listening, Librequest, run_server}
use sp327_alonso_a.Proxy.Librequest.{LibrequestLaws}
use sp327_alonso_a.Proxy.Interrupt.{Round, interrupted, run_server-sigint}
use sp327_alonso_a.Proxy.Shutdown.{pool_init, pool_destroy}

abbrev created : ℕ → Created
created i = record { params = 10 + i; worker = 40 + i; code = 0; thread = 70 + i }

abbrev two_threads : ThreadPool
two_threads = record {
  next_thread_id = 3;
  num_threads = pos 2;
  threads =
      some (record { thread_id = 1; thread = 70 })
      ∷ some (record { thread_id = 2; thread = 71 })
      ∷ replicate 18 none;
}

two_threads_made : pool_init 5 1 created (pos 2) ≡ ok two_threads
unfolding thread_pool_init
two_threads_made = refl

two_threads_joined : pool_destroy two_threads ≡ ok (70 ∷ 71 ∷ [])
unfolding thread_pool_destroy
two_threads_joined = refl

abbrev port_8080 : Listening
port_8080 = record { socket = pos 3; setsockopt = pos 0; bind = pos 0; sigaction = pos 0 }

-- A queue with its requests, and whether it is closed. On an open one `thread_pool_destroy` waits for
-- ever, which is a fault here.
abbrev library : Librequest (List ℤ × Bool) ThreadPool
library = record {
  queue_init = ok ([], false);
  queue_enqueue = λ (clients, closed) client. ok (client ∷ clients, closed);
  queue_close = λ (clients, closed). ok (clients, true);
  queue_destroy = λ que. ok 5;
  thread_pool_init = λ que number. pool_init 5 1 created number >>= λ pool. ok (pool, que);
  thread_pool_destroy = λ pool (clients, closed).
      if closed then (pool_destroy pool >>= λ ids. ok (ids, ([], true))) else fault;
}

library-LibrequestLaws : LibrequestLaws library (pos 2)
library-LibrequestLaws = record {
  IsOpen = λ que. Unit {0};
  IsClosed = λ que. que.1 ≡ true;
  pool = two_threads;
  threads = 70 ∷ 71 ∷ [];
  block = 5;
  init = (([], false), refl, tt);
  started = λ que o. (que, rw two_threads_made refl, tt);
  enqueued = λ (clients, closed) client o. ((client ∷ clients, closed), refl, tt);
  close = λ (clients, closed) o. ((clients, true), refl, refl);
  join = λ que c. (([], true), rw (c, two_threads_joined) refl, refl);
  destroy = λ que c. refl;
}

-- the third client comes after SIGINT
abbrev one_client : Round
one_client = record { before = 0; during = 0; newsockfd = pos 4; box = true; request = true }

abbrev after_sigint : Round
after_sigint = record { before = 0; during = 1; newsockfd = pos 5; box = true; request = true }

run_server-sigint_example :
    (run_server library 2
        (pos 2)
        port_8080
        (interrupted 0 (one_client ∷ after_sigint ∷ one_client ∷ []) 0)
      ≡ ok (record {
        enqueued = pos 4 ∷ pos 5 ∷ [];
        ended = true;
        closed = pos 3 ∷ [];
        joined = library-LibrequestLaws.threads;
        freed = library-LibrequestLaws.block ∷ [];
      }))
    × (run_server library 2
          (pos 2)
          port_8080
          (interrupted 0 (one_client ∷ record after_sigint { before = 1 } ∷ one_client ∷ []) 0)
        ≡ ok (record {
          enqueued = pos 4 ∷ [];
          ended = true;
          closed = pos 3 ∷ [];
          joined = library-LibrequestLaws.threads;
          freed = library-LibrequestLaws.block ∷ [];
        }))
    × (run_server library 2 (pos 2) port_8080 (interrupted 0 (one_client ∷ []) 0)
        ≡ ok
            (record { enqueued = pos 4 ∷ []; ended = false; closed = []; joined = []; freed = [] }))
run_server-sigint_example =
    run_server-sigint library (pos 2) library-LibrequestLaws port_8080 (one_client ∷ [])
      after_sigint (one_client ∷ []) 0 refl refl refl (omega arith) refl
