-- ===== src/Proxy/Server.antt =====
-- Final/proxy_server/main.c: the start of the proxy, its loop over incoming connections, and its end.
-- The queue and the thread pool come from the library `librequest`, whose headers are in
-- Final/librequest/include: its functions are arguments here.
use sp327_alonso_a.Common.{ℕ, Bool, true, false, ◌&&◌, List, [], ◌∷◌, ◌==◌, if◌then◌else◌}
use sp327_alonso_a.Common.Int.{ℤ, pos}
use sp327_alonso_a.Threads.{Run, exits, ok, ◌>>=◌}
use sp327_alonso_a.Proxy.Connect.{is_negative}

-- One round of the loop: the value of `stop` at its head, what `accept` returns, and whether the
-- two calls of `malloc` succeed.
pub record Incoming : Type 0 where
  pub stop : Bool
  pub newsockfd : ℤ
  pub box : Bool
  pub request : Bool

-- How the loop ends: not yet, by SIGINT, or by `exit(1)`.
pub data End : Type 0 where
  serving : End
  stopped : End
  failed : End

-- The sockets whose requests are enqueued, in order.
unfoldable pub accept_loop : List Incoming → List ℤ × End
accept_loop [] = ([], serving)
accept_loop (c ∷ rest) =
    let later = accept_loop rest in
    if c.stop
    then ([], stopped)
    else if is_negative c.newsockfd
    then ([], failed)
    else if c.box && c.request
    then (c.newsockfd ∷ later.0, later.1)
    else later

-- The listening socket: `socket`, `setsockopt` and `bind` return these, and so does `sigaction`.
-- `listen` is not checked.
pub record Listening : Type 0 where
  pub socket : ℤ
  pub setsockopt : ℤ
  pub bind : ℤ
  pub sigaction : ℤ

abbrev pub listen_fails : Listening → Bool
listen_fails l =
    if is_negative l.socket
    then true
    else if is_negative l.setsockopt
    then true
    else if is_negative l.bind
    then true
    else is_negative l.sigaction

-- Number of threads: 2, or the one argument; `number` is its `atoi`.
abbrev pub thread_count : (argc : ℕ) → (number : ℤ) → ℤ
thread_count argc number = if argc == 2 then number else pos 2

-- The functions of `librequest`, on the state of the queue, which the threads change too.
pub record Librequest (Que Pool : Type 0) : Type 0 where
  pub queue_init : Run Que
  pub queue_enqueue : Que → (client : ℤ) → Run Que
  pub queue_close : Que → Run Que
  -- the queue that was freed
  pub queue_destroy : Que → Run ℕ
  pub thread_pool_init : Que → ℤ → Run (Pool × Que)
  -- the threads that were joined
  pub thread_pool_destroy : Pool → Que → Run (List ℕ × Que)

-- What a run leaves: the sockets whose requests are enqueued; whether SIGINT has ended it, and then
-- the descriptors closed, the threads joined and the queues freed.
pub record Served : Type 0 where
  pub enqueued : List ℤ
  pub ended : Bool
  pub closed : List ℤ
  pub joined : List ℕ
  pub freed : List ℕ

module _ {Que Pool : Type 0} (library : Librequest Que Pool) where
  open library use {
    queue_init, queue_enqueue, queue_close, queue_destroy, thread_pool_init, thread_pool_destroy,
  }

  -- The requests of the loop enter the queue one behind the other.
  unfoldable pub enqueue_all : List ℤ → Que → Run Que
  enqueue_all [] que = ok que
  enqueue_all (fd ∷ fds) que = queue_enqueue que fd >>= λ later. enqueue_all fds later

  -- The lines behind the loop.
  unfoldable pub shut_down : (sockfd : ℤ) → Pool → Que → List ℤ → Run Served
  shut_down sockfd pool que fds = queue_close que >>= λ closed.
      thread_pool_destroy pool closed >>= λ (ids, que'). queue_destroy que' >>= λ block.
      ok (record {
        enqueued = fds;
        ended = true;
        closed = sockfd ∷ [];
        joined = ids;
        freed = block ∷ [];
      })

  -- How the loop has ended. It ends by `exit` if `accept` fails.
  unfoldable pub end_of_loop : (sockfd : ℤ) → Pool → Que → List ℤ → End → Run Served
  unfolding shut_down
  end_of_loop sockfd pool que fds serving =
      ok (record { enqueued = fds; ended = false; closed = []; joined = []; freed = [] })
  end_of_loop sockfd pool que fds stopped = shut_down sockfd pool que fds
  end_of_loop sockfd pool que fds failed = exits

  unfoldable pub run_server : (argc : ℕ) → (number : ℤ) → Listening → List Incoming → Run Served
  unfolding accept_loop enqueue_all end_of_loop
  run_server argc number l incoming = queue_init >>= λ que.
      thread_pool_init que (thread_count argc number) >>= λ (pool, que').
      if listen_fails l
      then exits
      else (let (fds, end) = accept_loop incoming in
          enqueue_all fds que' >>= λ last. end_of_loop l.socket pool last fds end)
