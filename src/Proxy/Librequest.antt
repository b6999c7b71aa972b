-- ===== src/Proxy/Librequest.antt =====
-- What Final/proxy_server/main.c relies on of `librequest`, and the end of its run from there.
use sp327_alonso_a.Common.{ℕ, ◌≡◌, refl, true, false, List, [], ◌∷◌}
use sp327_alonso_a.Common.Int.{ℤ}
use sp327_alonso_a.Threads.{ok}
use sp327_alonso_a.Proxy.Server.{
  Incoming, serving, stopped, accept_loop, Listening, listen_fails, Librequest, enqueue_all,
  shut_down, end_of_loop, run_server,
}

-- For a number of threads with which a pool can be made: the functions return; a queue is open until
-- it is closed, and stays closed. Of `thread_pool_destroy`, which waits for the threads, this is said
-- for a closed queue only, as its header asks for.
pub record LibrequestLaws {Que Pool : Type 0} (library : Librequest Que Pool) (number : ℤ)
    : Type 1 where
  pub IsOpen : Que → Type 0
  pub IsClosed : Que → Type 0
  pub pool : Pool
  pub threads : List ℕ
  pub block : ℕ
  pub init : (que : Que) × (library.queue_init ≡ ok que) × IsOpen que
  pub started :
      (que : Que)
      → IsOpen que
      → (later : Que) × (library.thread_pool_init que number ≡ ok (pool, later)) × IsOpen later
  pub enqueued :
      (que : Que) (client : ℤ)
      → IsOpen que
      → (later : Que) × (library.queue_enqueue que client ≡ ok later) × IsOpen later
  pub close :
      (que : Que)
      → IsOpen que
      → (later : Que) × (library.queue_close que ≡ ok later) × IsClosed later
  pub join :
      (que : Que)
      → IsClosed que
      → (later : Que) × (library.thread_pool_destroy pool que ≡ ok (threads, later))
        × IsClosed later
  pub destroy : (que : Que) → IsClosed que → library.queue_destroy que ≡ ok block

module _ {Que Pool : Type 0} (library : Librequest Que Pool) (number : ℤ)
    (laws : LibrequestLaws library number) where
  open laws use {IsOpen, pool, threads, block}

  enqueue_all-IsOpen :
      (fds : List ℤ) (que : Que)
      → IsOpen que
      → (later : Que) × (enqueue_all library fds que ≡ ok later) × IsOpen later
  unfolding enqueue_all
  enqueue_all-IsOpen [] que o = (que, refl, o)
  enqueue_all-IsOpen (fd ∷ fds) que o =
      let (next, run, o') = laws.enqueued que fd o in
      let (last, rest, o'') = enqueue_all-IsOpen fds next o' in (last, rw run rest, o'')

  shut_down-IsOpen :
      (sockfd : ℤ) (que : Que) (fds : List ℤ)
      → IsOpen que
      → shut_down library sockfd pool que fds
        ≡ ok (record {
          enqueued = fds;
          ended = true;
          closed = sockfd ∷ [];
          joined = threads;
          freed = block ∷ [];
        })
  unfolding shut_down
  shut_down-IsOpen sockfd que fds o =
      let (closed, run, c) = laws.close que o in
      let (later, wait, c') = laws.join closed c in rw (run, wait, laws.destroy later c') refl

  -- A run whose loop has ended by SIGINT, or is still in `accept`.
  pub server_stopped :
      (l : Listening) (incoming : List Incoming) (fds : List ℤ)
      → listen_fails l ≡ false
      → accept_loop incoming ≡ (fds, stopped)
      → run_server library 2 number l incoming
        ≡ ok (record {
          enqueued = fds;
          ended = true;
          closed = l.socket ∷ [];
          joined = threads;
          freed = block ∷ [];
        })
  unfolding run_server end_of_loop
  server_stopped l incoming fds listens loop =
      let (que, made, o) = laws.init in
      let (que', run, o') = laws.started que o in
      let (last, all, o'') = enqueue_all-IsOpen fds que' o' in
      rw (made, run, listens, loop, all) (shut_down-IsOpen l.socket last fds o'')

  pub server_serving :
      (l : Listening) (incoming : List Incoming) (fds : List ℤ)
      → listen_fails l ≡ false
      → accept_loop incoming ≡ (fds, serving)
      → run_server library 2 number l incoming
        ≡ ok (record { enqueued = fds; ended = false; closed = []; joined = []; freed = [] })
  unfolding run_server end_of_loop
  server_serving l incoming fds listens loop =
      let (que, made, o) = laws.init in
      let (que', run, o') = laws.started que o in
      let (last, all, o'') = enqueue_all-IsOpen fds que' o' in
      rw (made, run, listens, loop, all) refl
