-- ===== src/Lib.antt =====
-- Verification of the operating-system programs of this repository. The centre is the request queue
-- with its pool of worker threads (M9Lab/M9) and the HTTP proxy that is built on them
-- (Final/proxy_server). The others are programs of their own: an echo server with its clients
-- (Testing_server), a report on the system (M5), a set-user-ID program (M6), a pair of processes
-- that exchange signals (M8), the growth of an investment (m2), the input of a number (M4lab), and
-- examples of booksrc: a shell, a daemon, timers, programs that copy files, and programs with
-- threads that share memory. The unit tests of the queue and of the input of a number are modelled
-- as well.
--
-- The program. `main` of M9Lab/M9/main.c makes a queue and a pool of threads, enqueues a number of
-- requests at random intervals, closes the queue, joins the threads and frees the queue. Each
-- worker (worker_thread.c) takes requests out of the queue and runs their work function (tasks.c)
-- until `queue_dequeue` returns NULL. The queue (queue.c) is a linked list with a dummy header
-- behind a mutex and a condition variable. The proxy accepts connections in `main` and enqueues
-- one request for each; a worker then runs `handle_client_request` of http_proxy.c: it receives
-- the client's request, finds host and port in it, connects to the target server, forwards the
-- request with a new request line, and sends the answer back.
--
-- The files.
--   Common               Boolean tests, lists over the native numbers, integers, C strings
--   Queue                M9Lab/M9/queue.c, each function on an explicit store of nodes. `Memory` is
--                        the store and its commands, `Chain` and `Shape` say what a well-formed
--                        queue is, `Enqueue`, `Dequeue` and `Lifecycle` treat the operations.
--   Pool                 worker_thread.c with `main` as a step relation: every locked section of
--                        queue.c is one step, its broadcast another, so the steps of the threads
--                        interleave as the mutex lets them. `Interface` is what the pool asks of a
--                        queue, a record of operations and laws; `ListQueue` fills it with a list
--                        and `HeapQueue` with the pointer code of `Queue`. `Invariant` holds in
--                        every reachable state, `Progress` treats the shutdown, and `NullRequest`
--                        a request that could not be created.
--   Threads              thread_pool.c, the array of threads
--   Tasks                tasks.c, the work functions and their log
--   Requests             main.c up to the loop over the requests
--   Proxy                http_proxy.c: what `sscanf` reads, and the request that is forwarded.
--                        `Connect` is `connect_to_target_server`, `Handle` the handler as a whole
--                        with its thread function, `Server` main.c of the proxy. `Scan`, `Line`,
--                        `Forward`, `Url`, `Bounds`, `Port`, `Sockets`, `Served` and `Shutdown`
--                        hold the proofs. `Interrupt` has the moments of SIGINT in main.c, `Librequest`
--                        what main.c relies on of the library.
--   Echo                 Testing_server: server.c, server_solution.c and byteorder.c; `Client` has
--                        client.c and client_solution.c. `Exchange` puts a client and a server
--                        together, `Failures` treats their errors.
--   SystemInfo           M5/system_info.c; `Memory` has its functions on memory and CPU usage and
--                        its `main`, `Fits` the proofs
--   Credentials          M6/setuid_demo.c over a kernel that is a parameter; `Drop` holds the laws
--                        of that kernel and the proof
--   Signals              M8/parent.c and M8/child.c as a step relation; `Sums` holds the proofs.
--                        `Start` is `main` of both, `Installed` its proof.
--   Investment           m2/future_value.c; `Growth` holds the proof
--   Input                M4lab/input.c; `Accept` holds the proofs
--   MtCopy               booksrc/solutions_to_assgn/ch18/mt_copy.c: each thread gives the writes
--                        that it makes, and the writes of all threads may come in any order.
--                        `Segments` is one thread's part, `Overlay` lays writes on top of one
--                        another, `Whole` puts both together, `Short` treats short reads.
--   SimpleCopy           booksrc/A_fileio/simpcp2.c; `Blocks` holds the proofs
--   Bank                 booksrc/solutions_to_assgn/ch15/bankacc.c as a step relation: a read or a
--                        write of the balance is a step. `Serial` is the run with the mutex, `Race`
--                        one without.
--   WorkSignal           booksrc/ch15/cv_simple.c as a step relation: two threads with a mutex and a
--                        condition variable. `Order` is what holds in every run, `Waiting` treats
--                        the runs in which the thread waits in time, `Lost` those in which it is
--                        late.
--   Shell                booksrc/ch10/simpsh_v3.c; `Script` holds the proofs
--   Reaction             booksrc/ch13/react.c with `timerspecsub` of booksrc/common.h; `Game` holds
--                        the proofs
--   Factorial            booksrc/ch15/facto.c with a section as one step; `Exact` treats the loop.
--                        `Threads` is a step relation on each read and write of the global,
--                        `Locked` and `Race` treat the runs with the mutex and without.
--   Iobuf                booksrc/ch16/mt_iobuf_mtx.c, mt_iobuf_rfct.c and mt_iobuf_tls.c as a step
--                        relation; `Own` treats buffers of the threads' own, `Race` a shared one
--   SharedMutex          booksrc/ch15/pshared_mutex_demo.c; `Overwrite` has the laws of stores into
--                        the buffer, `Orders` both orders of the sections, `Shown` the display
--   RunWalk              booksrc/ch13/runwalk_timer.c; `Rounds` holds the proofs
--   MatrixMul            the two programs of
--                        booksrc/ch14/speed_multiprcs_vs_multithrd_simple/matrixmul: `Sums` holds
--                        what the loops add up to, `Threads` the invariant of the threads,
--                        `Product` the result
--   TestInput            M4lab/test_input.c; `Pass` holds the proofs
--   TestQueue            M9Lab/M9/test_queue.c; `Pass` holds the proofs
--   Scheduling           booksrc/solutions_to_assgn/ch17/assgn2.c; `Change` holds the proofs
--   Daemon               booksrc/B_daemon/daemon_trad.c; `Started` holds the proofs
--   Cleanup              booksrc/ch16/cleanup_hdlr.c; `Freed` holds the proofs
--   PlainCopy            booksrc/A_fileio/simpcp1.c; `Shorts` holds the proofs
--   Support              booksrc/common.c; `Sleep` treats its `r_sleep`
--   Primes               booksrc/solutions_to_assgn/ch16/mt_primes1.c and mt_primes2.c; `Sieve`
--                        treats the search, `Buffer` the buffer, `Output` the file
--   Checks               the theorems at concrete inputs, and test runs
--
-- How the code becomes definitions. A function keeps its name; `do_segment` is `__do_mt_copy`, and
-- `set_up`, `child_start`, `simpcp` and the like are a `main` or its start. A pointer is a number,
-- NULL is 0, and the store maps addresses to nodes. A command of `Queue` returns a result and a new
-- store, ends the process (`exit`), faults (a NULL or freed pointer is followed), or gives the mutex
-- back to wait. What `malloc`, `pthread_mutex_lock`, `pthread_create`, `rand`, `fopen`, `recv`,
-- `pread`, `getaddrinfo`, `socket` and `connect` return is an argument of the definitions that call
-- them. A string is the list of its bytes before the final NUL. An array that is overrun and a value
-- that was never written are faults.
--
-- Bounds and fuel. Loops run on lists or on a number of rounds, except the request loop of main.c,
-- the loop of `docopy` and that of the shell, which have fuel; one unit more than there are rounds
-- is enough, as their theorems say. `size` of the queue is a natural number, so fewer than 2^31
-- requests are queued at a time. `%d` faults outside the range of a 32-bit `int`. A port has at
-- most 10 digits, which is the fuel of `decimal`. The child of M8 adds 5 every two seconds, so that
-- 27 years pass before its sum overflows. A file that is copied has less than 2^31 bytes in a
-- segment or block; `to_int` wraps above that, and it cuts the index of a year in future_value.c. An
-- overflow of the months there, of the nanoseconds of react.c and of the descriptors that
-- daemon_trad.c counts is a result of its own. The elements of the matrices of `MatrixMul` have no
-- bound; with the values that the programs fill them with, they stay below 2^31.
--
-- Assumptions on what is not in the repository. A locked section is atomic; `pthread_cond_wait`
-- gives the mutex up and takes it again before it returns, and may return without a broadcast; a
-- broadcast wakes every waiting thread. `malloc` returns NULL or a block that is not in use. A
-- `pwrite` puts its bytes at its offset in one step. The files under /proc hold no NUL and no
-- signed numbers. The message of FATAL in booksrc/common.h finds memory, so that FATAL ends the
-- process. A call on a stdio stream is atomic; an `fwrite` may be short. `thread_pool_destroy` of
-- librequest joins the threads if the queue is closed.
--
-- Not modelled. Text on the terminal, time stamps and sleeping times, where nothing is computed;
-- the weak memory model: shared data is touched under the mutex, or one access at a time in `Bank`,
-- `Factorial`, `Iobuf` and `MatrixMul`; a cancellation in mt_primes2.c but by its outcome; a signal
-- that arrives inside a handler of react.c; which child the shell has waited for. The code of
-- `librequest` is not in the repository as source: the proxy gets the functions of its queue and
-- of its thread pool as an argument.
-- M3Lab, M9Lab/primes1.c, which does not compile, and the other examples of booksrc are left out:
-- other programs that change their scheduling, programs that show how a fault, a limit or a signal
-- looks, whose effect is that of the system calls they make, and templates.
mod Checks
pub mod Bank
pub mod Common
pub mod Credentials
pub mod Cleanup
pub mod Daemon
pub mod Echo
pub mod Factorial
pub mod Input
pub mod Investment
pub mod Iobuf
pub mod MatrixMul
pub mod MtCopy
pub mod PlainCopy
pub mod Pool
pub mod RunWalk
pub mod Shell
pub mod WorkSignal
pub mod Primes
pub mod Proxy
pub mod Queue
pub mod Reaction
pub mod Requests
pub mod Scheduling
pub mod SharedMutex
pub mod Signals
pub mod SimpleCopy
pub mod Support
pub mod SystemInfo
pub mod Tasks
pub mod TestInput
pub mod TestQueue
pub mod Threads
