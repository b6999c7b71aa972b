-- ===== src/Proxy/Interrupt.antt =====
-- Final/proxy_server/main.c: the moments at which SIGINT arrives. The handler adds to `stop`, and the
-- flag SA_RESTART makes `accept` wait on; so SIGINT takes effect at the head of the loop alone.
use sp327_alonso_a.Common.{
  ℕ, zero, suc, ◌+◌, ◌<◌, ◌≡◌, refl, ◌∙◌, Bool, true, false, ◌&&◌, not, List, [], ◌∷◌, ◌++◌, ◌==◌,
  if◌then◌else◌, arith, ap,
}
use sp327_alonso_a.Common.Int.{ℤ, pos}
use sp327_alonso_a.Threads.{ok}
use sp327_alonso_a.Proxy.Connect.{is_negative}
use sp327_alonso_a.Proxy.Server.{
  Incoming, serving, stopped, accept_loop, Listening, listen_fails, Librequest, run_server,
}
use sp327_alonso_a.Proxy.Librequest.{LibrequestLaws, server_stopped, server_serving}

-- A connection with the SIGINTs that arrive around it: `before`, up to the test at the head of the
-- loop, and `during`, from there until `accept` returns.
pub record Round : Type 0 where
  pub before : ℕ
  pub during : ℕ
  pub newsockfd : ℤ
  pub box : Bool
  pub request : Bool

-- `stop` after a number of SIGINTs
unfoldable pub handle_sigint : ℕ → ℕ → ℕ
handle_sigint zero stop = stop
handle_sigint (suc signals) stop = handle_sigint signals (suc stop)

-- the end at the head of the loop, where nothing of a connection is looked at
abbrev stopping : Incoming
stopping = record { stop = true; newsockfd = pos 0; box = true; request = true }

-- What the rounds of the loop see of the signals: `stop` is its value before, and `last` is the
-- number of SIGINTs behind the last connection, up to the head of the loop. Without any the loop is
-- in `accept` at the end.
unfoldable pub interrupted : (stop : ℕ) → List Round → (last : ℕ) → List Incoming
interrupted stop [] last = if handle_sigint last stop == 0 then [] else stopping ∷ []
interrupted stop (r ∷ rest) last =
    let now = handle_sigint r.before stop in
    record { stop = not (now == 0); newsockfd = r.newsockfd; box = r.box; request = r.request }
    ∷ interrupted (handle_sigint r.during now) rest last

-- a round without SIGINT, whose connection is accepted
abbrev pub is_quiet : Round → Bool
is_quiet r = r.before == 0 && (r.during == 0 && not (is_negative r.newsockfd))

abbrev pub all_quiet : List Round → Bool
all_quiet [] = true
all_quiet (r ∷ rest) = is_quiet r && all_quiet rest

-- the connections that both calls of `malloc` have room for
abbrev pub enqueued_of : List Round → List ℤ
enqueued_of [] = []
enqueued_of (r ∷ rest) =
    if r.box && r.request then (r.newsockfd ∷ enqueued_of rest) else enqueued_of rest

handle_sigint_lem : (signals stop : ℕ) → handle_sigint signals stop ≡ signals + stop
unfolding handle_sigint
handle_sigint_lem zero stop = omega arith
handle_sigint_lem (suc signals) stop = omega (arith, handle_sigint_lem signals (suc stop))

quiet_rounds :
    (rs rest : List Round) (last : ℕ)
    → all_quiet rs ≡ true
    → accept_loop (interrupted 0 (rs ++ rest) last) ≡ (
      enqueued_of rs ++ (accept_loop (interrupted 0 rest last)).0,
      (accept_loop (interrupted 0 rest last)).1,
    )
unfolding accept_loop interrupted
quiet_rounds [] rest last h = refl
quiet_rounds (r ∷ rs) rest last h =
    ground
      (arith, handle_sigint_lem r.before 0, handle_sigint_lem r.during 0, quiet_rounds rs rest last)

-- With `stop` set, the next head of the loop ends it.
stops :
    (stop : ℕ) (rest : List Round) (last : ℕ)
    → 0 < stop
    → accept_loop (interrupted stop rest last) ≡ ([], stopped)
unfolding accept_loop interrupted
stops stop [] last h = ground (arith, handle_sigint_lem last stop)
stops stop (r ∷ rest) last h = ground (arith, handle_sigint_lem r.before stop)

in_accept :
    (r : Round) (rest : List Round) (last : ℕ)
    → r.before ≡ 0
    → 0 < r.during
    → is_negative r.newsockfd ≡ false
    → accept_loop (interrupted 0 (r ∷ rest) last) ≡ (enqueued_of (r ∷ []), stopped)
unfolding accept_loop interrupted
in_accept r rest last b d n = ground (
  arith,
  handle_sigint_lem r.before 0,
  handle_sigint_lem r.during (handle_sigint r.before 0),
  stops (handle_sigint r.during (handle_sigint r.before 0)) rest last,
)

at_head :
    (r : Round) (rest : List Round) (last : ℕ)
    → accept_loop (interrupted 0 (record r { before = suc r.before } ∷ rest) last) ≡ ([], stopped)
unfolding accept_loop interrupted
at_head r rest last = ground (arith, handle_sigint_lem (suc r.before) 0)

still_serving : accept_loop (interrupted 0 [] 0) ≡ ([], serving)
unfolding accept_loop interrupted handle_sigint
still_serving = refl

enqueued_of-append :
    (rs : List Round) (r : Round)
    → enqueued_of rs ++ enqueued_of (r ∷ []) ≡ enqueued_of (rs ++ r ∷ [])
enqueued_of-append [] r = refl
enqueued_of-append (s ∷ rs) r = ground (arith, enqueued_of-append rs r)

append_nil : (fds : List ℤ) → fds ++ [] ≡ fds
append_nil [] = refl
append_nil (fd ∷ fds) = ap (λ t. fd ∷ t) (append_nil fds)

-- The proxy is started with a number of threads for which `librequest` does what its headers say,
-- and with a socket that listens. After any connections without SIGINT: if SIGINT arrives while the
-- loop waits in `accept` and the next connection is accepted, then that connection, which came after
-- the signal, is still enqueued, none behind it is, and the proxy ends: its socket is closed, the
-- queue is closed and freed, and the pool is joined. If SIGINT arrives before the head of the loop,
-- no further connection is accepted, and the proxy ends likewise. Without SIGINT it does not end.
pub run_server-sigint :
    {Que Pool : Type 0} (library : Librequest Que Pool) (number : ℤ)
    (laws : LibrequestLaws library number) (l : Listening) (rs : List Round) (r : Round)
    (rest : List Round) (last : ℕ)
    → listen_fails l ≡ false
    → all_quiet rs ≡ true
    → r.before ≡ 0
    → 0 < r.during
    → is_negative r.newsockfd ≡ false
    → (run_server library 2 number l (interrupted 0 (rs ++ r ∷ rest) last)
        ≡ ok (record {
          enqueued = enqueued_of (rs ++ r ∷ []);
          ended = true;
          closed = l.socket ∷ [];
          joined = laws.threads;
          freed = laws.block ∷ [];
        }))
      × (run_server library 2 number l
            (interrupted 0 (rs ++ record r { before = suc r.before } ∷ rest) last)
          ≡ ok (record {
            enqueued = enqueued_of rs;
            ended = true;
            closed = l.socket ∷ [];
            joined = laws.threads;
            freed = laws.block ∷ [];
          }))
      × (run_server library 2 number l (interrupted 0 (rs ++ []) 0)
          ≡ ok (record {
            enqueued = enqueued_of rs;
            ended = false;
            closed = [];
            joined = [];
            freed = [];
          }))
run_server-sigint library number laws l rs r rest last listens quiet b d n = (
  server_stopped library number laws l _ (enqueued_of (rs ++ r ∷ [])) listens (
      quiet_rounds rs (r ∷ rest) last quiet
      ∙ rw (in_accept r rest last b d n, enqueued_of-append rs r) refl),
  server_stopped library number laws l _ (enqueued_of rs) listens (
      quiet_rounds rs (record r { before = suc r.before } ∷ rest) last quiet
      ∙ rw (at_head r rest last, append_nil (enqueued_of rs)) refl),
  server_serving library number laws l _ (enqueued_of rs) listens
      (quiet_rounds rs [] 0 quiet ∙ rw (still_serving, append_nil (enqueued_of rs)) refl),
)
