-- ===== src/Daemon.antt =====
-- booksrc/B_daemon/daemon_trad.c: the steps that make a process a daemon. A process is what these
-- steps change; a `fork` gives the same process with another ID. The results of the system calls
-- are an argument.
pub mod Started
use sp327_alonso_a.Common.{
  ℕ, zero, suc, ◌+◌, ◌-◌, Bool, true, false, ◌||◌, Option, none, some, ◌==◌, if◌then◌else◌,
}

-- What a file descriptor stands for.
pub data File : Type 0 where
  null_dev : File
  other_file : ℕ → File

-- Whether the handler of a signal is SIG_DFL, and which signals are blocked.
pub record Process : Type 0 where
  pub pid : ℕ
  pub session : ℕ
  pub fds : ℕ → Option File
  pub default_handler : ℕ → Bool
  pub blocked : ℕ → Bool
  pub umask : ℕ
  pub in_root : Bool

-- The results: `rlim_max`, whether calls succeed, the IDs of the children, and the descriptor of
-- the null device.
pub record Calls : Type 0 where
  pub prlimit : Option ℕ
  pub sigaction : ℕ → Bool
  pub sigemptyset : Bool
  pub first_fork : Option ℕ
  pub setsid : Bool
  pub second_fork : Option ℕ
  pub open_null : Option ℕ
  pub dup2 : ℕ → Bool
  pub chdir : Bool

-- A process returns from `daemonize_traditional` with -code, or it exits, or it sleeps in `pause`.
pub data Ending : Type 0 where
  failed : (code : ℕ) → Ending
  exited : Ending
  pausing : Process → Ending

-- The processes that there are, with the newest last; `undefined` is undefined behaviour.
pub data Outcome : Type 0 where
  one : (original : Ending) → Outcome
  two : (original first_child : Ending) → Outcome
  three : (original first_child second_child : Ending) → Outcome
  undefined : Outcome

abbrev pub int_max : ℕ
int_max = 2147483647

abbrev pub with_fd : (ℕ → Option File) → ℕ → Option File → ℕ → Option File
with_fd fds fd file i = if i == fd then file else fds i

-- Step 1, from descriptor `i` on with rounds left. The descriptor is an `int`, which cannot be
-- incremented from its greatest value: `none` is that overflow.
unfoldable pub close_loop : (left i : ℕ) → (ℕ → Option File) → Option (ℕ → Option File)
close_loop zero i fds = some fds
close_loop (suc left) i fds =
    let rest = close_loop left (i + 1) (with_fd fds i none) in if i == int_max then none else rest

-- SIGKILL, SIGSTOP and the two signals of NPTL
abbrev pub is_skipped : ℕ → Bool
is_skipped i = i == 9 || i == 19 || i == 32 || i == 33

-- Step 2, from signal `i` on with rounds left.
unfoldable pub reset_loop : (sigaction : ℕ → Bool) → (left i : ℕ) → (ℕ → Bool) → Option (ℕ → Bool)
reset_loop sigaction zero i handlers = some handlers
reset_loop sigaction (suc left) i handlers =
    let skip = reset_loop sigaction left (i + 1) handlers in
    let reset = reset_loop sigaction left (i + 1) (λ j. if j == i then true else handlers j) in
    if is_skipped i then skip else if sigaction i then reset else none

-- `_NSIG`
abbrev pub nsig : ℕ
nsig = 65

module _ (calls : Calls) where
  -- Steps 9 to 14.
  unfoldable pub actual_daemon : Process → Ending
  actual_daemon p = elim calls.open_null [
    | none ↦ failed 9
    | some fd_null ↦
        if calls.dup2 0
        then (if calls.dup2 1
            then (if calls.dup2 2
                then (let opened = with_fd p.fds fd_null (some null_dev) in
                    let standard =
                      with_fd (with_fd (with_fd opened 0 (some null_dev)) 1 (some null_dev)) 2
                        (some null_dev) in
                    if calls.chdir
                    then pausing (record p {
                      fds = with_fd standard fd_null none;
                      umask = 0;
                      in_root = true;
                    })
                    else failed 11)
                else failed 9)
            else failed 9)
        else failed 9
  ]

  -- Steps 6 to 8; the child leads a session of its own.
  unfoldable pub first_child : Process → Outcome
  unfolding actual_daemon
  first_child p =
      if calls.setsid
      then elim calls.second_fork [
        | none ↦ two exited (failed 7)
        | some child ↦
            three exited exited (actual_daemon (record p { pid = child; session = p.pid }))
      ]
      else two exited (failed 6)

  -- Steps 5 and 15. Step 3 empties a set of signals that nothing uses.
  unfoldable pub forked : Process → Outcome
  unfolding first_child
  forked p =
      if calls.sigemptyset
      then elim calls.first_fork [
        | none ↦ one (failed 5)
        | some child ↦ first_child (record p { pid = child })
      ]
      else one (failed 3)

  -- Step 2 has given the handlers; `p` has its descriptors closed.
  abbrev pub behind_reset : Process → Option (ℕ → Bool) → Outcome
  behind_reset p none = one (failed 2)
  behind_reset p (some handlers) = forked (record p { default_handler = handlers })

  -- The descriptors have been closed.
  abbrev pub behind_close : Process → Option (ℕ → Option File) → Outcome
  behind_close p none = undefined
  behind_close p (some fds) =
      behind_reset (record p { fds = fds })
        (reset_loop calls.sigaction (nsig - 1) 1 p.default_handler)

  -- `prlimit` has given the limit.
  abbrev pub behind_limit : Process → Option ℕ → Outcome
  behind_limit p none = one (failed 1)
  behind_limit p (some rlim_max) = behind_close p (close_loop (rlim_max - 3) 3 p.fds)

  unfoldable pub daemonize_traditional : Process → Outcome
  daemonize_traditional p = behind_limit p calls.prlimit
