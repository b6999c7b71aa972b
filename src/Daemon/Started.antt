-- ===== src/Daemon/Started.antt =====
-- What the daemon starts with.
use native.Mathlib.Decide.{ℕ_discrete}
use sp327_alonso_a.Common.{
  ℕ, zero, suc, ◌+◌, ◌-◌, ◌≤◌, ◌<◌, ◌≡◌, ◌≢◌, refl, ap, ◌∙◌, inl, inr, Bool, true, false, ◌||◌,
  Option, none, some, ◌==◌, if◌then◌else◌, ltb, leb, not, ◌&&◌, arith, Bool-cases,
}
use sp327_alonso_a.Daemon.{
  File, null_dev, Process, Calls, exited, pausing, three, with_fd, close_loop, is_skipped,
  reset_loop, actual_daemon, behind_limit, behind_close, behind_reset, undefined, int_max,
  first_child, forked, daemonize_traditional,
}

-- What the loop leaves, if it does not overflow.
abbrev pub Closed : (left i : ℕ) → (before after : ℕ → Option File) → Type 0
Closed left i before after =
    (fd : ℕ) → after fd ≡ (if leb i fd && ltb fd (i + left) then none else before fd)

close_loop-Closed :
    (left i : ℕ) (fds : ℕ → Option File)
    → i + left ≤ int_max
    → (after : ℕ → Option File) × (close_loop left i fds ≡ some after) × Closed left i fds after
unfolding close_loop
close_loop-Closed zero i fds h = (fds, refl, λ fd. ground arith)
close_loop-Closed (suc left) i fds h =
    let (after, run, all) = close_loop-Closed left (i + 1) (with_fd fds i none) (omega arith) in
    (after, ground (arith, run), λ fd. all fd ∙ ground arith)

close_loop-overflow :
    (left i : ℕ) (fds : ℕ → Option File)
    → i ≤ int_max
    → int_max < i + left
    → close_loop left i fds ≡ none
unfolding close_loop
close_loop-overflow zero i fds h k = absurd (omega arith)
close_loop-overflow (suc left) i fds h k = elim (ℕ_discrete i int_max) [
  | yes e ↦ ground arith
  | no ne ↦
      ground
        (arith, close_loop-overflow left (i + 1) (with_fd fds i none) (omega arith) (omega arith))
]

-- The handlers behind step 2: default but for those that the loop passes over.
abbrev pub Reset : (left i : ℕ) → (before after : ℕ → Bool) → Type 0
Reset left i before after =
    (j : ℕ)
    → after j ≡ (if leb i j && ltb j (i + left) && not (is_skipped j) then true else before j)

reset_loop-Reset :
    (sigaction : ℕ → Bool) (left i : ℕ) (handlers : ℕ → Bool)
    → ((j : ℕ) → is_skipped j ≡ false → sigaction j ≡ true)
    → (after : ℕ → Bool) × (reset_loop sigaction left i handlers ≡ some after)
      × Reset left i handlers after
unfolding reset_loop
reset_loop-Reset sigaction zero i handlers h = (handlers, refl, λ j. ground arith)
reset_loop-Reset sigaction (suc left) i handlers h = elim (Bool-cases (is_skipped i)) [
  | inl e ↦
      let (after, run, all) = reset_loop-Reset sigaction left (i + 1) handlers h in
      (after, rw e run, λ j. all j ∙ ground arith)
  | inr e ↦
      let (after, run, all) =
        reset_loop-Reset sigaction left (i + 1) (λ j. if j == i then true else handlers j) h in
      (after, rw (e, h i e) run, λ j. all j ∙ ground arith)
]

-- The descriptors behind the steps, when the null device got `fd_null`.
abbrev pub Descriptors : (rlim_max fd_null : ℕ) → (before after : ℕ → Option File) → Type 0
Descriptors rlim_max fd_null before after =
    (i : ℕ)
    → after i ≡ (
        if ltb i 3
        then some null_dev
        else if ltb i rlim_max || i == fd_null
        then none
        else before i)

module _ (calls : Calls) where
  fork_steps :
      (p : Process) (first : ℕ)
      → calls.sigemptyset ≡ true
      → calls.first_fork ≡ some first
      → forked calls p ≡ first_child calls (record p { pid = first })
  unfolding forked
  fork_steps p first empty fork = ground arith

  -- The steps in the original process, in the first child and in the daemon.
  original_steps :
      (p : Process) (rlim_max first : ℕ) (fds : ℕ → Option File) (after : ℕ → Bool)
      → calls.prlimit ≡ some rlim_max
      → close_loop (rlim_max - 3) 3 p.fds ≡ some fds
      → reset_loop calls.sigaction 64 1 p.default_handler ≡ some after
      → calls.sigemptyset ≡ true
      → calls.first_fork ≡ some first
      → daemonize_traditional calls p
        ≡ first_child calls (record p { pid = first; fds = fds; default_handler = after })
  unfolding daemonize_traditional
  original_steps p rlim_max first fds after limit closed run empty fork =
      ap (behind_limit calls p) limit
      ∙ ap (behind_close calls p) closed
      ∙ ap (behind_reset calls (record p { fds = fds })) run
      ∙ fork_steps _ first empty fork

  child_steps :
      (p : Process) (second : ℕ)
      → calls.setsid ≡ true
      → calls.second_fork ≡ some second
      → first_child calls p
        ≡ three exited exited (actual_daemon calls (record p { pid = second; session = p.pid }))
  unfolding first_child
  child_steps p second session fork = ground arith

  abbrev at_null : Process → (fd_null : ℕ) → ℕ → Option File
  at_null p fd_null =
      with_fd
        (with_fd
          (with_fd (with_fd (with_fd p.fds fd_null (some null_dev)) 0 (some null_dev)) 1
            (some null_dev))
          2 (some null_dev))
        fd_null none

  daemon_steps :
      (p : Process) (fd_null : ℕ)
      → calls.open_null ≡ some fd_null
      → ((j : ℕ) → calls.dup2 j ≡ true)
      → calls.chdir ≡ true
      → actual_daemon calls p
        ≡ pausing (record p { fds = at_null p fd_null; umask = 0; in_root = true })
  unfolding actual_daemon
  daemon_steps p fd_null opened dup cwd = ground (arith, dup 0, dup 1, dup 2)

module _ (calls : Calls) (p : Process) where
  -- All calls succeed, the limit of descriptors is at least 3 and in the range of an `int`, the children have different IDs, and the null device
  -- gets a descriptor behind the standard ones, as it does when these are open. Then the original
  -- process and its child exit, and the daemon sleeps with the null device at the standard
  -- descriptors, and no other descriptor open below the limit. The handlers of the signals 1 to 64
  -- are the default ones, but for those that the program passes over. The daemon is in the session
  -- of its parent, which it does not lead, with umask 0 and in the root directory. The signals that
  -- were blocked at the start still are: the third step changes no mask.
  pub daemonized :
      (rlim_max first second fd_null : ℕ)
      → 3 ≤ rlim_max
      → rlim_max ≤ int_max
      → calls.prlimit ≡ some rlim_max
      → ((j : ℕ) → is_skipped j ≡ false → calls.sigaction j ≡ true)
      → calls.sigemptyset ≡ true
      → calls.first_fork ≡ some first
      → calls.setsid ≡ true
      → calls.second_fork ≡ some second
      → second ≢ first
      → calls.open_null ≡ some fd_null
      → 3 ≤ fd_null
      → ((j : ℕ) → calls.dup2 j ≡ true)
      → calls.chdir ≡ true
      → (d : Process) × (daemonize_traditional calls p ≡ three exited exited (pausing d))
        × Descriptors rlim_max fd_null p.fds d.fds
        × Reset 64 1 p.default_handler d.default_handler
        × (d.pid ≡ second)
        × (d.session ≡ first)
        × (d.pid ≢ d.session)
        × (d.umask ≡ 0)
        × (d.in_root ≡ true)
        × (d.blocked ≡ p.blocked)
  daemonized rlim_max first second fd_null room bounded limit reset empty fork1 session fork2 apart
        opened high dup cwd =
      let (fds, shut, closed) = close_loop-Closed (rlim_max - 3) 3 p.fds (omega arith) in
      let (after, run, all) = reset_loop-Reset calls.sigaction 64 1 p.default_handler reset in
      (
        record {
          pid = second;
          session = first;
          fds = at_null calls (record p { fds = fds }) fd_null;
          default_handler = after;
          blocked = p.blocked;
          umask = 0;
          in_root = true;
        },
        original_steps calls p rlim_max first fds after limit shut run empty fork1
            ∙ child_steps calls _ second session fork2
            ∙ ap (three exited exited) (daemon_steps calls _ fd_null opened dup cwd),
        λ i. ground (arith, closed i),
        all,
        refl,
        refl,
        apart,
        refl,
        refl,
        refl,
      )

  -- With a limit of descriptors above that range, RLIM_INFINITY among them, the counter of the loop
  -- that closes them overflows.
  pub daemonize-undefined :
      (rlim_max : ℕ)
      → int_max < rlim_max
      → calls.prlimit ≡ some rlim_max
      → daemonize_traditional calls p ≡ undefined
  unfolding daemonize_traditional
  daemonize-undefined rlim_max over limit =
      ap (behind_limit calls p) limit
      ∙ ap (behind_close calls p)
          (close_loop-overflow (rlim_max - 3) 3 p.fds (omega arith) (omega arith))
