-- ===== src/Signals.antt =====
-- M8/parent.c and M8/child.c: two processes that answer each other's signals. SIGUSR1 and SIGUSR2
-- are standard signals: while one is pending, another of its kind is dropped.
pub mod Sums
pub mod Start
pub mod Installed
use sp327_alonso_a.Common.{ℕ, ◌+◌, ◌≡◌, Bool, true, false, Option, none, some}

pub record Processes : Type 0 where
  pub child_sum : ℕ
  pub parent_sum : ℕ
  pub usr1 : Option ℕ  -- pending for the parent, with its value
  pub usr2 : Option ℕ  -- pending for the child
  pub chld : Bool  -- SIGCHLD pending for the parent
  pub child_runs : Bool
  pub parent_runs : Bool

abbrev pub queued : Option ℕ → ℕ → Option ℕ
queued none v = some v
queued (some w) v = some w

-- child: one round of its loop
abbrev pub count : Processes → Processes
count s = record s { child_sum = s.child_sum + 5 }

-- child, `SigStop`: its sum is sent to the parent
abbrev pub sig_stop : Processes → Processes
sig_stop s = record s { usr1 = queued s.usr1 s.child_sum }

-- parent, `SigUser1` with the value `v`: the sum is stored and a 1 is sent back
abbrev pub sig_user1 : ℕ → Processes → Processes
sig_user1 v s = record s { usr1 = none; parent_sum = v; usr2 = queued s.usr2 1 }

-- child, `SigTerm`
abbrev pub sig_term : Processes → Processes
sig_term s = record s { chld = true; child_runs = false }

-- One step: a round of the child's loop, or a signal that is delivered.
pub data Event (s : Processes) : Processes → Type 0 where
  counted : s.child_runs ≡ true → Event s (count s)
  stopped : s.child_runs ≡ true → Event s (sig_stop s)
  reported : {v : ℕ} → s.parent_runs ≡ true → s.usr1 ≡ some v → Event s (sig_user1 v s)
  -- `sigqueue` fails, and the parent exits
  unreported :
      {v : ℕ}
      → s.parent_runs ≡ true
      → s.usr1 ≡ some v
      → Event s (record s { usr1 = none; parent_sum = v; parent_runs = false })
  -- child, `SigUser1`: the value is printed only
  answered : {v : ℕ} → s.child_runs ≡ true → s.usr2 ≡ some v → Event s (record s { usr2 = none })
  terminated : s.child_runs ≡ true → Event s (sig_term s)
  -- `sigqueue` fails in `SigStop` or `SigTerm`, and the child exits
  gave_up : s.child_runs ≡ true → Event s (record s { chld = true; child_runs = false })
  -- parent, `SigChild`: the sum is overwritten with the value of the signal, which is whatever the
  -- signal carries, and the parent exits
  left :
      (v : ℕ)
      → s.parent_runs ≡ true
      → s.chld ≡ true
      → Event s (record s { parent_sum = v; parent_runs = false })
  -- parent: the end of the loop over `waitpid`, and of `main`
  finished : s.parent_runs ≡ true → s.chld ≡ true → Event s (record s { parent_runs = false })

abbrev pub launched : Processes
launched = record {
  child_sum = 0;
  parent_sum = 0;
  usr1 = none;
  usr2 = none;
  chld = false;
  child_runs = true;
  parent_runs = true;
}

pub data Reached : Processes → Type 0 where
  here : Reached launched
  later : {s t : Processes} → Reached s → Event s t → Reached t
