-- ===== src/WorkSignal/Lost.antt =====
-- Thread B of cv_simple.c signals before thread A waits on the condition variable.
use sp327_alonso_a.Common.{◌≡◌, refl, ap, ◌≢◌, Bool, true, false}
use sp327_alonso_a.WorkSignal.{
  at_lock, at_wait, asleep, ended_b, nobody, thread_a, Process, running, exited, signalled, Kind,
  ordinary, spurious, failing, Step, creates_a, creates_b, locks_a, waits, locks_b, stores, signals,
  unlocks_b, Reach, here, next, only_ordinary, launched,
}

-- Thread B has signalled, and thread A is on its way into `pthread_cond_wait`, or inside.
data Lost : Process → Type 0 where
  lost_lock : Lost (running at_lock ended_b nobody true)
  lost_wait : Lost (running at_wait ended_b thread_a true)
  lost_asleep : Lost (running asleep ended_b nobody true)

Step-Lost : {s t : Process} → Lost s → Step ordinary s t → Lost t
Step-Lost lost_lock locks_a = lost_wait
Step-Lost lost_wait waits = lost_asleep
Step-Lost lost_asleep step = elim step [ ]

kind_step : {k : Kind} {s t : Process} → only_ordinary k ≡ true → Step k s t → Step ordinary s t
kind_step {k = ordinary} h step = step
kind_step {k = spurious} h step = absurd (cc h)
kind_step {k = failing} h step = absurd (cc h)

Reach-Lost : {s t : Process} → Lost s → Reach only_ordinary s t → Lost t
Reach-Lost l here = l
Reach-Lost l (next r h step) = Step-Lost (Reach-Lost l r) (kind_step h step)

abbrev is_exited : Process → Bool
is_exited exited = true
is_exited _ = false

not_exited : {s : Process} → Lost s → is_exited s ≡ false
not_exited lost_lock = refl
not_exited lost_wait = refl
not_exited lost_asleep = refl

exited-Lost : {s : Process} → Lost s → s ≢ exited
exited-Lost l e = absurd (cc (not_exited l, ap is_exited e))

-- There is a run without failing calls and without spurious wakeups in which thread B stores to
-- `gWorkDone`, signals and ends before thread A takes the mutex. From there on thread A comes to
-- sleep on the condition variable, which it does without a test of `gWorkDone`; then no step goes
-- on with the code, and without a spurious wakeup or a failing call the process never exits.
pub signal_lost :
    Reach only_ordinary launched (running at_lock ended_b nobody true)
    × Reach only_ordinary (running at_lock ended_b nobody true) (running asleep ended_b nobody true)
    × ((t : Process) → ¬ Step ordinary (running asleep ended_b nobody true) t)
    × ((s : Process) → Reach only_ordinary (running at_lock ended_b nobody true) s → s ≢ exited)
unfolding signalled
signal_lost = (
  next
      (next
        (next (next (next (next here refl creates_a) refl (creates_b at_lock refl)) refl locks_b)
          refl stores)
        refl (signals at_lock))
      refl unlocks_b,
  next (next here refl locks_a) refl waits,
  λ t step. elim step [ ],
  λ s r. exited-Lost (Reach-Lost lost_lock r),
)
