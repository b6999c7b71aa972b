-- ===== src/Checks/WorkSignalRun.antt =====
-- cv_simple.c: a spurious wakeup of thread A, the signal, and the end of both threads.
use sp327_alonso_a.Common.{◌≡◌, refl, ◌⊎◌, ◌<◌, false, true}
use sp327_alonso_a.WorkSignal.{
  signalled, asleep, woken, at_work, ended, ended_b, nobody, at_lock, running, exited, died,
  Process, ordinary, Step, creates_a, creates_b, locks_a, waits, wakes, relocks, finds_done,
  goes_back, unlocks_a, locks_b, stores, signals, unlocks_b, Reach, here, next, any_kind, launched,
  at_release, thread_b,
}
use sp327_alonso_a.WorkSignal.Waiting.{working, remaining, waiting_ends}

-- Thread A is woken for nothing and goes back; then it is signalled.
abbrev released : Process
released = running woken at_release thread_b true

signalled_in_time : Reach any_kind (running asleep at_work nobody false) released
unfolding signalled
signalled_in_time =
    next
      (next
        (next (next (next (next (next here refl wakes) refl relocks) refl goes_back) refl waits)
          refl locks_b)
        refl stores)
      refl (signals asleep)

waiting_ends_example :
    (((released ≡ exited) ⊎ (released ≡ died)) ⊎ ((t : Process) × Step ordinary released t))
    × ((t : Process) → Step ordinary released t → remaining t < remaining released)
waiting_ends_example = waiting_ends working signalled_in_time

-- Both threads end.
to_sleep : Reach any_kind launched (running asleep at_work nobody false)
to_sleep =
    next (next (next (next here refl creates_a) refl (creates_b at_lock refl)) refl locks_a) refl
      waits

to_end : Reach any_kind launched (running ended ended_b nobody true)
unfolding signalled
to_end =
    next
      (next
        (next
          (next (next (next (next to_sleep refl locks_b) refl stores) refl (signals asleep)) refl
            unlocks_b)
          refl relocks)
        refl finds_done)
      refl unlocks_a
