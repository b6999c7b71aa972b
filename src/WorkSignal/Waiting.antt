-- ===== src/WorkSignal/Waiting.antt =====
-- Thread A of cv_simple.c waits on the condition variable before thread B takes the mutex.
use sp327_alonso_a.Common.{ℕ, ◌+◌, ◌<◌, ◌≡◌, refl, ◌⊎◌, inl, inr, true, false, arith}
use sp327_alonso_a.WorkSignal.{
  ThreadA, unborn, at_lock, at_wait, asleep, woken, at_recheck, at_unlock, ended, ThreadB, unborn_b,
  at_work, at_store, at_signal, at_release, ended_b, nobody, thread_a, thread_b, Process, running,
  exited, died, signalled, Kind, ordinary, Step, creates_a, creates_b, leaves, locks_a, waits,
  wakes, relocks, finds_done, goes_back, unlocks_a, locks_b, stores, signals, unlocks_b, fails,
  Reach, here, next, any_kind,
}

-- Thread B has not yet taken the mutex.
pub data Early : ThreadB → Type 0 where
  not_born : Early unborn_b
  working : Early at_work

-- The states of the runs in which thread A waits in time.
data Tracked : Process → Type 0 where
  early_asleep : {b : ThreadB} → Early b → Tracked (running asleep b nobody false)
  early_woken : {b : ThreadB} → Early b → Tracked (running woken b nobody false)
  early_recheck : {b : ThreadB} → Early b → Tracked (running at_recheck b thread_a false)
  early_wait : {b : ThreadB} → Early b → Tracked (running at_wait b thread_a false)
  store_asleep : Tracked (running asleep at_store thread_b false)
  store_woken : Tracked (running woken at_store thread_b false)
  signal_asleep : Tracked (running asleep at_signal thread_b true)
  signal_woken : Tracked (running woken at_signal thread_b true)
  release_woken : Tracked (running woken at_release thread_b true)
  late_woken : Tracked (running woken ended_b nobody true)
  late_recheck : Tracked (running at_recheck ended_b thread_a true)
  late_unlock : Tracked (running at_unlock ended_b thread_a true)
  both_ended : Tracked (running ended ended_b nobody true)
  has_exited : Tracked exited
  has_died : Tracked died

Step-Tracked : {k : Kind} {s t : Process} → Tracked s → Step k s t → Tracked t
unfolding signalled
Step-Tracked (early_asleep not_born) (creates_b a h) = early_asleep working
Step-Tracked (early_asleep e) wakes = early_woken e
Step-Tracked (early_asleep working) locks_b = store_asleep
Step-Tracked (early_woken not_born) (creates_b a h) = early_woken working
Step-Tracked (early_woken e) relocks = early_recheck e
Step-Tracked (early_woken working) locks_b = store_woken
Step-Tracked (early_recheck not_born) (creates_b a h) = early_recheck working
Step-Tracked (early_recheck e) goes_back = early_wait e
Step-Tracked (early_wait not_born) (creates_b a h) = early_wait working
Step-Tracked (early_wait e) waits = early_asleep e
Step-Tracked store_asleep wakes = store_woken
Step-Tracked store_asleep stores = signal_asleep
Step-Tracked store_woken stores = signal_woken
Step-Tracked signal_asleep wakes = signal_woken
Step-Tracked signal_asleep (signals a) = release_woken
Step-Tracked signal_woken (signals a) = release_woken
Step-Tracked release_woken unlocks_b = late_woken
Step-Tracked late_woken relocks = late_recheck
Step-Tracked late_recheck finds_done = late_unlock
Step-Tracked late_unlock unlocks_a = both_ended
Step-Tracked both_ended leaves = has_exited
Step-Tracked t (fails a b h) = has_died
Step-Tracked t creates_a = elim t [ ]
Step-Tracked t locks_a = elim t [ ]
Step-Tracked (early_asleep e) stores = elim e [ ]
Step-Tracked (early_woken e) stores = elim e [ ]
Step-Tracked (early_recheck e) stores = elim e [ ]
Step-Tracked (early_wait e) stores = elim e [ ]
Step-Tracked (early_asleep e) (signals _) = elim e [ ]
Step-Tracked (early_woken e) (signals _) = elim e [ ]
Step-Tracked (early_recheck e) (signals _) = elim e [ ]
Step-Tracked (early_wait e) (signals _) = elim e [ ]
Step-Tracked (early_asleep e) unlocks_b = elim e [ ]
Step-Tracked (early_woken e) unlocks_b = elim e [ ]
Step-Tracked (early_recheck e) unlocks_b = elim e [ ]
Step-Tracked (early_wait e) unlocks_b = elim e [ ]

Reach-Tracked :
    {b : ThreadB} {s : Process}
    → Early b
    → Reach any_kind (running asleep b nobody false) s
    → Tracked s
Reach-Tracked e here = early_asleep e
Reach-Tracked e (next r h step) = Step-Tracked (Reach-Tracked e r) step

-- The steps that the threads have left, where thread B's count for more.
abbrev left_a : ThreadA → ℕ
left_a unborn = 9
left_a at_lock = 8
left_a at_wait = 4
left_a asleep = 3
left_a woken = 6
left_a at_recheck = 5
left_a at_unlock = 3
left_a ended = 2

abbrev left_b : ThreadB → ℕ
left_b unborn_b = 50
left_b at_work = 40
left_b at_store = 30
left_b at_signal = 20
left_b at_release = 10
left_b ended_b = 0

abbrev pub remaining : Process → ℕ
remaining (running a b o w) = left_a a + left_b b
remaining exited = 0
remaining died = 0

signalled_left : (a : ThreadA) → left_a (signalled a) < left_a a + 4
unfolding signalled
signalled_left unborn = omega arith
signalled_left at_lock = omega arith
signalled_left at_wait = omega arith
signalled_left asleep = omega arith
signalled_left woken = omega arith
signalled_left at_recheck = omega arith
signalled_left at_unlock = omega arith
signalled_left ended = omega arith

Step-remaining : {s t : Process} → Step ordinary s t → remaining t < remaining s
Step-remaining creates_a = omega arith
Step-remaining (creates_b a h) = omega arith
Step-remaining leaves = omega arith
Step-remaining locks_a = omega arith
Step-remaining waits = omega arith
Step-remaining relocks = omega arith
Step-remaining finds_done = omega arith
Step-remaining goes_back = omega arith
Step-remaining unlocks_a = omega arith
Step-remaining locks_b = omega arith
Step-remaining stores = omega arith
Step-remaining (signals a) = omega (arith, signalled_left a)
Step-remaining unlocks_b = omega arith

Tracked-step :
    {s : Process} → Tracked s → ((s ≡ exited) ⊎ (s ≡ died)) ⊎ ((t : Process) × Step ordinary s t)
Tracked-step (early_asleep not_born) = inr (_, creates_b asleep refl)
Tracked-step (early_asleep working) = inr (_, locks_b)
Tracked-step (early_woken e) = inr (_, relocks)
Tracked-step (early_recheck e) = inr (_, goes_back)
Tracked-step (early_wait e) = inr (_, waits)
Tracked-step store_asleep = inr (_, stores)
Tracked-step store_woken = inr (_, stores)
Tracked-step signal_asleep = inr (_, signals asleep)
Tracked-step signal_woken = inr (_, signals woken)
Tracked-step release_woken = inr (_, unlocks_b)
Tracked-step late_woken = inr (_, relocks)
Tracked-step late_recheck = inr (_, finds_done)
Tracked-step late_unlock = inr (_, unlocks_a)
Tracked-step both_ended = inr (_, leaves)
Tracked-step has_exited = inl (inl refl)
Tracked-step has_died = inl (inr refl)

-- If thread A waits on the condition variable before thread B takes the mutex, then the process
-- cannot get stuck, whatever spurious wakeups there are: in every state that it can reach it has
-- ended, by `exit` or `FATAL`, or it has a step that goes on with the code; and every such step
-- makes a measure smaller.
pub waiting_ends :
    {b : ThreadB} {s : Process}
    → Early b
    → Reach any_kind (running asleep b nobody false) s
    → (((s ≡ exited) ⊎ (s ≡ died)) ⊎ ((t : Process) × Step ordinary s t))
      × ((t : Process) → Step ordinary s t → remaining t < remaining s)
waiting_ends e r = (Tracked-step (Reach-Tracked e r), λ t. Step-remaining)
