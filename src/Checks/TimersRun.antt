-- ===== src/Checks/TimersRun.antt =====
-- runwalk_timer.c with 60 and 30 seconds, simpcp1.c with two blocks, `r_sleep`, and assgn2.c with its
-- second thread.
use sp327_alonso_a.Common.{
  ℕ, ◌+◌, ◌*◌, ◌≡◌, ◌≢◌, ◌⊎◌, refl, arith, true, false, List, none, some, [], ◌∷◌, ◌++◌, ◌==◌,
  if◌then◌else◌,
}
use sp327_alonso_a.Common.Bytes.{codes}
use sp327_alonso_a.Common.Int.{pos, negsuc}
use sp327_alonso_a.Common.Run.{ok, exits}
use sp327_alonso_a.RunWalk.{runwalk}
use sp327_alonso_a.RunWalk.Rounds.{round_trips, running, walking, parsed, runwalk_rounds}
use sp327_alonso_a.PlainCopy.Shorts.{Block}
use sp327_alonso_a.Scheduling.{SchedAttr, Attrs, Line, Kernel, asked, ended, ran, assgn2}
use sp327_alonso_a.Scheduling.Change.{effect, assgn2-changes}
use sp327_alonso_a.Support.{over, refused, returned, asleep, r_sleep}
use sp327_alonso_a.Support.Sleep.{interruptions, sum, r_sleep_exact}

-- The first number is 2^32 + 60 to `strtoul`, and the third 2^64 - 5, which is what it makes of -5.
runwalk_rounds_example :
    (runwalk 3 (pos 1) (parsed 1 60) (parsed 0 30) true true (round_trips 2 ++ [])
      ≡ ok (running 60 30 (2 * (60 + 30))))
    × (runwalk 3 (pos 1) (parsed 1 60) (parsed 0 30) true true (round_trips 2 ++ true ∷ [])
        ≡ ok (walking 60 30 (2 * (60 + 30) + 60)))
    × (runwalk 3 (pos 1) (parsed 1 4294967291) (parsed 0 30) true true (round_trips 2) ≡ exits)
runwalk_rounds_example =
    runwalk_rounds 3 (pos 1) 1 60 0 30 4294967291 2 (omega arith) refl (omega arith) (omega arith)
      (omega arith) (omega arith) (omega arith) (omega arith)

abbrev whole_block : Block
whole_block = record { head = 97; tail = codes "bc"; taken = 3 }

abbrev short_block : Block
short_block = record { head = 100; tail = codes "ef"; taken = 1 }

r_sleep_exact_example :
    (r_sleep (interruptions (30 ∷ 50 ∷ []) ++ over ∷ []) 100 ≡ returned (pos 0) 100)
    × (r_sleep (interruptions (30 ∷ 50 ∷ []) ++ refused ∷ []) 100
        ≡ returned (negsuc 0) (sum (30 ∷ 50 ∷ [])))
    × (r_sleep (interruptions (30 ∷ 50 ∷ []) ++ []) 100 ≡ asleep (sum (30 ∷ 50 ∷ [])))
r_sleep_exact_example = r_sleep_exact (30 ∷ 50 ∷ []) 100 [] (omega arith)

abbrev plain : SchedAttr
plain = record { sched_policy = 0; sched_flags = 0; sched_nice = pos 0; sched_priority = 0 }

-- Every thread runs with the plain attributes, and new ones are taken over if their policy is not 0.
abbrev threads : Attrs
threads _ = some plain

abbrev kernel : Kernel
kernel = record {
  tpid = λ i. i + 100;
  sched_setattr = λ old new. if new.sched_policy == 0 then none else some new;
  flags = 0;
  nice = pos 0;
}

abbrev round_robin : ℕ
round_robin = 2

assgn2-changes_example :
    (out : List Line) × (later : Attrs) × (assgn2 kernel
        (λ _. true)
        (λ _. ended false)
        (pos 1)
        (pos 99)
        (pos 1 ∷ pos 2 ∷ pos 81 ∷ [])
        threads
      ≡ ran out later)
    × (later ≡ effect threads 101 (kernel.sched_setattr plain (asked kernel 2 81)))
    × ((round_robin ≢ 0) ⊎ (later ≡ threads))
assgn2-changes_example =
    assgn2-changes kernel (λ _. true) (λ _. ended false) 1 99 1 2 81 threads plain (omega arith)
      (omega arith) (omega arith) (omega arith) (omega arith) (λ j l. refl) (omega arith) refl
      (λ old new e ne. rw e refl)
