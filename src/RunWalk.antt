-- ===== src/RunWalk.antt =====
-- booksrc/ch13/runwalk_timer.c: a one-shot timer that its own signal handler arms again, for the time
-- to run and the time to walk in turn. A timer that is armed for some seconds expires after these;
-- the handler takes no time. `strtoul` is an argument, and so are the results of the other calls.
pub mod Rounds
use sp327_alonso_a.Common.{
  ℕ, zero, suc, ◌+◌, Bool, true, false, ◌&&◌, ◌||◌, not, Option, none, some, List, [], ◌∷◌, ltb,
  leb, ◌==◌, if◌then◌else◌,
}
use sp327_alonso_a.Common.Int.{ℤ, pos, negsuc, to_int}
use sp327_alonso_a.Common.Run.{Run, ok, exits, ◌>>=◌}

-- `enum type`
pub data Activity : Type 0 where
  run : Activity
  walk : Activity

-- `sRunWalk` with the seconds for which its timer is armed, and the seconds that have passed.
pub record RunWalk : Type 0 where
  pub trun : ℕ
  pub twalk : ℕ
  pub activity : Activity
  pub it_value : ℕ
  pub elapsed : ℕ

abbrev pub toggled : Activity → Activity
toggled run = walk
toggled walk = run

abbrev pub next_value : RunWalk → Activity → ℕ
next_value ps walk = ps.trun
next_value ps run = ps.twalk

-- `its_time`, at an expiry; `settime` says whether `timer_settime` succeeds.
unfoldable pub its_time : (settime : Bool) → RunWalk → Run RunWalk
its_time false ps = exits
its_time true ps = ok (record ps {
  activity = toggled ps.activity;
  it_value = next_value ps ps.activity;
  elapsed = ps.elapsed + ps.it_value;
})

-- The loop of `main`: one entry for each expiry.
unfoldable pub expiries : List Bool → RunWalk → Run RunWalk
expiries [] ps = ok ps
expiries (settime ∷ rest) ps = its_time settime ps >>= expiries rest

-- `runwalk_timer_init_and_arm`; `calls` says whether its three calls succeed.
unfoldable pub init_and_arm : (calls : Bool) → (trun twalk : ℕ) → Run RunWalk
init_and_arm false trun twalk = exits
init_and_arm true trun twalk =
    ok (record { trun = trun; twalk = twalk; activity = run; it_value = trun; elapsed = 0 })

-- What `strtoul` gives: the value, and whether `errno` is ERANGE or EINVAL.
pub record Parsed : Type 0 where
  pub value : ℕ
  pub invalid : Bool

-- The value as an `int` above 0, or the help screen.
abbrev pub positive : ℤ → Run ℕ
positive (negsuc n) = exits
positive (pos n) = if n == 0 then exits else ok n

unfoldable pub seconds : Parsed → Run ℕ
seconds p = if p.invalid then exits else positive (to_int p.value)

-- `verbose`, from `atoi` of the third argument
abbrev pub verbosity_fits : (argc : ℕ) → ℤ → Bool
verbosity_fits argc (negsuc n) = not (argc == 4)
verbosity_fits argc (pos n) = not (argc == 4) || leb n 2

-- `main`: `set_up` says whether the calls up to `calloc` succeed.
unfoldable pub runwalk :
    (argc : ℕ) (verbose : ℤ) → Parsed → Parsed → (set_up calls : Bool) → List Bool → Run RunWalk
runwalk argc verbose first second set_up calls settimes =
    if ltb argc 3
    then exits
    else if not (verbosity_fits argc verbose)
    then exits
    else if not set_up
    then exits
    else seconds first >>= λ trun.
        seconds second >>= λ twalk. init_and_arm calls trun twalk >>= expiries settimes
