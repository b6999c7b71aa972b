-- ===== src/Reaction.antt =====
-- booksrc/ch13/react.c: how fast the user presses ^C after a random start. A handler runs as a whole;
-- the signals come as a list of events. `timerspecsub` is a macro of booksrc/common.h. What
-- `atoll` gives is an argument; its product with 1000000 is a `long`, whose overflow is undefined.
pub mod Game
use sp327_alonso_a.Common.{
  ℕ, suc, ◌+◌, ◌*◌, ◌/◌, ◌%◌, ◌^◌, Bool, true, false, not, Option, none, some, List, [], ◌∷◌, ltb,
  ◌==◌, if◌then◌else◌,
}
use sp327_alonso_a.Common.Int.{ℤ, pos, negsuc, ◌+ℤ◌, ◌-ℤ◌, is_negative}

-- `struct timespec`
pub record TimeSpec : Type 0 where
  pub tv_sec : ℤ
  pub tv_nsec : ℤ

unfoldable pub borrowed : TimeSpec → TimeSpec
borrowed r =
    if is_negative r.tv_nsec
    then record { tv_sec = r.tv_sec -ℤ pos 1; tv_nsec = r.tv_nsec +ℤ pos 1000000000 }
    else r

unfoldable pub timerspecsub : TimeSpec → TimeSpec → TimeSpec
timerspecsub a b =
    borrowed (record { tv_sec = a.tv_sec -ℤ b.tv_sec; tv_nsec = a.tv_nsec -ℤ b.tv_nsec })

-- The globals that the handlers use.
pub record State : Type 0 where
  pub count : ℕ
  pub first_time : Bool
  pub jumped_the_gun : Bool
  pub tm_start : TimeSpec

abbrev pub initial : State
initial = record {
  count = 0;
  first_time = true;
  jumped_the_gun = true;
  tm_start = record { tv_sec = pos 0; tv_nsec = pos 0 };
}

-- A signal: SIGRTMIN; SIGALRM, with whether `timer_settime` succeeds and the time, if
-- `clock_gettime` gives it; SIGINT with the time.
pub data Event : Type 0 where
  expired : Event
  started : (settime : Bool) → Option TimeSpec → Event
  pressed : Option TimeSpec → Event

-- How the game ends, or that it still waits for signals; `undefined` is undefined behaviour. `late` is the reaction time with the count.
pub data Outcome : Type 0 where
  waiting : Outcome
  usage : Outcome
  undefined : Outcome
  failed : Outcome
  jumped : Outcome
  perfect : Outcome
  late : TimeSpec → ℕ → Outcome
  again : ℕ → Outcome

unfoldable pub timer_handler : State → State
timer_handler s = record s { count = suc s.count }

unfoldable pub startoff : State → TimeSpec → State
startoff s now = record s { jumped_the_gun = false; tm_start = now }

-- It always ends the process, since `gTimerRepeats` is 0.
unfoldable pub userpress : State → TimeSpec → Outcome
userpress s tm_end =
    if s.jumped_the_gun
    then jumped
    else if not s.first_time
    then again s.count
    else if s.count == 0
    then perfect
    else late (timerspecsub tm_end s.tm_start) s.count

-- the loop of `main` over `pause`
unfoldable pub play : State → List Event → Outcome
play s [] = waiting
play s (expired ∷ events) = play (timer_handler s) events
play s (started false now ∷ events) = failed
play s (started true none ∷ events) = failed
play s (started true (some now) ∷ events) = play (startoff s now) events
play s (pressed none ∷ events) = failed
play s (pressed (some now) ∷ events) = userpress s now

-- The initial value and the interval of the timer, for a frequency in milliseconds; `none` is an
-- overflow.
unfoldable pub timer_spec : ℕ → Option TimeSpec
timer_spec freq_ms =
    if ltb (freq_ms * 1000000) (2 ^ 63)
    then some (record {
      tv_sec = pos (freq_ms * 1000000 / 1000000000);
      tv_nsec = pos (freq_ms * 1000000 % 1000000000);
    })
    else none

-- The seconds up to SIGALRM, from what `random` returns.
unfoldable pub random_start : (random min max : ℕ) → ℕ
random_start random min max = random % max + min

-- What `main` has set up, and how it ends.
pub record Match : Type 0 where
  pub timer : Option TimeSpec
  pub alarm : Option ℕ
  pub outcome : Outcome

abbrev pub only : Outcome → Match
only o = record { timer = none; alarm = none; outcome = o }

-- `main` behind `init`.
abbrev pub initialized : Option TimeSpec → (random : ℕ) → List Event → Match
initialized none random events = only undefined
initialized (some timer) random events = record {
  timer = some timer;
  alarm = some (random_start random 1 5);
  outcome = play initial events;
}

-- `calls` says that the calls of `init` succeed.
unfoldable pub react : (argc : ℕ) (freq_ms : ℤ) (calls : Bool) (random : ℕ) → List Event → Match
react argc (negsuc n) calls random events = only usage
react argc (pos freq_ms) calls random events =
    if ltb argc 2
    then only usage
    else if freq_ms == 0
    then only usage
    else if not calls
    then only failed
    else initialized (timer_spec freq_ms) random events
