-- ===== src/Reaction/Game.antt =====
-- A game of react.c: the start, expiries of the timer, and the key.
use sp327_alonso_a.Common.{
  ℕ, zero, suc, ◌+◌, ◌*◌, ◌/◌, ◌%◌, ◌^◌, ◌-◌, ◌≤◌, ◌<◌, ◌≡◌, refl, ap, ◌∙◌, true, some, List, [],
  ◌∷◌, ◌++◌, arith, replicate, lt→ltb,
}
use native.Mathlib.Decide.{dec_lt}
use sp327_alonso_a.Common.Int.{pos, negsuc, ◌+ℤ◌, ◌-ℤ◌}
use sp327_alonso_a.Reaction.{
  TimeSpec, borrowed, timerspecsub, State, initial, Event, expired, started, pressed, late, jumped,
  undefined, timer_handler, startoff, userpress, play, timer_spec, random_start, react,
}

abbrev pub at : ℕ → ℕ → TimeSpec
at s n = record { tv_sec = pos s; tv_nsec = pos n }

abbrev pub nanoseconds : ℕ → ℕ → ℕ
nanoseconds s n = s * 1000000000 + n

sub_below : (a b : ℕ) → b ≤ a → pos a -ℤ pos b ≡ pos (a - b)
unfolding ◌-ℤ◌
sub_below a b h = ground arith

sub_above : (a b : ℕ) → a < b → pos a -ℤ pos b ≡ negsuc (b - a - 1)
unfolding ◌-ℤ◌
sub_above a b h = ground arith

add_back : (k b : ℕ) → k < b → negsuc k +ℤ pos b ≡ pos (b - k - 1)
unfolding ◌+ℤ◌
add_back k b h = ground arith

no_borrow :
    (s n s' n' : ℕ) → s ≤ s' → n ≤ n' → timerspecsub (at s' n') (at s n) ≡ at (s' - s) (n' - n)
unfolding timerspecsub borrowed
no_borrow s n s' n' h k = rw (sub_below s' s h, sub_below n' n k) refl

borrow :
    (s n s' n' : ℕ)
    → s < s'
    → n' < n
    → n < 1000000000
    → timerspecsub (at s' n') (at s n) ≡ at (s' - s - 1) (1000000000 - (n - n' - 1) - 1)
unfolding timerspecsub borrowed
borrow s n s' n' h k r =
    rw
      (
        sub_below s' s (omega arith),
        sub_above n' n k,
        sub_below (s' - s) 1 (omega arith),
        add_back (n - n' - 1) 1000000000 (omega arith),
      )
      refl

-- A later time less an earlier one, in normal form.
abbrev pub Difference : ℕ → ℕ → ℕ → ℕ → Type 0
Difference s n s' n' =
    (d : ℕ) × (e : ℕ) × (timerspecsub (at s' n') (at s n) ≡ at d e)
    × (e < 1000000000)
    × (nanoseconds d e + nanoseconds s n ≡ nanoseconds s' n')

timerspecsub_lem :
    (s n s' n' : ℕ)
    → n < 1000000000
    → n' < 1000000000
    → nanoseconds s n ≤ nanoseconds s' n'
    → Difference s n s' n'
timerspecsub_lem s n s' n' h h' le = elim (dec_lt n' n) [
  | yes k ↦ (
    s' - s - 1,
    1000000000 - (n - n' - 1) - 1,
    borrow s n s' n' (omega arith) k h,
    omega arith,
    omega arith,
  )
  | no k ↦
      (s' - s, n' - n, no_borrow s n s' n' (omega arith) (omega arith), omega arith, omega arith)
]

-- The signals of a game: the start, expiries of the timer, and the key.
abbrev pub game : TimeSpec → ℕ → TimeSpec → List Event
game start k end = started true (some start) ∷ replicate k expired ++ pressed (some end) ∷ []

plus_zero : (a : ℕ) → a ≡ a + 0
plus_zero a = omega arith

suc_plus : (a k : ℕ) → suc a + k ≡ a + suc k
suc_plus a k = omega arith

zero_plus : (k : ℕ) → 0 + suc k ≡ suc k
zero_plus k = omega arith

counted :
    (s : State) (k : ℕ) (end : TimeSpec)
    → play s (replicate k expired ++ pressed (some end) ∷ [])
      ≡ userpress (record s { count = s.count + k }) end
unfolding play timer_handler
counted s zero end = ap (λ c. userpress (record s { count = c }) end) (plus_zero s.count)
counted s (suc k) end =
    counted (timer_handler s) k end
    ∙ ap (λ c. userpress (record s { count = c }) end) (suc_plus s.count k)

late_press :
    (start end : TimeSpec) (k : ℕ)
    → userpress (record (startoff initial start) { count = suc k }) end
      ≡ late (timerspecsub end start) (suc k)
unfolding startoff userpress
late_press start end k = ground arith

play-game :
    (start end : TimeSpec) (k : ℕ)
    → play initial (game start (suc k) end) ≡ late (timerspecsub end start) (suc k)
unfolding play startoff
play-game start end k =
    counted (startoff initial start) (suc k) end
    ∙ ap (λ c. userpress (record (startoff initial start) { count = c }) end) (zero_plus k)
    ∙ late_press start end k

-- The initial value and the interval of the timer are the milliseconds of the command line.
abbrev pub Period : ℕ → TimeSpec → Type 0
Period f timer =
    (d : ℕ) × (e : ℕ) × (timer ≡ at d e) × (e < 1000000000) × (nanoseconds d e ≡ f * 1000000)

timer_spec_lem :
    (f : ℕ) → f * 1000000 < 2 ^ 63 → (t : TimeSpec) × (timer_spec f ≡ some t) × Period f t
unfolding timer_spec
timer_spec_lem f small = (
  at (f * 1000000 / 1000000000) (f * 1000000 % 1000000000),
  rw (lt→ltb (f * 1000000) (2 ^ 63) small) refl,
  (f * 1000000 / 1000000000, f * 1000000 % 1000000000, refl, omega arith, omega arith),
)

react_plays :
    (argc f random : ℕ) (timer : TimeSpec) (events : List Event)
    → 2 ≤ argc
    → timer_spec (suc f) ≡ some timer
    → react argc (pos (suc f)) true random events ≡ record {
      timer = some timer;
      alarm = some (random_start random 1 5);
      outcome = play initial events;
    }
unfolding react
react_plays argc f random timer events h e = ground arith

within : (random : ℕ) → (1 ≤ random_start random 1 5) × (random_start random 1 5 ≤ 5)
unfolding random_start
within random = (omega arith, omega arith)

play_early :
    (t : TimeSpec) (events : List Event) → play initial (pressed (some t) ∷ events) ≡ jumped
unfolding play userpress
play_early t events = refl

-- Started with an argument of at least a millisecond, which makes fewer than 2^63 nanoseconds, with
-- calls that succeed, the game sets its timer to just that time, in normal form, and its alarm to 1
-- to 5 seconds. If the alarm comes at one time, the timer then expires at least once, and the key is
-- pressed at a time that is not earlier, then it ends with the number of expiries and with the
-- difference of the two times, without a negative part and with less than a second in its
-- nanoseconds. If the key comes before the alarm, the game is given up.
pub react-game :
    (argc f random k s n s' n' : ℕ) (t : TimeSpec) (events : List Event)
    → 2 ≤ argc
    → suc f * 1000000 < 2 ^ 63
    → n < 1000000000
    → n' < 1000000000
    → nanoseconds s n ≤ nanoseconds s' n'
    → (timer : TimeSpec) × Period (suc f) timer
      × (react argc (pos (suc f)) true random (game (at s n) (suc k) (at s' n')) ≡ record {
        timer = some timer;
        alarm = some (random_start random 1 5);
        outcome = late (timerspecsub (at s' n') (at s n)) (suc k);
      })
      × Difference s n s' n'
      × ((1 ≤ random_start random 1 5) × (random_start random 1 5 ≤ 5))
      × ((react argc (pos (suc f)) true random (pressed (some t) ∷ events)).outcome ≡ jumped)
react-game argc f random k s n s' n' t events args small h h' le =
    let (timer, made, period) = timer_spec_lem (suc f) small in
    (
      timer,
      period,
      rw (play-game (at s n) (at s' n') k) at
          (react_plays argc f random timer (game (at s n) (suc k) (at s' n')) args made),
      timerspecsub_lem s n s' n' h h' le,
      within random,
      ap (λ r. r.outcome) (react_plays argc f random timer (pressed (some t) ∷ events) args made)
          ∙ play_early t events,
    )

-- A greater frequency overflows.
pub react-undefined :
    (argc f random : ℕ) (events : List Event)
    → 2 ≤ argc
    → 2 ^ 63 ≤ suc f * 1000000
    → (react argc (pos (suc f)) true random events).outcome ≡ undefined
unfolding react timer_spec
react-undefined argc f random events h over = ground arith
