-- ===== src/Support.antt =====
-- booksrc/common.c: the functions that the examples share. `malloc` and the system calls are
-- arguments; of `nanosleep` it is used that it sleeps for the time asked for, or, when a signal
-- interrupts it, for a part, and then gives the rest. Times are in nanoseconds.
pub mod Sleep
use sp327_alonso_a.Common.{
  ℕ, zero, suc, ◌+◌, ◌-◌, Bool, true, false, List, [], ◌∷◌, ◌==◌, if◌then◌else◌,
}
use sp327_alonso_a.Common.Int.{ℤ, pos, negsuc}

-- The result of a `nanosleep`: it sleeps to the end, it is interrupted after some time, or it fails.
pub data Nap : Type 0 where
  over : Nap
  interrupted : ℕ → Nap
  refused : Nap

-- What `r_sleep` returns, and the time that it has slept; `none` in `ret` is a sleep that goes on.
pub data Slept : Type 0 where
  returned : (ret : ℤ) → (time : ℕ) → Slept
  asleep : (time : ℕ) → Slept

abbrev pub after : ℕ → Slept → Slept
after t (returned ret time) = returned ret (t + time)
after t (asleep time) = asleep (t + time)

-- `r_sleep` for a time `req`, over the results of `nanosleep`
unfoldable pub r_sleep : List Nap → (req : ℕ) → Slept
r_sleep [] req = asleep 0
r_sleep (over ∷ naps) req = returned (pos 0) req
r_sleep (interrupted t ∷ naps) req = after t (r_sleep naps (req - t))
r_sleep (refused ∷ naps) req = returned (negsuc 0) 0

-- `show_blocked_signals`, from signal `i` on: the signals that it prints.
unfoldable pub blocked_from : (left i : ℕ) → (ℕ → Bool) → List ℕ
blocked_from zero i blocked = []
blocked_from (suc left) i blocked =
    let later = blocked_from left (i + 1) blocked in if blocked i then i ∷ later else later

unfoldable pub show_blocked_signals : (ℕ → Bool) → List ℕ
show_blocked_signals blocked = blocked_from 64 1 blocked

-- How `handle_err` ends: it returns, or the process exits with a status.
pub data Handled : Type 0 where
  returns : ℤ → Handled
  exits_with : ℕ → Handled

unfoldable pub handle_err : (malloc : Bool) → (fatal : ℕ) → Handled
handle_err malloc fatal =
    if malloc
    then (if fatal == 0 then returns (pos 0) else exits_with fatal)
    else returns (negsuc 0)
