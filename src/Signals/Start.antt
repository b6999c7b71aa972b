-- ===== src/Signals/Start.antt =====
-- M8/parent.c and M8/child.c, `main`: the handlers are installed, and the parent makes the child.
-- What the system calls return is an argument.
use sp327_alonso_a.Common.{ℕ, ◌+◌, Bool, false, List, [], ◌∷◌, ◌==◌, if◌then◌else◌}
use sp327_alonso_a.Common.Int.{ℤ, pos, negsuc}

-- Two integers are the same.
abbrev pub equal : ℤ → ℤ → Bool
equal (pos m) (pos n) = m == n
equal (pos m) (negsuc n) = false
equal (negsuc m) (pos n) = false
equal (negsuc m) (negsuc n) = m == n

abbrev pub minus_one : ℤ
minus_one = negsuc 0

-- The child before its loop: it exits, or runs with the handlers whose `sigaction` returned 0.
pub data Child : Type 0 where
  exited : Child
  runs : (sigtstp sigusr2 sigterm : Bool) → Child

-- `stop`, `usr1` and `usr2` are what the three calls of `sigaction` return. The third is compared
-- with 1.
unfoldable pub child_start : (stop usr1 usr2 : ℤ) → Child
child_start stop usr1 usr2 =
    if equal stop minus_one
    then exited
    else if equal usr1 minus_one
    then exited
    else if equal usr2 (pos 1)
    then exited
    else runs (equal stop (pos 0)) (equal usr1 (pos 0)) (equal usr2 (pos 0))

-- How `main` of the parent ends: by `exit`, in the child by `execl`, or behind its loop, which has
-- printed "Working" so many times, or it still waits.
pub data Parent : Type 0 where
  failed : Parent
  child_program : Parent
  left_loop : (rounds : ℕ) → Parent
  still_waits : (rounds : ℕ) → Parent

-- The results of `waitpid` one after the other, behind `rounds` rounds.
unfoldable pub wait_loop : List ℤ → (rounds : ℕ) → Parent
wait_loop [] rounds = still_waits rounds
wait_loop (w ∷ ws) rounds =
    let more = wait_loop ws (rounds + 1) in if equal w (pos 0) then more else left_loop rounds

unfoldable pub parent_main : (chld usr1 fork execl : ℤ) → List ℤ → Parent
unfolding wait_loop
parent_main chld usr1 fork execl waits =
    if equal chld minus_one
    then failed
    else if equal usr1 minus_one
    then failed
    else if equal fork minus_one
    then failed
    else if equal fork (pos 0)
    then (if equal execl minus_one then failed else child_program)
    else wait_loop waits 0
