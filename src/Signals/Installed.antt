-- ===== src/Signals/Installed.antt =====
-- The handlers with which the child of M8 runs.
use sp327_alonso_a.Common.{◌≡◌, refl, Bool, true, false, if◌then◌else◌}
use sp327_alonso_a.Common.Int.{ℤ, pos}
use sp327_alonso_a.Signals.Start.{exited, runs, child_start, minus_one}

-- What `sigaction` returns.
abbrev pub result : Bool → ℤ
result true = pos 0
result false = minus_one

-- `sigaction` returns 0 or -1. The child exits exactly if one of its first two calls fails; if only
-- the third does, it goes on, and runs without its handler of SIGTERM.
pub child_start_lem :
    (stop usr1 usr2 : Bool)
    → child_start (result stop) (result usr1) (result usr2)
      ≡ (if stop then (if usr1 then runs true true usr2 else exited) else exited)
unfolding child_start
child_start_lem true true true = refl
child_start_lem true true false = refl
child_start_lem true false true = refl
child_start_lem true false false = refl
child_start_lem false usr1 usr2 = refl
