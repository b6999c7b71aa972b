-- ===== src/Support/Sleep.antt =====
-- `r_sleep` sleeps for just the time asked for.
use sp327_alonso_a.Common.{ℕ, ◌+◌, ◌-◌, ◌≤◌, ◌≡◌, refl, ap, ◌∙◌, List, [], ◌∷◌, ◌++◌, arith}
use sp327_alonso_a.Common.Int.{pos, negsuc}
use sp327_alonso_a.Support.{Nap, over, interrupted, refused, returned, asleep, after, r_sleep}

-- Interruptions after these times.
abbrev pub interruptions : List ℕ → List Nap
interruptions [] = []
interruptions (t ∷ ts) = interrupted t ∷ interruptions ts

abbrev pub sum : List ℕ → ℕ
sum [] = 0
sum (t ∷ ts) = t + sum ts

ends :
    (ts : List ℕ) (req : ℕ) (naps : List Nap)
    → sum ts ≤ req
    → r_sleep (interruptions ts ++ over ∷ naps) req ≡ returned (pos 0) req
unfolding r_sleep
ends [] req naps h = refl
ends (t ∷ ts) req naps h =
    let e : t + (req - t) ≡ req = omega arith in
    ap (after t) (ends ts (req - t) naps (omega arith)) ∙ ap (returned (pos 0)) e

fails :
    (ts : List ℕ) (req : ℕ) (naps : List Nap)
    → r_sleep (interruptions ts ++ refused ∷ naps) req ≡ returned (negsuc 0) (sum ts)
unfolding r_sleep
fails [] req naps = refl
fails (t ∷ ts) req naps = ap (after t) (fails ts (req - t) naps)

goes_on : (ts : List ℕ) (req : ℕ) → r_sleep (interruptions ts ++ []) req ≡ asleep (sum ts)
unfolding r_sleep
goes_on [] req = refl
goes_on (t ∷ ts) req = ap (after t) (goes_on ts (req - t))

-- However often signals interrupt it within the time asked for, `r_sleep` returns 0 when the last
-- `nanosleep` has slept to its end, and has then slept for just that time. If a `nanosleep` fails
-- for another reason, it returns -1 with the time slept so far, and before either it sleeps on.
pub r_sleep_exact :
    (ts : List ℕ) (req : ℕ) (naps : List Nap)
    → sum ts ≤ req
    → (r_sleep (interruptions ts ++ over ∷ naps) req ≡ returned (pos 0) req)
      × (r_sleep (interruptions ts ++ refused ∷ naps) req ≡ returned (negsuc 0) (sum ts))
      × (r_sleep (interruptions ts ++ []) req ≡ asleep (sum ts))
r_sleep_exact ts req naps h = (ends ts req naps h, fails ts req naps, goes_on ts req)
