-- ===== src/Factorial/Race.antt =====
-- Without the mutex, a thread of facto.c prints what the other has stored.
use mathlib.Core.Path.{subst}
use sp327_alonso_a.Common.{ℕ, zero, suc, ◌+◌, ◌≤◌, ◌<◌, ◌≢◌, refl, false, arith}
use sp327_alonso_a.Factorial.{factor_loop, factorize}
use sp327_alonso_a.Factorial.Exact.{fact, fact-suc, fact_pos, factorize-fact}
use sp327_alonso_a.Factorial.Threads.{
  Phase, looping, finished, lock, reset, multiply, store, print, unlock, System, by_one, by_two,
  launched, Reach, here, next,
}

abbrev pub state : ℕ → Phase → Phase → System
state g p q = record { shared = record { factorial = g; locked = false }; one = p; two = q }

-- The loop of either thread, while the other stands still, is the loop of `factorize`.
loop_one :
    {m n : ℕ} {q : Phase} (left i g : ℕ)
    → Reach false m n launched (state g (looping left i) q)
    → (j : ℕ) × Reach false m n launched (state (factor_loop left i g) (looping zero j) q)
unfolding factor_loop
loop_one zero i g run = (i, run)
loop_one (suc left) i g run =
    loop_one left (i + 1) _ (next (next run (by_one multiply)) (by_one store))

loop_two :
    {m n : ℕ} {p : Phase} (left i g : ℕ)
    → Reach false m n launched (state g p (looping left i))
    → (j : ℕ) × Reach false m n launched (state (factor_loop left i g) p (looping zero j))
unfolding factor_loop
loop_two zero i g run = (i, run)
loop_two (suc left) i g run =
    loop_two left (i + 1) _ (next (next run (by_two multiply)) (by_two store))

fact_large : (m : ℕ) → 2 ≤ m → 1 < fact m
fact_large zero h = absurd (omega arith)
fact_large (suc m) h = grind (arith, fact-suc m, fact_pos m)

-- Both threads have left their loops or not begun: the second resets, and the first prints.
raced : {m n : ℕ} → Reach false m n launched (state 1 (finished 1) (looping n 1))
raced {m} {n} =
    let locked = next (next here (by_one (lock refl))) (by_one reset) in
    let (j, looped) = loop_one m 1 1 locked in
    next (next (next (next looped (by_two (lock refl))) (by_two reset)) (by_one print))
      (by_one unlock)

-- Without the mutex, for a first number of 2 to any and a second of at most 20, there is a run in
-- which the second thread sets `gFactorial` to 1 just before the first prints: both threads finish,
-- the first has printed 1, which is not the factorial of its number, and the second the factorial
-- of its own.
pub unlocked_race :
    (m n : ℕ)
    → 2 ≤ m
    → n ≤ 20
    → Reach false m n launched (state (fact n) (finished 1) (finished (fact n))) × (1 ≢ fact m)
unfolding factorize
unlocked_race m n h le =
    let (j, looped) = loop_two n 1 1 raced in
    (
      subst (λ g. Reach false m n launched (state g (finished 1) (finished g)))
          (factorize-fact n le) (next (next looped (by_two print)) (by_two unlock)),
      λ e. absurd (omega (arith, fact_large m h)),
    )
