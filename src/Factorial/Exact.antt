-- ===== src/Factorial/Exact.antt =====
-- `factorize` computes the factorial, as far as 64 bits hold it.
use native.Mathlib.Nat.{mod-eq_of_lt}
use sp327_alonso_a.Common.{
  ℕ, zero, suc, ◌+◌, ◌-◌, ◌*◌, ◌%◌, ◌^◌, ◌≤◌, ◌<◌, ◌≡◌, refl, ◌∙◌, ap, arith, List, [], ◌∷◌, map,
}
use sp327_alonso_a.Common.Int.{pos}
use sp327_alonso_a.Common.Run.{ok}
use sp327_alonso_a.Factorial.{factor_loop, factorize, Line, argument_of, worker, run_threads}

pub fact : ℕ → ℕ
fact zero = 1
fact (suc n) = suc n * fact n

pub fact_zero : fact 0 ≡ 1
unfolding fact
fact_zero = refl

pub fact-suc : (n : ℕ) → fact (suc n) ≡ suc n * fact n
unfolding fact
fact-suc n = refl

pub fact_pos : (n : ℕ) → 1 ≤ fact n
unfolding fact
fact_pos zero = omega arith
fact_pos (suc n) = grind (arith, fact_pos n)

fact_mono : (d n : ℕ) → fact n ≤ fact (d + n)
unfolding fact
fact_mono zero n = let e : 0 + n ≡ n = omega arith in rw e (omega arith)
fact_mono (suc d) n =
    let e : suc d + n ≡ suc (d + n) = omega arith in rw e (grind (arith, fact_mono d n))

fact_of_20 : fact 20 ≡ 2432902008176640000
unfolding fact
fact_of_20 = refl

pub fact_below : (n : ℕ) → n ≤ 20 → fact n < 2 ^ 64
fact_below n h =
    let up = fact_mono (20 - n) n in
    let e : 20 - n + n ≡ 20 = omega arith in omega (arith, up, ap fact e, fact_of_20)

pub next_product : (i : ℕ) → fact (suc i) < 2 ^ 64 → fact i * (i + 1) % 2 ^ 64 ≡ fact (suc i)
unfolding fact
next_product i h = let e : fact i * (i + 1) ≡ suc i * fact i = grind arith in rw e (mod-eq_of_lt h)

-- As long as the factorial fits, no product wraps.
factor_loop-fact :
    (left i : ℕ) → fact (left + i) < 2 ^ 64 → factor_loop left (i + 1) (fact i) ≡ fact (left + i)
unfolding factor_loop
factor_loop-fact zero i h = let e : 0 + i ≡ i = omega arith in rw e refl
factor_loop-fact (suc left) i h =
    let e : suc left + i ≡ left + suc i = omega arith in
    let e' : suc i + 1 ≡ i + 1 + 1 = omega arith in
    let fits : fact (left + suc i) < 2 ^ 64 = rw e at h in
    rw (next_product i (omega (arith, fact_mono left (suc i), fits)), e, ← e')
      (factor_loop-fact left (suc i) fits)

pub factorize-fact : (n : ℕ) → n ≤ 20 → factorize (pos n) ≡ fact n
unfolding factorize fact
factorize-fact n h =
    let e : n + 0 ≡ n = omega arith in
    let fits : fact (n + 0) < 2 ^ 64 = rw e (fact_below n h) in
    factor_loop-fact n 0 fits ∙ ap fact e

abbrev pub line_of : ℕ → Line
line_of datum = record {
  datum = datum;
  argument = argument_of datum;
  factorial = fact (argument_of datum);
}

argument_of-le : (datum : ℕ) → argument_of datum ≤ 20
argument_of-le datum = ground arith

-- With locking and a mutex whose calls succeed, in whatever order any number of threads run, each
-- prints the factorial of its argument: 10! for thread 1, 12! for thread 2, and 0! for others. No
-- product wraps, and nothing of a thread before is left in `gFactorial`.
pub run_threads-fact : (order : List ℕ) → run_threads order ≡ ok (map line_of order)
unfolding run_threads worker
run_threads-fact [] = refl
run_threads-fact (datum ∷ rest) =
    ground (arith, factorize-fact (argument_of datum) (argument_of-le datum), run_threads-fact rest)
