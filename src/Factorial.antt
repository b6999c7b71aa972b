-- ===== src/Factorial.antt =====
-- booksrc/ch15/facto.c: each thread computes one factorial in the global `gFactorial` and prints it.
-- Here the section of a thread is one step, as it is with locking. `Threads` has the same threads
-- with each read and write of `gFactorial` as a step, with locking and without.
pub mod Exact
pub mod Threads
pub mod Locked
pub mod Race
use sp327_alonso_a.Common.{
  ℕ, zero, suc, ◌+◌, ◌*◌, ◌%◌, ◌^◌, Bool, true, false, ◌&&◌, List, [], ◌∷◌, ltb, ◌==◌,
  if◌then◌else◌,
}
use sp327_alonso_a.Common.Int.{ℤ, pos, negsuc}
use sp327_alonso_a.Common.Run.{Run, ok, exits, ◌>>=◌}

-- The loop of `factorize`, from `i` on with `left` rounds to go: an `unsigned long long` product.
unfoldable pub factor_loop : (left i gFactorial : ℕ) → ℕ
factor_loop zero i g = g
factor_loop (suc left) i g = factor_loop left (i + 1) (g * i % 2 ^ 64)

unfoldable pub factorize : ℤ → ℕ
factorize (negsuc n) = 1
factorize (pos n) = factor_loop n 1 1

-- A line that a thread prints: its number, `N`, and the value of `gFactorial`.
pub record Line : Type 0 where
  pub datum : ℕ
  pub argument : ℕ
  pub factorial : ℕ

abbrev pub argument_of : ℕ → ℕ
argument_of datum = if datum == 1 then 10 else if datum == 2 then 12 else 0

-- `worker`, whose `lock` and `unlock` say whether the two calls on the mutex succeed
unfoldable pub worker : (lock unlock : Bool) (datum : ℕ) → Run Line
worker lock unlock datum =
    let n = argument_of datum in
    let line : Line = record { datum = datum; argument = n; factorial = factorize (pos n) } in
    if lock && unlock then ok line else exits

-- `main` up to the threads: the number of arguments, `atoi` of the first, and whether
-- `pthread_mutex_init` and `pthread_create` succeed. The result is `gLocking`.
unfoldable pub set_up : (argc : ℕ) (number : ℤ) (mutex_init threads : Bool) → Run Bool
set_up argc (negsuc n) mutex_init threads = exits
set_up argc (pos n) mutex_init threads =
    if ltb argc 2
    then exits
    else if n == 0
    then (if threads then ok false else exits)
    else if n == 1
    then (if mutex_init && threads then ok true else exits)
    else exits

-- The threads in the order in which they get the mutex.
unfoldable pub run_threads : List ℕ → Run (List Line)
run_threads [] = ok []
run_threads (datum ∷ rest) =
    worker true true datum >>= (λ line. run_threads rest >>= λ lines. ok (line ∷ lines))
