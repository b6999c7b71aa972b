-- ===== src/Tasks/Laws.antt =====
-- What the tasks log, and what they leave behind.
use sp327_alonso_a.Common.{
  ℕ, zero, suc, ◌+◌, ◌-◌, ◌*◌, ◌^◌, ◌≤◌, ◌<◌, ◌≡◌, refl, ◌⊎◌, inl, inr, Bool, true, false, List, [],
  ◌∷◌, arith, length, length-append, if◌then◌else◌,
}
use sp327_alonso_a.Common.Int.{ℤ, pos_part}
use sp327_alonso_a.Queue.Memory.{int_max}
use sp327_alonso_a.Tasks.{
  Timespec, Text, Log, log_message, write_log, sum_loop, sum_below, compute_sum, delay_task,
}

sum_loop-closed : (k i sum : ℕ) → 2 * sum_loop k i sum + k ≡ 2 * sum + 2 * (k * i) + k * k
unfolding sum_loop
sum_loop-closed zero i sum = omega arith
sum_loop-closed (suc k) i sum = omega (arith, sum_loop-closed k (i + 1) (sum + i))

half_square : (k s : ℕ) → 2 * s + k ≡ k * k → 2 * s ≡ k * (k - 1)
half_square zero s h = omega arith
half_square (suc k) s h = let e : suc k - 1 ≡ k = omega arith in rw e (omega arith)

square_le : (k m : ℕ) → k ≤ m → k * k ≤ m * m
square_le k m h = grind arith

-- For every `int` n the loop of `compute_sum` adds up the numbers from 0 to n - 1 (none if n is
-- negative): twice the sum is n (n - 1), and the sum fits into a 64-bit `long`.
pub sum_below-closed :
    (n : ℤ)
    → pos_part n ≤ int_max
    → (2 * sum_below n ≡ pos_part n * (pos_part n - 1)) × (sum_below n < 2 ^ 63)
unfolding sum_below
sum_below-closed n fits =
    let k = pos_part n in
    let closed : 2 * sum_loop k 0 0 + k ≡ k * k = omega (arith, sum_loop-closed k 0 0) in
    (half_square k (sum_loop k 0 0) closed, omega (arith, square_le k int_max fits))

one_line :
    (opened : Bool) (arg : ℕ) (l : Log) (message : Text)
    → ((log_message opened message l).log_mutex ≡ false)
      × ◌≡◌ {A = List ℕ} (arg ∷ (log_message opened message l).freed) (arg ∷ l.freed)
      × (length (log_message opened message l).lines ≡ length l.lines + (if opened then 1 else 0))
unfolding log_message
one_line true arg l message = (refl, refl, omega (arith, length-append l.lines (message ∷ [])))
one_line false arg l message = (refl, refl, omega arith)

-- Each task gives `log_mutex` back and frees its argument, and where the log file opens it adds
-- one line there.
pub tasks_log :
    (opened : Bool) (arg : ℕ) (msg : Text) (n : ℤ) (ts : Timespec) (l m : Log)
    → (m ≡ write_log opened arg msg l)
      ⊎ (m ≡ compute_sum opened arg n l)
      ⊎ (m ≡ delay_task opened arg ts l)
    → (m.log_mutex ≡ false)
      × (m.freed ≡ arg ∷ l.freed)
      × (length m.lines ≡ length l.lines + (if opened then 1 else 0))
unfolding write_log compute_sum delay_task
tasks_log opened arg msg n ts l m (inl h) = rw h (one_line opened arg l msg)
tasks_log opened arg msg n ts l m (inr (inl h)) = rw h (one_line opened arg l _)
tasks_log opened arg msg n ts l m (inr (inr h)) = rw h (one_line opened arg l _)
