-- ===== src/Tasks.antt =====
-- M9Lab/M9/tasks.c: the work functions, and the shared log file that they append to.
pub mod Laws
use sp327_alonso_a.Common.{
  ℕ, zero, suc, ◌+◌, ◌*◌, ◌/◌, Bool, true, false, List, [], ◌∷◌, ◌++◌, if◌then◌else◌,
}
use sp327_alonso_a.Common.Int.{ℤ, pos, pos_part}
use Prim.Native.String.{String}

-- `struct timespec`, with members that are not negative
pub record Timespec : Type 0 where
  pub tv_sec : ℕ
  pub tv_nsec : ℕ

-- Formatted text: what stands in the format, and the numbers put in.
pub data Piece : Type 0 where
  lit : String → Piece
  num : ℤ → Piece

abbrev pub Text : Type 0
Text = List Piece

-- The log file task_log.txt, a line to an entry (its time stamp and thread id left out), the state
-- of `log_mutex`, and the memory blocks that the tasks have freed.
pub record Log : Type 0 where
  pub lines : List Text
  pub log_mutex : Bool
  pub freed : List ℕ

-- `opened` says whether `fopen` succeeds.
unfoldable pub log_message : (opened : Bool) → Text → Log → Log
log_message opened message l =
    let locked = record l { log_mutex = true } in
    let written =
      if opened then record locked { lines = locked.lines ++ message ∷ [] } else locked in
    record written { log_mutex = false }

-- `arg` is the address of the argument block.
unfoldable pub write_log : Bool → (arg : ℕ) → Text → Log → Log
unfolding log_message
write_log opened arg msg l =
    let l' = log_message opened msg l in record l' { freed = arg ∷ l'.freed }

-- for (int i = 0; i < n; i++) sum += i, with `k` rounds left
unfoldable pub sum_loop : (k i sum : ℕ) → ℕ
sum_loop zero i sum = sum
sum_loop (suc k) i sum = sum_loop k (i + 1) (sum + i)

unfoldable pub sum_below : ℤ → ℕ
unfolding sum_loop
sum_below n = sum_loop (pos_part n) 0 0

unfoldable pub compute_sum : Bool → (arg : ℕ) → ℤ → Log → Log
unfolding log_message sum_below
compute_sum opened arg n l =
    let message : Text =
      lit "Sum of numbers < " ∷ num n ∷ lit " is " ∷ num (pos (sum_below n)) ∷ [] in
    let l' = log_message opened message l in record l' { freed = arg ∷ l'.freed }

-- The pause itself, `nanosleep`, changes nothing here.
unfoldable pub delay_task : Bool → (arg : ℕ) → Timespec → Log → Log
unfolding log_message
delay_task opened arg ts l =
    let message : Text =
      lit "Simulated delay of "
      ∷ num (pos ts.tv_sec)
      ∷ lit " seconds and "
      ∷ num (pos (ts.tv_nsec / 1000000))
      ∷ lit " milliseconds."
      ∷ [] in
    let l' = log_message opened message l in record l' { freed = arg ∷ l'.freed }
