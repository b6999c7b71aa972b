-- ===== src/Shell.antt =====
-- booksrc/ch10/simpsh_v3.c: a shell of single words, over the bytes of its standard input. The
-- wrappers of `fork` and `waitpid` are given by their outcome. simpsh_v1.c and simpsh_v2.c differ in
-- how they wait, and in what they print.
pub mod Script
use sp327_alonso_a.Common.{
  ℕ, zero, suc, ◌≡◌, Bool, true, false, not, Option, none, some, List, [], ◌∷◌, length, drop,
  if◌then◌else◌,
}
use sp327_alonso_a.Common.Bytes.{Bytes, codes, starts_with, c_string, fgets}
use sp327_alonso_a.Common.Run.{Run, ok, fault, exits}

-- `cmdstr[strlen(cmdstr) - 1] = '\0'` on a string that is not empty
unfoldable pub without_last : Bytes → Bytes
without_last [] = []
without_last (c ∷ []) = []
without_last (c ∷ d ∷ s) = c ∷ without_last (d ∷ s)

-- On an empty string the byte before the block is written.
unfoldable pub shortened : Bytes → Bytes → Run (Option (Bytes × Bytes))
shortened [] rest = fault
shortened (c ∷ s) rest = ok (some (without_last (c ∷ s), rest))

-- `getcmd` on what is left of the input: `NULL`, or the command and what is left then. `fgets`
-- reads at most CMD_MAXLEN - 2 bytes.
unfoldable pub getcmd : Bytes → Run (Option (Bytes × Bytes))
getcmd [] = ok none
getcmd (c ∷ input) =
    let read = fgets 126 (c ∷ input) in shortened (c_string read) (drop (length read) (c ∷ input))

-- Whether `fork` and `waitpid` succeed for one command.
pub record Launch : Type 0 where
  pub forks : Bool
  pub waits : Bool

-- How the shell ends: its `quit`, FATAL, a write out of bounds; the last is the end of the fuel.
pub data Ending : Type 0 where
  quits : Ending
  gives_up : Ending
  overruns : Ending
  unfinished : Ending

-- The words that children were started with, in order.
pub record Session : Type 0 where
  pub ran : List Bytes
  pub ending : Ending

abbrev pub ended : Ending → Session
ended e = record { ran = []; ending = e }

abbrev pub is_empty : Bytes → Bool
is_empty [] = true
is_empty (c ∷ s) = false

-- the body of the `switch`
unfoldable pub launched : Bytes → Launch → Session → Session
launched cmd launch later =
    if not launch.forks
    then ended gives_up
    else if not launch.waits
    then record { ran = cmd ∷ []; ending = gives_up }
    else record { ran = cmd ∷ later.ran; ending = later.ending }

-- One round of the loop for a command; `later` is what the rounds behind it do.
unfoldable pub round : Bytes → Launch → Session → Session
round cmd launch later =
    if starts_with (codes "quit") cmd
    then ended quits
    else if is_empty cmd
    then later
    else launched cmd launch later

-- `launches` are the outcomes for the commands that are ahead.
unfoldable pub do_simpsh_loop : (fuel : ℕ) → (ℕ → Launch) → Bytes → Session
do_simpsh_loop zero launches input = ended unfinished
do_simpsh_loop (suc fuel) launches input = elim (getcmd input) [
  | ok none ↦ ended gives_up
  | ok (some (cmd, rest)) ↦
      round cmd (launches 0)
        (do_simpsh_loop fuel (if is_empty cmd then launches else λ i. launches (suc i)) rest)
  | fault ↦ ended overruns
  | exits ↦ ended gives_up
]

unfoldable pub do_simpsh : (calloc : Bool) → (ℕ → Launch) → Bytes → Session
do_simpsh calloc launches input =
    if calloc then do_simpsh_loop (suc (length input)) launches input else ended gives_up

-- `main` with its first argument; `none` is the end behind the help screen.
unfoldable pub simpsh : Option Bytes → (calloc : Bool) → (ℕ → Launch) → Bytes → Option Session
simpsh none calloc launches input = some (do_simpsh calloc launches input)
simpsh (some arg) calloc launches input =
    if starts_with (codes "--help") arg then none else some (do_simpsh calloc launches input)
