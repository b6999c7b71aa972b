-- ===== src/Input.antt =====
-- M4lab/input.c: reading a number from the terminal until one is acceptable. The numbers of type
-- `double`, their comparisons and `sscanf` are an argument.
pub mod Accept
use sp327_alonso_a.Common.{
  ℕ, suc, Bool, true, false, ◌&&◌, Option, none, some, List, [], ◌∷◌, ◌==◌, if◌then◌else◌, length,
}
use sp327_alonso_a.Common.Bytes.{Bytes}

-- `scan` is sscanf(input, "%lf%n", &value, &scanned_chars): both numbers, if it returns 1.
pub record Scanner (D : Type 0) : Type 0 where
  pub scan : Bytes → Option (D × ℕ)
  pub at_least : D → D → Bool
  pub at_most : D → D → Bool

-- The three messages of `validate_double`.
pub data Message : Type 0 where
  out_of_range : Message
  not_single : Message
  not_numeric : Message

pub data Verdict (D : Type 0) : Type 0 where
  accepted : D → Verdict D
  refused : Message → Verdict D

module _ {D : Type 0} (S : Scanner D) (low high : D) where
  open S use {scan, at_least, at_most}

  -- `scanned_chars == strlen(input) - 1`, which no length of 0 satisfies
  abbrev pub checked : Bytes → Option (D × ℕ) → Verdict D
  checked input none = refused not_numeric
  checked input (some (value, scanned_chars)) =
      if suc scanned_chars == length input
      then (if at_least value low && at_most value high
          then accepted value
          else refused out_of_range)
      else refused not_single

  unfoldable pub validate_double : Bytes → Verdict D
  validate_double input = checked input (scan input)

  -- The messages printed and the number stored, `none` where -1 is returned.
  abbrev pub answer : Verdict D → List Message × Option D → List Message × Option D
  answer (accepted value) later = ([], some value)
  answer (refused m) later = (m ∷ later.0, later.1)

  -- `input_double` on the lines that `getline` gives before the end of the input
  unfoldable pub input_double : List Bytes → List Message × Option D
  unfolding validate_double
  input_double [] = ([], none)
  input_double (line ∷ rest) = answer (validate_double line) (input_double rest)
