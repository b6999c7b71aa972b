-- ===== src/Checks/InputRun.antt =====
-- M4lab/input.c with whole numbers of one digit for the floating-point ones.
use sp327_alonso_a.Common.{ℕ, ◌-◌, ◌≡◌, refl, Option, none, some, [], ◌∷◌, ◌++◌, leb, if◌then◌else◌}
use sp327_alonso_a.Common.Bytes.{Bytes, codes, is_digit}
use sp327_alonso_a.Input.{Scanner, accepted, not_single, not_numeric, validate_double, input_double}
use sp327_alonso_a.Input.Accept.{AllRefused, no_lines, one_more, input_double-first}

abbrev one_digit : Bytes → Option (ℕ × ℕ)
one_digit [] = none
one_digit (c ∷ s) = if is_digit c then some (c - 48, 1) else none

abbrev digits : Scanner ℕ
digits = record { scan = one_digit; at_least = λ a b. leb b a; at_most = leb }

abbrev line : Bytes → Bytes
line s = s ++ (10 ∷ [])

-- The last byte is taken for the end of the line, so this is accepted.
abbrev unfinished : Bytes
unfinished = codes "5x"

two_refused :
    AllRefused digits 0 9
      (line (codes "five") ∷ line (codes "5 4") ∷ [])
      (not_numeric ∷ not_single ∷ [])
unfolding validate_double
two_refused = one_more refl (one_more refl no_lines)

five-accepted : validate_double digits 0 9 (line (codes "5")) ≡ accepted 5
unfolding validate_double
five-accepted = refl

unfinished-accepted : validate_double digits 0 9 unfinished ≡ accepted 5
unfolding validate_double
unfinished-accepted = refl

input_double-first_example :
    (input_double digits 0 9 (line (codes "five") ∷ line (codes "5 4") ∷ line (codes "5") ∷ [])
      ≡ (not_numeric ∷ not_single ∷ [], some 5))
    × (input_double digits 0 9 (line (codes "five") ∷ line (codes "5 4") ∷ [])
        ≡ (not_numeric ∷ not_single ∷ [], none))
input_double-first_example =
    input_double-first digits 0 9 (line (codes "five") ∷ line (codes "5 4") ∷ [])
      (not_numeric ∷ not_single ∷ []) (line (codes "5")) [] 5 two_refused five-accepted
