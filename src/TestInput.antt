-- ===== src/TestInput.antt =====
-- M4lab/test_input.c: the unit tests of `validate_double`. A test is whether its assertions hold. The
-- numbers and their comparison by cmocka are arguments, as in the model of M4lab/input.c.
pub mod Pass
use sp327_alonso_a.Common.{Bool, true, false, not, List, [], ◌∷◌, ◌++◌}
use sp327_alonso_a.Common.Bytes.{Bytes, codes}
use sp327_alonso_a.Input.{
  Scanner, Message, out_of_range, not_single, not_numeric, Verdict, accepted, refused,
  validate_double,
}

-- The numbers that the tests write, and `assert_float_equal` without a tolerance.
pub record Constants (D : Type 0) : Type 0 where
  pub zero_value : D
  pub ten : D
  pub five_and_half : D
  pub two : D
  pub float_equal : D → D → Bool

abbrev pub newline : Bytes
newline = 10 ∷ []

-- Each message of `validate_double` has its own text.
abbrev pub same_message : Message → Message → Bool
same_message out_of_range out_of_range = true
same_message not_single not_single = true
same_message not_numeric not_numeric = true
same_message out_of_range not_single = false
same_message out_of_range not_numeric = false
same_message not_single out_of_range = false
same_message not_single not_numeric = false
same_message not_numeric out_of_range = false
same_message not_numeric not_single = false

module _ {D : Type 0} (S : Scanner D) (c : Constants D) where
  open c use {zero_value, ten, five_and_half, two, float_equal}

  -- assert_true(result), and the number that is stored.
  abbrev pub accepted_as : D → Verdict D → Bool
  accepted_as value (accepted number) = float_equal number value
  accepted_as value (refused m) = false

  -- assert_false(result)
  abbrev pub is_refused : Verdict D → Bool
  is_refused (accepted number) = false
  is_refused (refused m) = true

  -- assert_false(result), and the text in `err_msg`.
  abbrev pub refused_with : Message → Verdict D → Bool
  refused_with message (accepted number) = false
  refused_with message (refused m) = same_message m message

  unfoldable pub test_validate_double_when_vaild : Bool
  unfolding validate_double
  test_validate_double_when_vaild =
      accepted_as five_and_half (validate_double S zero_value ten (codes "5.5" ++ newline))

  unfoldable pub test_validate_double_when_out_of_range : Bool
  unfolding validate_double
  test_validate_double_when_out_of_range =
      refused_with out_of_range (validate_double S zero_value ten (codes "15.5" ++ newline))

  -- There is a space behind the newline.
  unfoldable pub test_validate_double_when_not_greater_equal_to : Bool
  unfolding validate_double
  test_validate_double_when_not_greater_equal_to =
      is_refused (validate_double S zero_value ten (codes "0.0" ++ newline ++ codes " "))

  unfoldable pub test_validate_double_when_not_a_double : Bool
  unfolding validate_double
  test_validate_double_when_not_a_double =
      refused_with not_numeric
        (validate_double S zero_value ten (codes "five" ++ newline ++ codes " "))

  unfoldable pub test_validate_double_when_its_a_integer : Bool
  unfolding validate_double
  test_validate_double_when_its_a_integer =
      accepted_as two (validate_double S zero_value ten (codes "2" ++ newline))

  unfoldable pub test_validate_double_when_its_multiple_values_are_pass : Bool
  unfolding validate_double
  test_validate_double_when_its_multiple_values_are_pass =
      refused_with not_single (validate_double S zero_value ten (codes "5 4" ++ newline))
