-- ===== src/TestInput/Pass.antt =====
-- The tests of `validate_double` pass.
use sp327_alonso_a.Common.{◌≡◌, refl, true, false, none, some, ◌++◌, ◌&&◌}
use sp327_alonso_a.Common.Bytes.{codes}
use sp327_alonso_a.Input.{Scanner, validate_double}
use sp327_alonso_a.TestInput.{
  Constants, newline, test_validate_double_when_vaild, test_validate_double_when_out_of_range,
  test_validate_double_when_not_greater_equal_to, test_validate_double_when_not_a_double,
  test_validate_double_when_its_a_integer, test_validate_double_when_its_multiple_values_are_pass,
}

module _ {D : Type 0} (S : Scanner D) (c : Constants D) where
  open c use {zero_value, ten, five_and_half, two, float_equal}
  open S use {scan, at_least, at_most}

  -- `sscanf` reads the number at the start of each input, and the bytes of it; 5.5 and 2 are in the
  -- range, 15.5 is above it, and each number equals itself. Then the tests pass. That of 0.0 passes
  -- for each lower bound, since the space behind its newline makes it more than one value.
  pub tests_pass_of_input :
      (above zero_read five : D)
      → scan (codes "5.5" ++ newline) ≡ some (five_and_half, 3)
      → scan (codes "15.5" ++ newline) ≡ some (above, 4)
      → scan (codes "0.0" ++ newline ++ codes " ") ≡ some (zero_read, 3)
      → scan (codes "five" ++ newline ++ codes " ") ≡ none
      → scan (codes "2" ++ newline) ≡ some (two, 1)
      → scan (codes "5 4" ++ newline) ≡ some (five, 1)
      → (at_least five_and_half zero_value && at_most five_and_half ten) ≡ true
      → (at_least above zero_value && at_most above ten) ≡ false
      → (at_least two zero_value && at_most two ten) ≡ true
      → ((a : D) → float_equal a a ≡ true)
      → (test_validate_double_when_vaild S c ≡ true)
        × (test_validate_double_when_out_of_range S c ≡ true)
        × (test_validate_double_when_not_greater_equal_to S c ≡ true)
        × (test_validate_double_when_not_a_double S c ≡ true)
        × (test_validate_double_when_its_a_integer S c ≡ true)
        × (test_validate_double_when_its_multiple_values_are_pass S c ≡ true)
  unfolding test_validate_double_when_vaild test_validate_double_when_out_of_range
      test_validate_double_when_not_greater_equal_to test_validate_double_when_not_a_double
      test_validate_double_when_its_a_integer test_validate_double_when_its_multiple_values_are_pass
      validate_double
  tests_pass_of_input above zero_read five s1 s2 s3 s4 s5 s6 r1 r2 r3 eq = (
    rw (s1, r1) (eq five_and_half),
    rw (s2, r2) refl,
    rw s3 refl,
    rw s4 refl,
    rw (s5, r3) (eq two),
    rw s6 refl,
  )
