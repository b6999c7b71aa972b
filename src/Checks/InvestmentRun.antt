-- ===== src/Checks/InvestmentRun.antt =====
-- m2/future_value.c with whole numbers for the floating-point ones.
use sp327_alonso_a.Common.{ℕ, ◌+◌, ◌-◌, ◌*◌, ◌/◌, ◌≡◌, refl, arith, false, [], ◌∷◌}
use sp327_alonso_a.Common.Int.{pos}
use sp327_alonso_a.Common.Bytes.{codes}
use sp327_alonso_a.Investment.{Floating, ok, exits, with_years, main}
use sp327_alonso_a.Investment.Growth.{calculation-table}

abbrev whole : Floating ℕ
whole = record {
  add = λ a b. a + b;
  sub = λ a b. a - b;
  mul = λ a b. a * b;
  div = λ a b. a / b;
  from_long = λ n. n;
}

-- 100 percent a month
calculation-table_example :
    with_years whole 1 1200 (pos 2) ≡ ok ((1, 8178, 8190) ∷ (2, 33554406, 33554430) ∷ [])
calculation-table_example = calculation-table whole 1 1200 1 (omega arith)

-- an argument with something behind the number
trailing_garbage :
    main whole 4
      (record { value = 1; errno = false; endptr = codes "x" })
      (record { value = 5; errno = false; endptr = [] })
      (record { value = pos 2; errno = false; endptr = [] })
    ≡ exits
unfolding main
trailing_garbage = refl
