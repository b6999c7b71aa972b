-- ===== src/Input/Accept.antt =====
-- Which inputs are accepted, and what the loop over them returns.
use sp327_alonso_a.Common.{
  ℕ, suc, ◌≡◌, refl, ap, ◌∙◌, ◌↔◌, inl, inr, true, Option, none, some, List, [], ◌∷◌, ◌++◌, ◌==◌,
  length, arith, Bool-cases, ==_iff,
}
use mathlib.Core.Path.{subst}
use sp327_alonso_a.Common.Bytes.{Bytes}
use sp327_alonso_a.Input.{
  Scanner, Message, accepted, refused, checked, validate_double, answer, input_double,
}

module _ {D : Type 0} (S : Scanner D) (low high : D) where
  open S use {scan, at_least, at_most}

  checked-accepted :
      (input : Bytes) (found : Option (D × ℕ)) (v : D)
      → checked S low high input found ≡ accepted v
      → (k : ℕ) × (found ≡ some (v, k))
        × (suc k ≡ length input)
        × (at_least v low ≡ true)
        × (at_most v high ≡ true)
  checked-accepted input none v h = cc
  checked-accepted input (some (w, k)) v h = elim (Bool-cases (suc k == length input)) [
    | inl whole ↦ elim (Bool-cases (at_least w low)) [
      | inl above ↦ elim (Bool-cases (at_most w high)) [
        | inl below ↦
            let read : accepted w ≡ accepted v = rw (whole, above, below) at h in
            let same : w ≡ v = cc in
            (
              k,
              ap (λ x. some (x, k)) same,
              (==_iff (suc k) (length input)).0 whole,
              subst (λ x. at_least x low ≡ true) same above,
              subst (λ x. at_most x high ≡ true) same below,
            )
        | inr over ↦ ground (arith, h, whole, above, over)
      ]
      | inr under ↦ ground (arith, h, whole, under)
    ]
    | inr part ↦ ground (arith, h, part)
  ]

  -- If `validate_double` accepts an input with a number, that number has been scanned from all of
  -- the input but its last byte, whatever that byte is, and it lies between the limits, both
  -- included; and the other way round.
  pub validate_double_iff :
      (input : Bytes) (v : D)
      → (validate_double S low high input ≡ accepted v) ↔ (
          (k : ℕ) × (scan input ≡ some (v, k))
          × (suc k ≡ length input)
          × (at_least v low ≡ true)
          × (at_most v high ≡ true))
  unfolding validate_double
  validate_double_iff input v = (
    λ h. checked-accepted input (scan input) v h,
    λ (k, found, whole, above, below).
        ap (checked S low high input) found
        ∙ rw ((==_iff (suc k) (length input)).1 whole, above, below) refl,
  )

  -- Every line before is refused, for the reasons given.
  pub data AllRefused : List Bytes → List Message → Type 0 where
    no_lines : AllRefused [] []
    one_more :
        {line : Bytes} {m : Message} {lines : List Bytes} {ms : List Message}
        → validate_double S low high line ≡ refused m
        → AllRefused lines ms
        → AllRefused (line ∷ lines) (m ∷ ms)

  -- Behind lines that are refused, the first line that is accepted ends the loop: its number is
  -- stored, one message has been printed for each line before, and no further line is read. If all
  -- lines are refused, one message is printed for each of them, and the result is -1.
  pub input_double-first :
      (before : List Bytes) (ms : List Message) (line : Bytes) (rest : List Bytes) (v : D)
      → AllRefused before ms
      → validate_double S low high line ≡ accepted v
      → (input_double S low high (before ++ (line ∷ rest)) ≡ (ms, some v))
        × (input_double S low high before ≡ (ms, none))
  unfolding input_double
  input_double-first [] [] line rest v no_lines good =
      (ap (λ a. answer S low high a (input_double S low high rest)) good, refl)
  input_double-first [] (m ∷ ms) line rest v none_such good = elim none_such [ ]
  input_double-first (b ∷ before) [] line rest v none_such good = elim none_such [ ]
  input_double-first (b ∷ before) (m ∷ ms) line rest v (one_more bad more) good =
      let (found, ended) = input_double-first before ms line rest v more good in
      (rw (bad, found) refl, rw (bad, ended) refl)
