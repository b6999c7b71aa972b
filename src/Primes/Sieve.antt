-- ===== src/Primes/Sieve.antt =====
-- `simple_primegen` finds the primes.
use native.Mathlib.Nat.{div-add-mod, mod-eq_of_lt}
use mathlib.Core.Path.{subst}
use native.Mathlib.Decide.{dec_lt}
use sp327_alonso_a.Common.{
  ℕ, zero, suc, ◌+◌, ◌-◌, ◌*◌, ◌/◌, ◌%◌, ◌≤◌, ◌<◌, ◌≡◌, ◌≢◌, ◌↔◌, refl, sym, ◌∙◌, ◌⊎◌, Bool, true,
  false, not, ◌&&◌, List, [], ◌∷◌, ◌==◌, if◌then◌else◌, arith,
}
use sp327_alonso_a.Primes.{no_divisor, is_prime}

-- No number between 1 and n divides n.
abbrev pub Prime : ℕ → Type 0
Prime n = (d : ℕ) → 2 ≤ d → d < n → n % d ≢ 0

caught :
    (i j : ℕ) (later : Bool)
    → i % j ≡ 0
    → i ≢ j
    → (if not (i == j) && i % j == 0 then false else later) ≡ true
    → ⊥
caught i j later divides ne h = ground arith

no_divisor_sound :
    (left j i d : ℕ) → no_divisor left j i ≡ true → j ≤ d → d < j + left → d ≢ i → i % d ≢ 0
unfolding no_divisor
no_divisor_sound zero j i d h lo hi ne = absurd (omega arith)
no_divisor_sound (suc left) j i d h lo hi ne = elim (dec_lt j d) [
  | yes above ↦ no_divisor_sound left (j + 1) i d (ground arith) (omega arith) (omega arith) ne
  | no equal ↦
      let e : d ≡ j = omega arith in
      λ divides.
        caught i j (no_divisor left (j + 1) i) (subst (λ (m : ℕ). i % m ≡ 0) e divides)
          (λ same. ne (e ∙ sym same)) h
]

no_divisor_complete : (left j i : ℕ) → 2 ≤ j → 2 ≤ i → Prime i → no_divisor left j i ≡ true
unfolding no_divisor
no_divisor_complete zero j i two pos p = refl
no_divisor_complete (suc left) j i two pos p =
    let later = no_divisor_complete left (j + 1) i (omega arith) pos p in
    elim (dec_lt j i) [
      | yes below ↦ ground (arith, later, p j two below)
      | no above ↦ elim (dec_lt i j) [
        | yes over ↦ ground (arith, later, mod-eq_of_lt over)
        | no equal ↦ ground (arith, later)
      ]
    ]

small_quotient : (d e i : ℕ) → d * e ≡ i → e < 3 → 0 < i → d < i → i ≡ d * 2
small_quotient d zero i same h pos lt = absurd (omega (arith, same))
small_quotient d (suc zero) i same h pos lt = absurd (omega (arith, same))
small_quotient d (suc (suc zero)) i same h pos lt = omega (arith, same)
small_quotient d (suc (suc (suc e))) i same h pos lt = absurd (omega arith)

large_quotient : (d e h : ℕ) → h ≤ d → 3 ≤ e → 3 * h ≤ d * e
large_quotient d e h le three = grind arith

-- A number with a divisor of at least half the limit is even.
has_small_divisor :
    (limit i d : ℕ) → 6 ≤ limit → i ≤ limit → 2 ≤ d → d < i → i % d ≡ 0 → limit / 2 ≤ d → i % 2 ≡ 0
has_small_divisor limit i d six le two lt divides big =
    let e = i / d in
    let same : d * e ≡ i = omega (arith, div-add-mod i d) in
    elim (dec_lt e 3) [
      | yes small ↦ omega (arith, small_quotient d e i same small (omega arith) lt)
      | no large ↦ absurd (omega (arith, large_quotient d e (limit / 2) big (omega arith), same))
    ]

-- With a limit of at least 6, `isprime` stays exactly for the primes.
pub is_prime_iff :
    (limit i : ℕ) → 6 ≤ limit → 2 ≤ i → i ≤ limit → (is_prime limit i ≡ true) ↔ Prime i
unfolding is_prime
is_prime_iff limit i six two le = (
  λ h d lo lt divides. elim (dec_lt d (limit / 2)) [
    | yes small ↦ no_divisor_sound (limit / 2 - 2) 2 i d h lo (omega arith) (omega arith) divides
    | no big ↦
        no_divisor_sound (limit / 2 - 2) 2 i 2 h (omega arith) (omega arith) (omega arith)
          (has_small_divisor limit i d six le lo lt divides (omega arith))
  ],
  λ p. no_divisor_complete (limit / 2 - 2) 2 i (omega arith) two p,
)

abbrev pub In : ℕ → List ℕ → Type 0
In n [] = ⊥
In n (x ∷ xs) = (n ≡ x) ⊎ In n xs
