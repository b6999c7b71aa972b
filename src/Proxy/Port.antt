-- ===== src/Proxy/Port.antt =====
-- The port as text: what `getaddrinfo` is given is the port that the request named.
use sp327_alonso_a.Common.{
  ℕ, zero, suc, ◌+◌, ◌-◌, ◌*◌, ◌/◌, ◌%◌, ◌^◌, ◌<◌, ◌≤◌, ◌≡◌, refl, ap, ◌∙◌, true, [], ◌∷◌, ◌++◌,
  ltb, arith, inl, inr, Bool-cases, length, length-append, ltb→lt, ◌⊎◌,
}
use sp327_alonso_a.Common.Bytes.{Bytes, read_digits, is_digit, all_of}
use sp327_alonso_a.Common.Int.{pos}
use sp327_alonso_a.Proxy.Connect.{decimal, port_string}
use sp327_alonso_a.Proxy.Scan.{take-all, all_of-head, all_of-tail, all_of-append}

pow_suc : (k : ℕ) → 10 ^ suc k ≡ 10 * 10 ^ k
pow_suc k = omega arith

pow_pos : (k : ℕ) → 1 ≤ 10 ^ k
pow_pos zero = omega arith
pow_pos (suc k) = omega (arith, pow_pos k, pow_suc k)

is_digit-add : (d : ℕ) → d < 10 → is_digit (48 + d) ≡ true
is_digit-add d lt = ground arith

read_digits-append :
    (ds : Bytes) (acc d : ℕ)
    → all_of is_digit ds ≡ true
    → d < 10
    → read_digits acc (ds ++ ((48 + d) ∷ [])) ≡ 10 * read_digits acc ds + d
read_digits-append [] acc d h lt = ground arith
read_digits-append (c ∷ ds) acc d h lt =
    rw (all_of-head is_digit c ds h)
      (read_digits-append ds (10 * acc + (c - 48)) d (all_of-tail is_digit c ds h) lt)

decimal-cases :
    (fuel n : ℕ)
    → ((n < 10) × (decimal (suc fuel) n ≡ (48 + n) ∷ []))
      ⊎ ((10 ≤ n) × (decimal (suc fuel) n ≡ decimal fuel (n / 10) ++ ((48 + n % 10) ∷ [])))
unfolding decimal
decimal-cases fuel n = elim (Bool-cases (ltb n 10)) [
  | inl below ↦ inl (omega (arith, ltb→lt n 10 below), rw below)
  | inr above ↦ inr (ground (arith, above), rw above)
]

decimal-digits : (fuel n : ℕ) → all_of is_digit (decimal fuel n) ≡ true
unfolding decimal
decimal-digits zero n = refl
decimal-digits (suc fuel) n = elim (decimal-cases fuel n) [
  | inl (lt, eq1) ↦ rw eq1 (rw (is_digit-add n lt))
  | inr (ge, eq1) ↦ rw eq1 (
      all_of-append is_digit (decimal fuel (n / 10)) ((48 + n % 10) ∷ [])
        (decimal-digits fuel (n / 10)) (rw (is_digit-add (n % 10) (omega arith))))
]

pub length-decimal : (fuel k n : ℕ) → n < 10 ^ k → 1 ≤ k → length (decimal fuel n) ≤ k
unfolding decimal
length-decimal zero k n lt some_digit = omega arith
length-decimal (suc fuel) zero n lt some_digit = absurd (omega arith)
length-decimal (suc fuel) (suc zero) n lt some_digit = elim (decimal-cases fuel n) [
  | inl (small, eq1) ↦ rw eq1 (omega arith)
  | inr (ge, eq1) ↦ absurd (omega arith)
]
length-decimal (suc fuel) (suc (suc k)) n lt some_digit = elim (decimal-cases fuel n) [
  | inl (small, eq1) ↦ rw eq1 (omega arith)
  | inr (ge, eq1) ↦
      let front =
        length-decimal fuel (suc k) (n / 10) (omega (arith, pow_suc (suc k))) (omega arith) in
      rw eq1 (omega (arith, length-append (decimal fuel (n / 10)) ((48 + n % 10) ∷ []), front))
]

-- A number of `k + 1` digits is printed with as many.
pub lt-length-decimal : (fuel k n : ℕ) → 10 ^ k ≤ n → n < 10 ^ fuel → k < length (decimal fuel n)
unfolding decimal
lt-length-decimal zero k n low lt = absurd (grind (arith, pow_pos k))
lt-length-decimal (suc fuel) zero n low lt = elim (decimal-cases fuel n) [
  | inl (small, eq1) ↦ rw eq1 (omega arith)
  | inr (ge, eq1) ↦
      rw eq1 (omega (arith, length-append (decimal fuel (n / 10)) ((48 + n % 10) ∷ [])))
]
lt-length-decimal (suc fuel) (suc k) n low lt = elim (decimal-cases fuel n) [
  | inl (small, eq1) ↦ absurd (omega (arith, pow_suc k, pow_pos k))
  | inr (ge, eq1) ↦
      let front =
        lt-length-decimal fuel k (n / 10) (omega (arith, pow_suc k))
          (omega (arith, pow_suc fuel)) in
      rw eq1 (omega (arith, length-append (decimal fuel (n / 10)) ((48 + n % 10) ∷ []), front))
]

decimal-read : (fuel n : ℕ) → n < 10 ^ fuel → read_digits 0 (decimal fuel n) ≡ n
unfolding decimal
decimal-read zero n lt = omega arith
decimal-read (suc fuel) n lt = elim (decimal-cases fuel n) [
  | inl (small, eq1) ↦ rw eq1 (ground (arith, is_digit-add n small))
  | inr (ge, eq1) ↦
      let front = decimal-read fuel (n / 10) (omega (arith, pow_suc fuel)) in
      rw eq1 (
        omega (
          arith,
          read_digits-append (decimal fuel (n / 10)) 0 (n % 10) (decimal-digits fuel (n / 10))
              (omega arith),
          front,
        ))
]

-- A port below 100,000, so every port of TCP, is handed to `getaddrinfo` as text that reads back
-- as the same number: the 6 bytes of `port_str` cut nothing off.
pub port_string-read : (n : ℕ) → n < 100000 → read_digits 0 (port_string (pos n)) ≡ n
unfolding port_string
port_string-read n lt =
    ap (read_digits 0) (take-all 5 (decimal 10 n) (length-decimal 10 5 n lt (omega arith)))
    ∙ decimal-read 10 n (omega arith)
