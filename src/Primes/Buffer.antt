-- ===== src/Primes/Buffer.antt =====
-- The outer loop of `simple_primegen`: its buffer suffices, and it holds all primes of the range.
use native.Mathlib.Decide.{dec_lt}
use mathlib.Core.Path.{subst}
use sp327_alonso_a.Common.{
  ℕ, zero, suc, ◌+◌, ◌-◌, ◌*◌, ◌^◌, ◌≤◌, ◌<◌, ◌≡◌, ◌↔◌, refl, sym, inl, inr, true, false, List, [],
  ◌∷◌, arith, Bool-cases, lt→ltb,
}
use sp327_alonso_a.Common.Run.{ok}
use sp327_alonso_a.Proxy.Port.{length-decimal}
use sp327_alonso_a.Primes.{is_prime, gen_loop, simple_primegen, width, mem_size}
use sp327_alonso_a.Primes.Sieve.{Prime, is_prime_iff, In}

width-le : (i : ℕ) → i < 10 ^ 6 → width i ≤ 8
width-le i h = ground (arith, length-decimal 10 6 i h (omega arith))

-- The numbers that a run of the loop has found.
abbrev Found : (left i limit : ℕ) → List ℕ → Type 0
Found left i limit found =
    ((n : ℕ) → In n found → (i ≤ n) × (n < i + left) × (is_prime limit n ≡ true))
    × ((n : ℕ) → i ≤ n → n < i + left → is_prime limit n ≡ true → In n found)

Found-taken :
    (left i limit : ℕ) (found : List ℕ)
    → is_prime limit i ≡ true
    → Found left (i + 1) limit found
    → Found (suc left) i limit (i ∷ found)
Found-taken left i limit found p (sound, complete) = (
  λ n at. is_found n at,
  λ n lo hi q. elim (dec_lt i n) [
    | yes above ↦ inr (complete n (omega arith) (omega arith) q)
    | no equal ↦ inl (omega arith)
  ],
)
  where
    is_found : (n : ℕ) → In n (i ∷ found) → (i ≤ n) × (n < i + suc left) × (is_prime limit n ≡ true)
    is_found n (inl e) =
        (omega (arith, e), omega (arith, e), subst (λ m. is_prime limit m ≡ true) (sym e) p)
    is_found n (inr at) = let (lo, hi, q) = sound n at in (omega arith, omega arith, q)

Found-skipped :
    (left i limit : ℕ) (found : List ℕ)
    → is_prime limit i ≡ false
    → Found left (i + 1) limit found
    → Found (suc left) i limit found
Found-skipped left i limit found p (sound, complete) = (
  λ n at. let (lo, hi, q) = sound n at in (omega arith, omega arith, q),
  λ n lo hi q. elim (dec_lt i n) [
    | yes above ↦ complete n (omega arith) (omega arith) q
    | no equal ↦
        let e : n ≡ i = omega arith in
        let q' = subst (λ m. is_prime limit m ≡ true) e q in absurd (cc (sym q', p))
  ],
)

gen_loop-Found :
    (left i limit used : ℕ)
    → i + left ≤ 10 ^ 6
    → used + 8 * left < mem_size
    → (found : List ℕ) × (gen_loop left i limit used ≡ ok found) × Found left i limit found
unfolding gen_loop
gen_loop-Found zero i limit used small room =
    ([], refl, (λ n at. absurd at, λ n lo hi q. absurd (omega arith)))
gen_loop-Found (suc left) i limit used small room = elim (Bool-cases (is_prime limit i)) [
  | inl p ↦
      let w = width-le i (omega arith) in
      let (found, run, all) =
        gen_loop-Found left (i + 1) limit (used + width i) (omega arith) (omega (arith, w)) in
      let fits = lt→ltb (used + width i) mem_size (omega (arith, w)) in
      (i ∷ found, rw (p, fits, run), Found-taken left i limit found p all)
  | inr p ↦
      let (found, run, all) = gen_loop-Found left (i + 1) limit used (omega arith) (omega arith) in
      (found, rw (p, run), Found-skipped left i limit found p all)
]

pub simple_primegen_total :
    (start limit : ℕ)
    → start ≤ limit
    → limit < 10 ^ 6
    → 8 * (limit + 1 - start) < mem_size
    → (found : List ℕ) × (simple_primegen start limit ≡ ok found)
unfolding simple_primegen
simple_primegen_total start limit le small room =
    let (found, run, all) =
      gen_loop-Found (limit + 1 - start) start limit 0 (omega arith) (omega arith) in
    (found, ground (arith, run))

-- On a range from at least 2 up to a limit of at least 6 and below 10^6, of so many numbers that
-- the buffer has 8 bytes for each: `simple_primegen` does not overflow its buffer, and it finds
-- exactly the primes of the range.
pub simple_primegen_lem :
    (start limit : ℕ)
    → 2 ≤ start
    → start ≤ limit
    → 6 ≤ limit
    → limit < 10 ^ 6
    → 8 * (limit + 1 - start) < mem_size
    → (found : List ℕ) × (simple_primegen start limit ≡ ok found)
      × ((n : ℕ) → In n found ↔ ((start ≤ n) × (n ≤ limit) × Prime n))
unfolding simple_primegen
simple_primegen_lem start limit two le six small room =
    let (found, run, (sound, complete)) =
      gen_loop-Found (limit + 1 - start) start limit 0 (omega arith) (omega arith) in
    (
      found,
      ground (arith, run),
      λ n. (
        λ at.
            let (lo, hi, q) = sound n at in
            (lo, omega arith, (is_prime_iff limit n six (omega arith) (omega arith)).0 q),
        λ (lo, hi, p).
            complete n lo (omega arith)
              ((is_prime_iff limit n six (omega arith) (omega arith)).1 p),
      ),
    )
