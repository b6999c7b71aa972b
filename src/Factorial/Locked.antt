-- ===== src/Factorial/Locked.antt =====
-- With the mutex, the two threads of facto.c print what they should, however they interleave.
use sp327_alonso_a.Common.{
  ℕ, suc, ◌+◌, ◌*◌, ◌%◌, ◌^◌, ◌≤◌, ◌≡◌, refl, sym, ap, ◌∙◌, List, [], ◌∷◌, Bool, true, false, ◌&&◌,
  ◌||◌, arith,
}
use sp327_alonso_a.Factorial.Exact.{fact, fact_zero, fact_below, next_product}
use sp327_alonso_a.Factorial.Threads.{
  Phase, waiting, resetting, looping, multiplied, printed, finished, Shared, Local, lock, reset,
  multiply, store, print, unlock, System, by_one, by_two, launched, Reach, here, next,
}

abbrev pub critical : Phase → Bool
critical waiting = false
critical resetting = true
critical (looping left i) = true
critical (multiplied left i v) = true
critical (printed v) = true
critical (finished v) = false

-- How far a thread is with the factorial of `n`, when `gFactorial` is `g`.
abbrev Right : ℕ → Phase → ℕ → Type 0
Right n (looping left i) g = (j : ℕ) × (i ≡ suc j) × (left + j ≡ n) × (g ≡ fact j)
Right n (multiplied left i v) g = (j : ℕ) × (i ≡ suc j) × (left + suc j ≡ n) × (v ≡ fact (suc j))
Right n (printed v) g = v ≡ fact n
Right n (finished v) g = v ≡ fact n
Right n _ g = Unit {0}

product_lem :
    (j n left g i : ℕ)
    → i ≡ suc j
    → suc left + j ≡ n
    → g ≡ fact j
    → n ≤ 20
    → g * i % 2 ^ 64 ≡ fact (suc j)
product_lem j n left g i e h k le =
    let step : i ≡ j + 1 = omega arith in
    rw (step, k) (next_product j (fact_below (suc j) (omega arith)))

Local-Right :
    {n : ℕ} {s t : Shared} {p p' : Phase}
    → Local true n p s p' t
    → n ≤ 20
    → Right n p s.factorial
    → Right n p' t.factorial
Local-Right (lock h) le r = tt
Local-Right reset le r = (0, refl, omega arith, sym fact_zero)
Local-Right {n} {s} (multiply {left = left} {i = i}) le (j, e, h, k) =
    (j, e, omega arith, product_lem j n left s.factorial i e h k le)
Local-Right store le (j, e, h, k) = (suc j, omega arith, h, k)
Local-Right {n} (print {i = i}) le (j, e, h, k) = let same : j ≡ n = omega arith in k ∙ ap fact same
Local-Right unlock le r = r

-- A thread outside its section does not mind the other's writes.
Right-frame : (n g g' : ℕ) (q : Phase) → critical q ≡ false → Right n q g → Right n q g'
Right-frame n g g' waiting c r = tt
Right-frame n g g' (finished v) c r = r
Right-frame n g g' resetting c r = tt
Right-frame n g g' (looping left i) c r = absurd (cc c)
Right-frame n g g' (multiplied left i v) c r = absurd (cc c)
Right-frame n g g' (printed v) c r = r

record Inv (m n : ℕ) (s : Shared) (p q : Phase) : Type 0 where
  exclusive : (critical p && critical q) ≡ false
  held : s.locked ≡ (critical p || critical q)
  first : Right m p s.factorial
  second : Right n q s.factorial

Inv-swap : {m n : ℕ} {s : Shared} {p q : Phase} → Inv m n s p q → Inv n m s q p
Inv-swap {p = p} {q = q} inv = record {
  exclusive = ground (arith, inv.exclusive);
  held = ground (arith, inv.held);
  first = inv.second;
  second = inv.first;
}

-- While the first thread moves, the second is outside its section.
other_outside :
    {n : ℕ} {s t : Shared} {p p' : Phase} (q : Phase)
    → Local true n p s p' t
    → (critical p && critical q) ≡ false
    → s.locked ≡ (critical p || critical q)
    → critical q ≡ false
other_outside {s = s} q (lock h) e k = ground (arith, h, k)
other_outside q reset e k = e
other_outside q multiply e k = e
other_outside q store e k = e
other_outside q print e k = e
other_outside q unlock e k = e

-- Then the mutex is held exactly if the first thread is inside its own.
Local-held :
    {n : ℕ} {s t : Shared} {p p' : Phase} (q : Phase)
    → Local true n p s p' t
    → critical q ≡ false
    → s.locked ≡ (critical p || critical q)
    → t.locked ≡ (critical p' || critical q)
Local-held q (lock h) c k = refl
Local-held q reset c k = k
Local-held q multiply c k = k
Local-held q store c k = k
Local-held q print c k = k
Local-held q unlock c k = sym c

outside : (a b : Bool) → b ≡ false → (a && b) ≡ false
outside a b h = ground arith

Local-Inv :
    {m n : ℕ} {s t : Shared} {p p' q : Phase}
    → Local true m p s p' t
    → m ≤ 20
    → Inv m n s p q
    → Inv m n t p' q
Local-Inv {m} {n} {s} {t} {p} {p'} {q} l le inv =
    let c = other_outside q l inv.exclusive inv.held in
    record {
      exclusive = outside (critical p') (critical q) c;
      held = Local-held q l c inv.held;
      first = Local-Right l le inv.first;
      second = Right-frame n s.factorial t.factorial q c inv.second;
    }

Reach-Inv :
    {m n : ℕ} {b : System}
    → m ≤ 20
    → n ≤ 20
    → Reach true m n launched b
    → Inv m n b.shared b.one b.two
Reach-Inv le le' here = record { exclusive = refl; held = refl; first = tt; second = tt }
Reach-Inv le le' (next r (by_one l)) = Local-Inv l le (Reach-Inv le le' r)
Reach-Inv le le' (next r (by_two l)) = Inv-swap (Local-Inv l le' (Inv-swap (Reach-Inv le le' r)))

-- What a thread has printed.
abbrev pub output : Phase → List ℕ
output (printed v) = v ∷ []
output (finished v) = v ∷ []
output _ = []

abbrev pub EachIs : ℕ → List ℕ → Type 0
EachIs w [] = Unit
EachIs w (v ∷ vs) = (v ≡ w) × EachIs w vs

Right-output : (n g : ℕ) (p : Phase) → Right n p g → EachIs (fact n) (output p)
Right-output n g waiting r = tt
Right-output n g resetting r = tt
Right-output n g (looping left i) r = tt
Right-output n g (multiplied left i v) r = tt
Right-output n g (printed v) r = (r, tt)
Right-output n g (finished v) r = (r, tt)

-- With the mutex, for numbers up to 20, in every state that the two threads can reach in any
-- interleaving of their reads and writes: they are not both inside their sections, and what either
-- has printed is the factorial of its own number.
pub locked_factorials :
    {m n : ℕ} {b : System}
    → m ≤ 20
    → n ≤ 20
    → Reach true m n launched b
    → ((critical b.one && critical b.two) ≡ false)
      × EachIs (fact m) (output b.one)
      × EachIs (fact n) (output b.two)
locked_factorials {m} {n} {b} le le' r =
    let inv = Reach-Inv le le' r in
    (
      inv.exclusive,
      Right-output m b.shared.factorial b.one inv.first,
      Right-output n b.shared.factorial b.two inv.second,
    )
