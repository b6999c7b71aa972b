-- ===== src/Bank/Serial.antt =====
-- With the mutex, the threads of bankacc.c run one after the other.
use mathlib.Core.Path.{subst₂}
use sp327_alonso_a.Common.{
  ◌≡◌, refl, sym, ap, ◌⊎◌, inl, inr, Bool, true, false, ◌&&◌, ◌||◌, List, [], ◌∷◌, if◌then◌else◌,
  arith, Bool-cases,
}
use sp327_alonso_a.Common.Int.{ℤ, pos, ◌+ℤ◌, ◌-ℤ◌, ltb_ℤ, ◌≤ℤ◌, +ℤ_parts, -ℤ_parts}
use sp327_alonso_a.Bank.{
  Op, deposit, withdraw, min_credit, Phase, waiting, inside, checked, computed, finished, next_op,
  Shared, Local, lock, begin, compute, store, unlock, Bank, by_one, by_two, opened, Reach, here,
  next,
}

-- A whole call of `deposit` or `withdraw`, and a whole body, with nobody in between.
unfoldable pub perform : Op → ℤ → ℤ
perform (deposit amt) balance = if ltb_ℤ (pos 0) amt then balance +ℤ amt else balance
perform (withdraw amt) balance =
    if ltb_ℤ (balance -ℤ amt) min_credit then balance else balance -ℤ amt

unfoldable pub perform_all : List Op → ℤ → ℤ
perform_all [] balance = balance
perform_all (op ∷ ops) balance = perform_all ops (perform op balance)

perform_all_nil : (b : ℤ) → perform_all [] b ≡ b
unfolding perform_all
perform_all_nil b = refl

-- What the balance will be when the thread goes on alone.
abbrev settled : List Op → Phase → ℤ → ℤ
settled body waiting b = perform_all body b
settled body (inside ops) b = perform_all ops b
settled body (checked amt ops) b = perform_all ops (b -ℤ amt)
settled body (computed v ops) b = perform_all ops v
settled body finished b = b

abbrev critical : Phase → Bool
critical waiting = false
critical (inside ops) = true
critical (checked amt ops) = true
critical (computed v ops) = true
critical finished = false

settled-next_op :
    (body : List Op) (op : Op) (rest : List Op) (b : ℤ)
    → (critical (next_op op rest b) ≡ true)
      × (settled body (next_op op rest b) b ≡ perform_all (op ∷ rest) b)
unfolding next_op perform_all perform
settled-next_op body (deposit amt) rest b = elim (Bool-cases (ltb_ℤ (pos 0) amt)) [
  | inl e ↦ (rw e, rw e)
  | inr e ↦ (rw e, rw e)
]
settled-next_op body (withdraw amt) rest b = elim (Bool-cases (ltb_ℤ (b -ℤ amt) min_credit)) [
  | inl e ↦ (rw e, rw e)
  | inr e ↦ (rw e, rw e)
]

alone : (p q : Phase) → (critical p && critical q) ≡ false → critical p ≡ true → critical q ≡ false
alone p q h e = ground (arith, h, e)

free :
    (s : Shared) (q : Phase)
    → s.locked ≡ (false || critical q)
    → (true && s.locked) ≡ false
    → critical q ≡ false
free s q h e = ground (arith, h, e)

module _ (start : ℤ) where
  -- One of the two serial results.
  abbrev pub Serial : List Op → List Op → ℤ → Type 0
  Serial first second b =
      (b ≡ perform_all second (perform_all first start))
      ⊎ (b ≡ perform_all first (perform_all second start))

  Serial-swap : (first second : List Op) (b : ℤ) → Serial first second b → Serial second first b
  Serial-swap first second b (inl e) = inr e
  Serial-swap first second b (inr e) = inl e

  abbrev Between : List Op → List Op → Phase → Phase → ℤ → Type 0
  Between first second waiting waiting b = b ≡ start
  Between first second p q b = Serial first second (settled second q (settled first p b))

  record Inv (first second : List Op) (s : Shared) (p q : Phase) : Type 0 where
    exclusive : (critical p && critical q) ≡ false
    held : s.locked ≡ (critical p || critical q)
    first_result :
        critical p ≡ true → Serial first second (settled second q (settled first p s.balance))
    second_result :
        critical q ≡ true → Serial first second (settled first p (settled second q s.balance))
    idle : critical p ≡ false → critical q ≡ false → Between first second p q s.balance

  swapped :
      (first second : List Op) (p q : Phase) (b : ℤ)
      → critical p ≡ false
      → critical q ≡ false
      → Between first second p q b
      → Between second first q p b
  swapped first second waiting waiting b h k e = e
  swapped first second waiting finished b h k e = Serial-swap first second _ e
  swapped first second finished waiting b h k e = Serial-swap first second _ e
  swapped first second finished finished b h k e = Serial-swap first second _ e
  swapped first second (inside ops) q b h k e = absurd (cc h)
  swapped first second (checked amt ops) q b h k e = absurd (cc h)
  swapped first second (computed v ops) q b h k e = absurd (cc h)
  swapped first second waiting (inside ops) b h k e = absurd (cc k)
  swapped first second waiting (checked amt ops) b h k e = absurd (cc k)
  swapped first second waiting (computed v ops) b h k e = absurd (cc k)
  swapped first second finished (inside ops) b h k e = absurd (cc k)
  swapped first second finished (checked amt ops) b h k e = absurd (cc k)
  swapped first second finished (computed v ops) b h k e = absurd (cc k)

  Inv-swap :
      (first second : List Op) (s : Shared) (p q : Phase)
      → Inv first second s p q
      → Inv second first s q p
  Inv-swap first second s p q inv = record {
    exclusive = ground (arith, inv.exclusive);
    held = ground (arith, inv.held);
    first_result = λ h. Serial-swap first second _ (inv.second_result h);
    second_result = λ h. Serial-swap first second _ (inv.first_result h);
    idle = λ h k. swapped first second p q s.balance k h (inv.idle k h);
  }

  -- A thread inside its locked section.
  busy :
      (first second : List Op) (s : Shared) (p q : Phase)
      → critical p ≡ true
      → critical q ≡ false
      → s.locked ≡ true
      → Serial first second (settled second q (settled first p s.balance))
      → Inv first second s p q
  busy first second s p q cp cq held result = record {
    exclusive = ground (arith, cp, cq);
    held = ground (arith, cp, cq, held);
    first_result = λ h. result;
    second_result = λ h. absurd (cc (sym h, cq));
    idle = λ h. absurd (cc (sym h, cp));
  }

  enter :
      (first second : List Op) (q : Phase) (b : ℤ)
      → critical q ≡ false
      → Between first second waiting q b
      → Serial first second (settled second q (perform_all first b))
  enter first second waiting b h e = inl (ap (λ t. perform_all second (perform_all first t)) e)
  enter first second finished b h e = e
  enter first second (inside ops) b h e = absurd (cc h)
  enter first second (checked amt ops) b h e = absurd (cc h)
  enter first second (computed v ops) b h e = absurd (cc h)

  Local-Inv :
      {first second : List Op} {s t : Shared} {p p' q : Phase}
      → Local true first p s p' t
      → Inv first second s p q
      → Inv first second t p' q
  Local-Inv {first} {second} {s} {q = q} (lock h) inv =
      let cq = free s q inv.held h in
      busy first second _ (inside first) q refl cq refl
        (enter first second q s.balance cq (inv.idle refl cq))
  Local-Inv {first} {second} {s} {q = q} (begin op rest) inv =
      let cq = alone (inside (op ∷ rest)) q inv.exclusive refl in
      let (cp, same) = settled-next_op first op rest s.balance in
      busy first second s (next_op op rest s.balance) q cp cq inv.held
        (rw same (inv.first_result refl))
  Local-Inv {first} {second} {s} {q = q} (compute amt rest) inv =
      let cq = alone (checked amt rest) q inv.exclusive refl in
      busy first second s (computed (s.balance -ℤ amt) rest) q refl cq inv.held
        (inv.first_result refl)
  Local-Inv {first} {second} {s} {q = q} (store v rest) inv =
      let cq = alone (computed v rest) q inv.exclusive refl in
      busy first second _ (inside rest) q refl cq inv.held (inv.first_result refl)
  Local-Inv {first} {second} {s} {q = q} unlock inv =
      let cq = alone (inside []) q inv.exclusive refl in
      record {
        exclusive = refl;
        held = sym cq;
        first_result = λ h. absurd (cc h);
        second_result = λ h. absurd (cc (sym h, cq));
        idle = λ h k. rw (perform_all_nil s.balance) at (inv.first_result refl);
      }

  Reach-Inv :
      {first second : List Op} {b : Bank}
      → Reach true first second (opened start) b
      → Inv first second b.shared b.one b.two
  Reach-Inv here = record {
    exclusive = refl;
    held = refl;
    first_result = λ h. absurd (cc h);
    second_result = λ h. absurd (cc h);
    idle = λ h k. refl;
  }
  Reach-Inv {first} {second} (next r (by_one l)) = Local-Inv l (Reach-Inv r)
  Reach-Inv {first} {second} (next r (by_two l)) =
      Inv-swap second first _ _ _ (Local-Inv l (Inv-swap first second _ _ _ (Reach-Inv r)))

perform-MinCredit : (op : Op) (b : ℤ) → min_credit ≤ℤ b → min_credit ≤ℤ perform op b
unfolding perform
perform-MinCredit (deposit amt) b h = ground (arith, +ℤ_parts b amt)
perform-MinCredit (withdraw amt) b h = ground (arith, -ℤ_parts b amt)

perform_all-MinCredit : (ops : List Op) (b : ℤ) → min_credit ≤ℤ b → min_credit ≤ℤ perform_all ops b
unfolding perform_all
perform_all-MinCredit [] b h = h
perform_all-MinCredit (op ∷ ops) b h =
    perform_all-MinCredit ops (perform op b) (perform-MinCredit op b h)

-- With locking, two threads with any bodies, and any opening balance of at least 500: in every
-- state that they reach in which both have finished, the balance is what it is when one body is
-- performed as a whole behind the other, and it is at least 500.
pub serialized :
    (start : ℤ) (first second : List Op) {b : Bank}
    → Reach true first second (opened start) b
    → b.one ≡ finished
    → b.two ≡ finished
    → min_credit ≤ℤ start
    → Serial start first second b.shared.balance × (min_credit ≤ℤ b.shared.balance)
serialized start first second {b} r one two credit = (result, above result)
  where
    done : Inv start first second b.shared finished finished
    done = subst₂ (Inv start first second b.shared) one two (Reach-Inv start r)

    result : Serial start first second b.shared.balance
    result = done.idle refl refl

    above : Serial start first second b.shared.balance → min_credit ≤ℤ b.shared.balance
    above (inl e) = rw e (
        perform_all-MinCredit second (perform_all first start)
          (perform_all-MinCredit first start credit))
    above (inr e) = rw e (
        perform_all-MinCredit first (perform_all second start)
          (perform_all-MinCredit second start credit))
