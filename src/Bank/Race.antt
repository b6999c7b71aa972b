-- ===== src/Bank/Race.antt =====
-- Without the mutex, a thread of bankacc.c overwrites what the other has done.
use mathlib.Core.Path.{subst}
use sp327_alonso_a.Common.{◌≡◌, refl, Bool, true, false, List, ◌∷◌, arith}
use sp327_alonso_a.Common.Int.{ℤ, pos, ◌+ℤ◌, ◌-ℤ◌, ltb_ℤ, ◌≤ℤ◌, int_laws, +ℤ_parts, -ℤ_parts}
use sp327_alonso_a.Bank.{
  Op, deposit, withdraw, min_credit, Phase, inside, checked, computed, finished, next_op, Shared,
  Local, lock, begin, compute, store, unlock, Bank, by_one, by_two, opened, Reach, here, next, body,
}
use sp327_alonso_a.Bank.Serial.{perform, perform_all}

pub begin_to :
    {locking : Bool} {first : List Op} {s : Shared} {p : Phase} (op : Op) (rest : List Op)
    → next_op op rest s.balance ≡ p
    → Local locking first (inside (op ∷ rest)) s p s
begin_to {locking} {first} {s} op rest e =
    subst (λ p. Local locking first (inside (op ∷ rest)) s p s) e (begin op rest)

pub deposits :
    (amt b : ℤ) (rest : List Op)
    → ltb_ℤ (pos 0) amt ≡ true
    → next_op (deposit amt) rest b ≡ computed (b +ℤ amt) rest
unfolding next_op
deposits amt b rest h = rw h

pub withdraws :
    (amt b : ℤ) (rest : List Op)
    → min_credit +ℤ amt ≤ℤ b
    → next_op (withdraw amt) rest b ≡ checked amt rest
unfolding next_op
withdraws amt b rest h = ground (arith, -ℤ_parts b amt, +ℤ_parts min_credit amt)

perform_deposit : (amt b : ℤ) → ltb_ℤ (pos 0) amt ≡ true → perform (deposit amt) b ≡ b +ℤ amt
unfolding perform
perform_deposit amt b h = rw h

perform_withdraw : (amt b : ℤ) → min_credit +ℤ amt ≤ℤ b → perform (withdraw amt) b ≡ b -ℤ amt
unfolding perform
perform_withdraw amt b h = ground (arith, -ℤ_parts b amt, +ℤ_parts min_credit amt)

first_order :
    (b : ℤ) → pos 9500 ≤ℤ b → perform_all (body 2) (perform_all (body 1) b) ≡ b -ℤ pos 5250
unfolding perform_all
first_order b h =
    rw
      (
        perform_deposit (pos 3000) b refl,
        perform_withdraw (pos 250) (b +ℤ pos 3000) (omega int_laws),
        perform_withdraw (pos 9000) (b +ℤ pos 3000 -ℤ pos 250) (omega int_laws),
        perform_deposit (pos 1000) (b +ℤ pos 3000 -ℤ pos 250 -ℤ pos 9000) refl,
      )
      (omega int_laws)

second_order :
    (b : ℤ) → pos 9500 ≤ℤ b → perform_all (body 1) (perform_all (body 2) b) ≡ b -ℤ pos 5250
unfolding perform_all
second_order b h =
    rw
      (
        perform_withdraw (pos 9000) b (omega int_laws),
        perform_deposit (pos 1000) (b -ℤ pos 9000) refl,
        perform_deposit (pos 3000) (b -ℤ pos 9000 +ℤ pos 1000) refl,
        perform_withdraw (pos 250) (b -ℤ pos 9000 +ℤ pos 1000 +ℤ pos 3000) (omega int_laws),
      )
      (omega int_laws)

abbrev pub state : ℤ → Phase → Phase → Bank
state b p q = record { shared = record { balance = b; locked = false }; one = p; two = q }

-- Without locking and from a balance of at least 9500, the two threads of the program have a run in
-- which the first reads the balance, the second does all its work, and the first then stores what
-- it has computed: both finish, and the closing balance is 2750 above the opening one, while both
-- orders of the bodies as wholes leave 5250 less than the opening balance.
pub lost_update :
    (start : ℤ)
    → pos 9500 ≤ℤ start
    → Reach false
        (body 1)
        (body 2)
        (opened start)
        (state (start +ℤ pos 3000 -ℤ pos 250) finished finished)
      × (start +ℤ pos 3000 -ℤ pos 250 ≡ start +ℤ pos 2750)
      × (perform_all (body 2) (perform_all (body 1) start) ≡ start -ℤ pos 5250)
      × (perform_all (body 1) (perform_all (body 2) start) ≡ start -ℤ pos 5250)
lost_update start enough = (
  next
      (next
        (next
          (next
            (next
              (next
                (next
                  (next
                    (next
                      (next
                        (next
                          (next
                            (next (next here (by_one (lock refl)))
                              (by_one (begin_to _ _ (deposits (pos 3000) start _ refl))))
                            (by_two (lock refl)))
                          (by_two (begin_to _ _ (withdraws (pos 9000) start _ (omega int_laws)))))
                        (by_two (compute (pos 9000) _)))
                      (by_two (store _ _)))
                    (by_two (begin_to _ _ (deposits (pos 1000) _ _ refl))))
                  (by_two (store _ _)))
                (by_two unlock))
              (by_one (store _ _)))
            (by_one (begin_to _ _ (withdraws (pos 250) _ _ (omega int_laws)))))
          (by_one (compute (pos 250) _)))
        (by_one (store _ _)))
      (by_one unlock),
  omega int_laws,
  first_order start enough,
  second_order start enough,
)
