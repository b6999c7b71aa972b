-- ===== src/Checks/BankRun.antt =====
-- The theorems on bankacc.c, facto.c and mt_primes2.c at concrete inputs.
use sp327_alonso_a.Common.{ℕ, ◌≤◌, ◌≡◌, ◌↔◌, refl, true, List, [], ◌∷◌, arith}
use sp327_alonso_a.Common.Int.{pos, ◌+ℤ◌, ◌-ℤ◌, ◌≤ℤ◌}
use sp327_alonso_a.Common.Run.{ok}
use sp327_alonso_a.Bank.{
  finished, withdraw, deposit, min_credit, opened, Reach, here, next, by_one, by_two, lock, compute,
  store, unlock,
}
use sp327_alonso_a.Bank.Serial.{Serial, serialized}
use sp327_alonso_a.Bank.Race.{begin_to, deposits, withdraws, state}
use sp327_alonso_a.Primes.{simple_primegen}
use sp327_alonso_a.Primes.Sieve.{In, Prime}
use sp327_alonso_a.Primes.Buffer.{simple_primegen_lem}

-- the second thread comes first; the first one waits for the mutex
locked_run :
    Reach true
      (deposit (pos 100) ∷ [])
      (withdraw (pos 300) ∷ [])
      (opened (pos 1000))
      (state (pos 1000 -ℤ pos 300 +ℤ pos 100) finished finished)
unfolding ◌+ℤ◌
locked_run =
    next
      (next
        (next
          (next
            (next
              (next
                (next
                  (next (next here (by_two (lock refl)))
                    (by_two (begin_to _ _ (withdraws (pos 300) (pos 1000) [] (omega arith)))))
                  (by_two (compute (pos 300) [])))
                (by_two (store _ [])))
              (by_two unlock))
            (by_one (lock refl)))
          (by_one (begin_to _ _ (deposits (pos 100) (pos 1000 -ℤ pos 300) [] refl))))
        (by_one (store _ [])))
      (by_one unlock)

serialized_example :
    Serial
      (pos 1000)
      (deposit (pos 100) ∷ [])
      (withdraw (pos 300) ∷ [])
      (pos 1000 -ℤ pos 300 +ℤ pos 100)
    × (min_credit ≤ℤ pos 1000 -ℤ pos 300 +ℤ pos 100)
unfolding ◌+ℤ◌ ◌-ℤ◌
serialized_example =
    serialized (pos 1000) (deposit (pos 100) ∷ []) (withdraw (pos 300) ∷ []) locked_run refl refl
      (omega arith)

simple_primegen_lem_example :
    (found : List ℕ) × (simple_primegen 2 10 ≡ ok found)
    × ((n : ℕ) → In n found ↔ ((2 ≤ n) × (n ≤ 10) × Prime n))
simple_primegen_lem_example =
    simple_primegen_lem 2 10 (omega arith) (omega arith) (omega arith) (omega arith) (omega arith)
