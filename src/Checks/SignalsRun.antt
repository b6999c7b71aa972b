-- ===== src/Checks/SignalsRun.antt =====
-- M8: two rounds of the child, then SIGTSTP, and the parent is told.
use sp327_alonso_a.Common.{ℕ, ◌*◌, ◌≡◌, ◌≤◌, ◌⊎◌, refl, false}
use sp327_alonso_a.Signals.{
  Processes, count, sig_stop, sig_user1, Event, counted, stopped, reported, launched, Reached, here,
  later,
}
use sp327_alonso_a.Signals.Sums.{parent_sum_lem}

abbrev told : Processes
told = sig_user1 10 (sig_stop (count (count launched)))

told-Reached : Reached told
told-Reached =
    later (later (later (later here (counted refl)) (counted refl)) (stopped refl))
      (reported refl refl)

parent_sum_lem_example :
    ((j : ℕ) × (10 ≡ 5 * j))
    × ((k : ℕ) × (10 ≡ 5 * k))
    × (10 ≤ 10)
    × ((t : Processes) → Event told t → (t.parent_runs ≡ false) ⊎ (10 ≤ t.parent_sum))
parent_sum_lem_example = parent_sum_lem told-Reached refl
