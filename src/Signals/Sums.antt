-- ===== src/Signals/Sums.antt =====
-- What the parent knows of the child's sum.
use sp327_alonso_a.Common.{
  ℕ, ◌+◌, ◌*◌, ◌≤◌, ◌≡◌, refl, sym, ◌∙◌, ◌⊎◌, inl, inr, true, false, Option, none, some, arith,
}
use mathlib.Core.Bool.{false≢true}
use mathlib.Core.Path.{subst}
use sp327_alonso_a.Signals.{
  Processes, queued, count, sig_stop, sig_user1, Event, counted, stopped, reported, unreported,
  answered, terminated, gave_up, left, finished, Reached, here, later,
}

-- A pending value stands between the two sums and counts whole rounds of the child.
abbrev Pending : (low high : ℕ) → Option ℕ → Type 0
Pending low high none = Unit
Pending low high (some v) = (low ≤ v) × (v ≤ high) × (k : ℕ) × (v ≡ 5 * k)

-- What the parent knows while it runs.
abbrev Known : Processes → Type 0
Known s =
    (s.parent_sum ≤ s.child_sum)
    × ((j : ℕ) × (s.parent_sum ≡ 5 * j))
    × Pending s.parent_sum s.child_sum s.usr1

abbrev Inv : Processes → Type 0
Inv s = ((k : ℕ) × (s.child_sum ≡ 5 * k)) × ((s.parent_runs ≡ false) ⊎ Known s)

Pending-later : (low high : ℕ) (o : Option ℕ) → Pending low high o → Pending low (high + 5) o
Pending-later low high none p = tt
Pending-later low high (some v) (above, below, k, e) = (above, omega (arith, below), k, e)

Pending-queued :
    (low high : ℕ) (o : Option ℕ)
    → low ≤ high
    → (k : ℕ) × (high ≡ 5 * k)
    → Pending low high o
    → Pending low high (queued o high)
Pending-queued low high none le (k, e) p = (le, omega arith, k, e)
Pending-queued low high (some v) le r p = p

-- A parent that runs knows something.
known : (s : Processes) → s.parent_runs ≡ true → (s.parent_runs ≡ false) ⊎ Known s → Known s
known s runs (inl ended) = absurd (false≢true (sym ended ∙ runs))
known s runs (inr k) = k

counted-Known : (s : Processes) → Known s → Known (count s)
counted-Known s (le, js, p) =
    (omega (arith, le), js, Pending-later s.parent_sum s.child_sum s.usr1 p)

stopped-Known : (s : Processes) → (k : ℕ) × (s.child_sum ≡ 5 * k) → Known s → Known (sig_stop s)
stopped-Known s ks (le, js, p) = (le, js, Pending-queued s.parent_sum s.child_sum s.usr1 le ks p)

reported-Known : (s : Processes) {v : ℕ} → s.usr1 ≡ some v → Known s → Known (sig_user1 v s)
reported-Known s is (le, js, p) =
    let (above, below, k, e) = subst (Pending s.parent_sum s.child_sum) is p in (below, (k, e), tt)

later_known : {A B C : Type 0} → (B → C) → A ⊎ B → A ⊎ C
later_known f (inl a) = inl a
later_known f (inr b) = inr (f b)

Event-Inv : {s t : Processes} → Event s t → Inv s → Inv t
Event-Inv {s} (counted runs) ((k, e), i) =
    ((k + 1, omega (arith, e)), later_known (counted-Known s) i)
Event-Inv {s} (stopped runs) (ks, i) = (ks, later_known (stopped-Known s ks) i)
Event-Inv {s} (reported runs is) (ks, i) = (ks, later_known (reported-Known s is) i)
Event-Inv (unreported runs is) (ks, i) = (ks, inl refl)
Event-Inv (answered runs is) inv = inv
Event-Inv (terminated runs) inv = inv
Event-Inv (gave_up runs) inv = inv
Event-Inv (left v runs is) (ks, i) = (ks, inl refl)
Event-Inv (finished runs is) (ks, i) = (ks, inl refl)

Reached-Inv : {s : Processes} → Reached s → Inv s
Reached-Inv here = ((0, refl), inr (omega arith, (0, refl), tt))
Reached-Inv (later r step) = Event-Inv step (Reached-Inv r)

-- In every state that the two processes reach and in which the parent runs: both sums count whole
-- rounds of the child's loop, 5 each, and the parent's sum is at most the child's. From there, a step
-- ends the parent or does not make its sum smaller, although signals that come while one is pending
-- are dropped.
pub parent_sum_lem :
    {s : Processes}
    → Reached s
    → s.parent_runs ≡ true
    → ((j : ℕ) × (s.parent_sum ≡ 5 * j))
      × ((k : ℕ) × (s.child_sum ≡ 5 * k))
      × (s.parent_sum ≤ s.child_sum)
      × ((t : Processes) → Event s t → (t.parent_runs ≡ false) ⊎ (s.parent_sum ≤ t.parent_sum))
parent_sum_lem {s} r runs =
    let (ks, i) = Reached-Inv r in
    let (le, js, p) = known s runs i in (js, ks, le, λ t step. grows step p)
  where
    grows :
        {s t : Processes}
        → Event s t
        → Pending s.parent_sum s.child_sum s.usr1
        → (t.parent_runs ≡ false) ⊎ (s.parent_sum ≤ t.parent_sum)
    grows (counted runs) p = inr (omega arith)
    grows (stopped runs) p = inr (omega arith)
    grows {s} (reported {v} runs is) p = inr (subst (Pending s.parent_sum s.child_sum) is p).0
    grows (unreported runs is) p = inl refl
    grows (answered runs is) p = inr (omega arith)
    grows (terminated runs) p = inr (omega arith)
    grows (gave_up runs) p = inr (omega arith)
    grows (left v runs is) p = inl refl
    grows (finished runs is) p = inl refl
