-- ===== src/Pool/Family.antt =====
-- State by thread index: an update at one index, and sums over the first `n` threads.
use sp327_alonso_a.Common.{ℕ, zero, suc, ◌+◌, ◌≤◌, ◌<◌, ◌≡◌, refl, arith, ◌==◌, if◌then◌else◌}

abbrev pub update {ℓ} : {A : Type ℓ} → (ℕ → A) → ℕ → A → ℕ → A
update f i a j = if i == j then a else f j

module _ {ℓ} {A : Type ℓ} (w : A → ℕ) where
  -- The weights of threads n - 1 down to 0.
  pub total : (threads : ℕ) → (ℕ → A) → ℕ
  total zero state = 0
  total (suc k) state = w (state k) + total k state

  total-update_above :
      (k i : ℕ) (a : A) (state : ℕ → A) → k ≤ i → total k (update state i a) ≡ total k state
  unfolding total
  total-update_above zero i a state above = omega arith
  total-update_above (suc k) i a state above = ground (arith, total-update_above k i a state)

  -- An update below `n` exchanges one summand.
  pub total-update :
      (threads : ℕ) (state : ℕ → A) (slot : ℕ) (fresh : A)
      → slot < threads
      → total threads (update state slot fresh) + w (state slot) ≡ total threads state + w fresh
  unfolding total
  total-update zero state slot fresh below = elim below [ ]
  total-update (suc k) state slot fresh below =
      ground (arith, total-update k state slot fresh, total-update_above k slot fresh state)

  pub total_mono : (n : ℕ) (f g : ℕ → A) → ((j : ℕ) → w (f j) ≤ w (g j)) → total n f ≤ total n g
  unfolding total
  total_mono zero f g below = omega arith
  total_mono (suc k) f g below = omega (arith, below k, total_mono k f g below)

  pub total-eq : (n : ℕ) (f g : ℕ → A) → ((j : ℕ) → w (f j) ≡ w (g j)) → total n f ≡ total n g
  unfolding total
  total-eq zero f g same = refl
  total-eq (suc k) f g same = omega (arith, same k, total-eq k f g same)

  pub total-zero : (n : ℕ) (f : ℕ → A) → ((j : ℕ) → j < n → w (f j) ≡ 0) → total n f ≡ 0
  unfolding total
  total-zero zero f none_counts = refl
  total-zero (suc k) f none_counts =
      omega
        (arith, none_counts k (omega arith), total-zero k f (λ j lt. none_counts j (omega arith)))
