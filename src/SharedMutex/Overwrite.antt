-- ===== src/SharedMutex/Overwrite.antt =====
-- Stores into the shared buffer: their length, what they leave, and that disjoint ones commute.
use sp327_alonso_a.Common.{
  ℕ, zero, suc, ◌+◌, ◌≤◌, ◌<◌, ◌≡◌, refl, ap, some, [], ◌∷◌, length, get_elem?, arith,
}
use sp327_alonso_a.Common.Bytes.{Bytes}
use sp327_alonso_a.Common.Run.{ok}
use sp327_alonso_a.SharedMutex.{overwrite, write_at}

pub length-overwrite : (k : ℕ) (s buf : Bytes) → length (overwrite k s buf) ≡ length buf
unfolding overwrite
length-overwrite zero [] buf = refl
length-overwrite zero (c ∷ s) [] = refl
length-overwrite zero (c ∷ s) (b ∷ buf) = ap suc (length-overwrite zero s buf)
length-overwrite (suc k) s [] = refl
length-overwrite (suc k) s (b ∷ buf) = ap suc (length-overwrite k s buf)

overwrite_nil : (k : ℕ) (s : Bytes) → overwrite k s [] ≡ []
unfolding overwrite
overwrite_nil zero [] = refl
overwrite_nil zero (c ∷ s) = refl
overwrite_nil (suc k) s = refl

pub overwrite_comm :
    (k k' : ℕ) (s t buf : Bytes)
    → k + length s ≤ k'
    → overwrite k s (overwrite k' t buf) ≡ overwrite k' t (overwrite k s buf)
unfolding overwrite
overwrite_comm zero k' [] t buf h = refl
overwrite_comm zero zero (c ∷ s) t buf h = absurd (omega arith)
overwrite_comm zero (suc k') (c ∷ s) t [] h = refl
overwrite_comm zero (suc k') (c ∷ s) t (b ∷ buf) h =
    ap (λ u. c ∷ u) (overwrite_comm zero k' s t buf (omega arith))
overwrite_comm (suc k) zero s t buf h = absurd (omega arith)
overwrite_comm (suc k) (suc k') s t [] h = refl
overwrite_comm (suc k) (suc k') s t (b ∷ buf) h =
    ap (λ u. b ∷ u) (overwrite_comm k k' s t buf (omega arith))

pub overwrite_hit :
    (k : ℕ) (s buf : Bytes) (j c : ℕ)
    → k + length s ≤ length buf
    → get_elem? s j ≡ some c
    → get_elem? (overwrite k s buf) (k + j) ≡ some c
unfolding overwrite
overwrite_hit zero [] buf j c h e = cc
overwrite_hit zero (d ∷ s) [] j c h e = absurd (omega arith)
overwrite_hit zero (d ∷ s) (b ∷ buf) zero c h e = e
overwrite_hit zero (d ∷ s) (b ∷ buf) (suc j) c h e =
    let z : 0 + suc j ≡ suc (0 + j) = omega arith in
    rw z (overwrite_hit zero s buf j c (omega arith) e)
overwrite_hit (suc k) s [] j c h e = absurd (omega arith)
overwrite_hit (suc k) s (b ∷ buf) j c h e =
    let z : suc k + j ≡ suc (k + j) = omega arith in
    rw z (overwrite_hit k s buf j c (omega arith) e)

pub overwrite_before :
    (k : ℕ) (s buf : Bytes) (i : ℕ) → i < k → get_elem? (overwrite k s buf) i ≡ get_elem? buf i
unfolding overwrite
overwrite_before zero s buf i h = absurd (omega arith)
overwrite_before (suc k) s [] i h = refl
overwrite_before (suc k) s (b ∷ buf) zero h = refl
overwrite_before (suc k) s (b ∷ buf) (suc i) h = overwrite_before k s buf i (omega arith)

pub write_at-fits :
    (k : ℕ) (s buf : Bytes) → k + length s ≤ length buf → write_at k s buf ≡ ok (overwrite k s buf)
unfolding write_at
write_at-fits k s buf h = ground arith
