-- ===== src/MtCopy/Overlay.antt =====
-- Writes of mt_copy.c on top of one another, in any order.
use mathlib.Core.Path.{subst}
use native.Mathlib.Decide.{dec_lt}
use sp327_alonso_a.Common.{
  ℕ, zero, suc, ◌+◌, ◌-◌, ◌≤◌, ◌<◌, ◌≡◌, refl, sym, ◌∙◌, ◌⊎◌, inl, inr, none, some, List, [], ◌∷◌,
  ◌++◌, length, take, drop, get_elem?, arith,
}
use sp327_alonso_a.Common.Bytes.{Bytes}
use sp327_alonso_a.MtCopy.{Write, File, put_at, apply}

abbrev pub In : Write → List Write → Type 0
In w [] = ⊥
In w (v ∷ ws) = (w ≡ v) ⊎ In w ws

pub In-append_left : (w : Write) (us vs : List Write) → In w us → In w (us ++ vs)
In-append_left w [] vs h = absurd h
In-append_left w (u ∷ us) vs (inl e) = inl e
In-append_left w (u ∷ us) vs (inr h) = inr (In-append_left w us vs h)

pub In-append_right : (w : Write) (us vs : List Write) → In w vs → In w (us ++ vs)
In-append_right w [] vs h = h
In-append_right w (u ∷ us) vs h = inr (In-append_right w us vs h)

abbrev pub All : (Write → Type 0) → List Write → Type 0
All P [] = Unit {0}
All P (w ∷ ws) = P w × All P ws

pub All-append : (P : Write → Type 0) (us vs : List Write) → All P us → All P vs → All P (us ++ vs)
All-append P [] vs h k = k
All-append P (u ∷ us) vs (p, h) k = (p, All-append P us vs h k)

-- What a write puts into the file, as far as it reaches, is what the source holds there.
abbrev pub Agrees : Bytes → Write → Type 0
Agrees src w = (j c : ℕ) → get_elem? w.bytes j ≡ some c → get_elem? src (w.offset + j) ≡ some c

abbrev pub Covers : ℕ → Write → Type 0
Covers k w = (w.offset ≤ k) × (k < w.offset + length w.bytes)

put_at_hit :
    (off : ℕ) (d : Bytes) (f : File) (j c : ℕ)
    → get_elem? d j ≡ some c
    → put_at off d f (off + j) ≡ some c
unfolding put_at
put_at_hit off [] f j c h = cc
put_at_hit off (x ∷ d) f zero c h = ground arith
put_at_hit off (x ∷ d) f (suc j) c h =
    let e : off + suc j ≡ suc off + j = omega arith in
    let later = put_at_hit (suc off) d f j c h in rw e (ground (arith, later))

put_at_miss :
    (off : ℕ) (d : Bytes) (f : File) (k : ℕ)
    → (k < off) ⊎ (off + length d ≤ k)
    → put_at off d f k ≡ f k
unfolding put_at
put_at_miss off [] f k h = refl
put_at_miss off (x ∷ d) f k h = ground (arith, put_at_miss (suc off) d f k (omega arith))

get_elem?-some : (xs : Bytes) (j : ℕ) → j < length xs → (c : ℕ) × (get_elem? xs j ≡ some c)
get_elem?-some [] j h = absurd (omega arith)
get_elem?-some (x ∷ xs) zero h = (x, refl)
get_elem?-some (x ∷ xs) (suc j) h = get_elem?-some xs j (omega arith)

get_elem?-none : (xs : Bytes) (j : ℕ) → length xs ≤ j → get_elem? xs j ≡ none
get_elem?-none [] j h = refl
get_elem?-none (x ∷ xs) zero h = absurd (omega arith)
get_elem?-none (x ∷ xs) (suc j) h = get_elem?-none xs j (omega arith)

pub get_elem?-drop : (n j : ℕ) (xs : Bytes) → get_elem? (drop n xs) j ≡ get_elem? xs (n + j)
get_elem?-drop zero j xs = let e : 0 + j ≡ j = omega arith in rw e
get_elem?-drop (suc n) j [] = refl
get_elem?-drop (suc n) j (x ∷ xs) =
    let e : suc n + j ≡ suc (n + j) = omega arith in rw e (get_elem?-drop n j xs)

pub get_elem?-take :
    (n j c : ℕ) (xs : Bytes) → get_elem? (take n xs) j ≡ some c → get_elem? xs j ≡ some c
get_elem?-take zero j c xs h = cc
get_elem?-take (suc n) j c [] h = h
get_elem?-take (suc n) zero c (x ∷ xs) h = h
get_elem?-take (suc n) (suc j) c (x ∷ xs) h = get_elem?-take n j c xs h

module _ (src : Bytes) where
  put_covered :
      (w : Write) (f : File) (k : ℕ)
      → Agrees src w
      → Covers k w
      → put_at w.offset w.bytes f k ≡ get_elem? src k
  put_covered w f k agrees (lo, hi) =
      let j = k - w.offset in
      let e : k ≡ w.offset + j = omega arith in
      let (c, got) = get_elem?-some w.bytes j (omega arith) in
      rw e (put_at_hit w.offset w.bytes f j c got ∙ sym (agrees j c got))

  put_keeps :
      (w : Write) (f : File) (k : ℕ)
      → Agrees src w
      → f k ≡ get_elem? src k
      → put_at w.offset w.bytes f k ≡ get_elem? src k
  put_keeps w f k agrees h = elim (dec_lt k w.offset) [
    | yes below ↦ put_at_miss w.offset w.bytes f k (inl below) ∙ h
    | no above ↦ elim (dec_lt k (w.offset + length w.bytes)) [
      | yes inside ↦ put_covered w f k agrees (omega arith, inside)
      | no behind ↦ put_at_miss w.offset w.bytes f k (inr (omega arith)) ∙ h
    ]
  ]

  apply_keeps :
      (ws : List Write) (f : File) (k : ℕ)
      → All (Agrees src) ws
      → f k ≡ get_elem? src k
      → apply ws f k ≡ get_elem? src k
  unfolding apply
  apply_keeps [] f k all h = h
  apply_keeps (w ∷ ws) f k (agrees, all) h =
      apply_keeps ws (put_at w.offset w.bytes f) k all (put_keeps w f k agrees h)

  pub apply_covered :
      (ws : List Write) (w : Write) (f : File) (k : ℕ)
      → All (Agrees src) ws
      → In w ws
      → Covers k w
      → apply ws f k ≡ get_elem? src k
  unfolding apply
  apply_covered [] w f k all h covers = absurd h
  apply_covered (v ∷ ws) w f k (agrees, all) (inl e) covers =
      apply_keeps ws (put_at v.offset v.bytes f) k all
        (put_covered v f k agrees (subst (Covers k) e covers))
  apply_covered (v ∷ ws) w f k (agrees, all) (inr h) covers =
      apply_covered ws w (put_at v.offset v.bytes f) k all h covers

  covered_inside : (w : Write) (k : ℕ) → Agrees src w → Covers k w → k < length src
  covered_inside w k agrees (lo, hi) =
      let j = k - w.offset in
      let e : k ≡ w.offset + j = omega arith in
      let (c, got) = get_elem?-some w.bytes j (omega arith) in
      elim (dec_lt k (length src)) [
        | yes inside ↦ inside
        | no behind ↦
            let lost : get_elem? src (w.offset + j) ≡ none =
              get_elem?-none src (w.offset + j) (omega arith) in
            absurd (cc (agrees j c got))
      ]

  pub apply_outside :
      (ws : List Write) (f : File) (k : ℕ)
      → All (Agrees src) ws
      → length src ≤ k
      → apply ws f k ≡ f k
  unfolding apply
  apply_outside [] f k all h = refl
  apply_outside (w ∷ ws) f k (agrees, all) h =
      apply_outside ws (put_at w.offset w.bytes f) k all h ∙ elim (dec_lt k w.offset) [
        | yes below ↦ put_at_miss w.offset w.bytes f k (inl below)
        | no above ↦ elim (dec_lt k (w.offset + length w.bytes)) [
          | yes inside ↦ absurd (omega (arith, covered_inside w k agrees (omega arith, inside)))
          | no behind ↦ put_at_miss w.offset w.bytes f k (inr (omega arith))
        ]
      ]
