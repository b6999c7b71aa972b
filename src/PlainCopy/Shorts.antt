-- ===== src/PlainCopy/Shorts.antt =====
-- simpcp1.c takes a short write for a whole one.
use sp327_alonso_a.Common.{
  ℕ, ◌≤◌, ◌<◌, ◌≡◌, refl, ap, ◌⊎◌, inl, inr, true, some, List, [], ◌∷◌, ◌++◌, length, take, arith,
  length-append, length-take,
}
use sp327_alonso_a.Common.Bytes.{Bytes}
use sp327_alonso_a.Common.Int.{pos}
use sp327_alonso_a.PlainCopy.{Round, also_written, write_round, copy_loop, docopy, simpcp}

-- Blocks, none of them empty, with the count of bytes that `write` takes of each.
pub record Block : Type 0 where
  pub head : ℕ
  pub tail : Bytes
  pub taken : ℕ

abbrev pub bytes : Block → Bytes
bytes b = b.head ∷ b.tail

abbrev pub rounds_of : List Block → List Round
rounds_of [] = []
rounds_of (b ∷ bs) = record { nr = some (bytes b); nw = some b.taken } ∷ rounds_of bs

abbrev pub source_of : List Block → Bytes
source_of [] = []
source_of (b ∷ bs) = bytes b ++ source_of bs

abbrev pub taken_of : List Block → Bytes
taken_of [] = []
taken_of (b ∷ bs) = take b.taken (bytes b) ++ taken_of bs

copy_loop_lem :
    (bs : List Block) → copy_loop (rounds_of bs) ≡ record { ret = pos 0; written = taken_of bs }
unfolding copy_loop write_round
copy_loop_lem [] = refl
copy_loop_lem (b ∷ bs) = ap (also_written (take b.taken (bytes b))) (copy_loop_lem bs)

-- Every write is whole, or one of them is short.
abbrev pub AllWhole : List Block → Type 0
AllWhole [] = Unit {0}
AllWhole (b ∷ bs) = (b.taken ≡ length (bytes b)) × AllWhole bs

abbrev pub SomeShort : List Block → Type 0
SomeShort [] = ⊥
SomeShort (b ∷ bs) = (b.taken < length (bytes b)) ⊎ SomeShort bs

take_all : (s : Bytes) → take (length s) s ≡ s
take_all [] = refl
take_all (c ∷ s) = ap (λ t. c ∷ t) (take_all s)

whole : (bs : List Block) → AllWhole bs → taken_of bs ≡ source_of bs
whole [] h = refl
whole (b ∷ bs) (e, h) = rw (e, whole bs h) (ap (λ t. t ++ source_of bs) (take_all (bytes b)))

at_most : (bs : List Block) → length (taken_of bs) ≤ length (source_of bs)
at_most [] = omega arith
at_most (b ∷ bs) = omega (
  arith,
  at_most bs,
  length-append (take b.taken (bytes b)) (taken_of bs),
  length-append (bytes b) (source_of bs),
  length-take b.taken (bytes b),
)

shorter : (bs : List Block) → SomeShort bs → length (taken_of bs) < length (source_of bs)
shorter [] h = absurd h
shorter (b ∷ bs) (inl h) = omega (
  arith,
  at_most bs,
  length-append (take b.taken (bytes b)) (taken_of bs),
  length-append (bytes b) (source_of bs),
  length-take b.taken (bytes b),
)
shorter (b ∷ bs) (inr h) = omega (
  arith,
  shorter bs h,
  length-append (take b.taken (bytes b)) (taken_of bs),
  length-append (bytes b) (source_of bs),
  length-take b.taken (bytes b),
)

success :
    (argc : ℕ) (bs : List Block)
    → 3 ≤ argc
    → simpcp argc true true true true (rounds_of bs)
      ≡ record { success = true; destination = taken_of bs }
unfolding simpcp docopy
success argc bs h = rw (copy_loop_lem bs) (ground arith)

-- No call fails, and the source is read block by block. If every `write` takes its whole block, the
-- program succeeds and the destination gets just the source. If some `write` takes less than its
-- block, the program succeeds as well, but the destination has fewer bytes than the source.
pub short_write_unnoticed :
    (argc : ℕ) (good bad : List Block)
    → 3 ≤ argc
    → AllWhole good
    → SomeShort bad
    → (simpcp argc true true true true (rounds_of good)
        ≡ record { success = true; destination = source_of good })
      × ((simpcp argc true true true true (rounds_of bad)).success ≡ true)
      × (length (simpcp argc true true true true (rounds_of bad)).destination
          < length (source_of bad))
short_write_unnoticed argc good bad h all short = (
  rw (← whole good all) (success argc good h),
  ap (λ e. e.success) (success argc bad h),
  rw (ap (λ e. length e.destination) (success argc bad h)) (shorter bad short),
)
