-- ===== src/SharedMutex/Shown.antt =====
-- What pshared_mutex_demo.c shows of its buffer.
use sp327_alonso_a.Common.{
  ℕ, zero, suc, ◌+◌, ◌*◌, ◌<◌, ◌≡◌, refl, ap, ◌∙◌, true, List, [], ◌∷◌, ◌++◌, length, take, drop,
  arith,
}
use sp327_alonso_a.Common.Bytes.{Bytes}
use sp327_alonso_a.Common.Int.{ℤ}
use sp327_alonso_a.Common.Run.{ok}
use sp327_alonso_a.SharedMutex.{
  Section, thread, child, run_sections, Line, print_line, show_lines, showbuf, Segment, shmem_setup,
  main,
}
use sp327_alonso_a.SharedMutex.Orders.{buffer, order_irrelevant}
use sp327_alonso_a.Proxy.Scan.{take-all}

-- The bytes of all lines, one line behind the other.
abbrev pub hexes : List Line → Bytes
hexes [] = []
hexes (l ∷ ls) = l.hex ++ hexes ls

take_nil : (n : ℕ) → take {A = ℕ} n [] ≡ []
take_nil zero = refl
take_nil (suc n) = refl

take-add : (m n : ℕ) (xs : Bytes) → take m xs ++ take n (drop m xs) ≡ take (m + n) xs
take-add zero n xs = let e : 0 + n ≡ n = omega arith in rw e
take-add (suc m) n [] = let e : suc m + n ≡ suc (m + n) = omega arith in rw e (take_nil n)
take-add (suc m) n (x ∷ xs) =
    let e : suc m + n ≡ suc (m + n) = omega arith in rw e (ap (λ t. x ∷ t) (take-add m n xs))

drop_nil : (n : ℕ) → drop {A = ℕ} n [] ≡ []
drop_nil zero = refl
drop_nil (suc n) = refl

drop-add : (m n : ℕ) (xs : Bytes) → drop n (drop m xs) ≡ drop (m + n) xs
drop-add zero n xs = let e : 0 + n ≡ n = omega arith in rw e
drop-add (suc m) n [] = let e : suc m + n ≡ suc (m + n) = omega arith in rw e (drop_nil n)
drop-add (suc m) n (x ∷ xs) =
    let e : suc m + n ≡ suc (m + n) = omega arith in rw e (drop-add m n xs)

hexes-show_lines :
    (left i : ℕ) (buf : Bytes)
    → hexes (show_lines left i buf) ≡ take (left * 16) (drop (i * 16) buf)
unfolding show_lines print_line
hexes-show_lines zero i buf = refl
hexes-show_lines (suc left) i buf =
    let e : (i + 1) * 16 ≡ i * 16 + 16 = omega arith in
    let e' : suc left * 16 ≡ 16 + left * 16 = omega arith in
    rw (hexes-show_lines left (i + 1) buf, e, ← drop-add (i * 16) 16 buf, e')
      (take-add 16 (left * 16) (drop (i * 16) buf))

hexes-showbuf : (buf : Bytes) → length buf ≡ 128 → hexes (showbuf buf) ≡ buf
unfolding showbuf
hexes-showbuf buf h = hexes-show_lines 8 0 buf ∙ take-all 128 buf (omega arith)

main_runs :
    (lock_segment buffer_segment : Segment) {id buffer_id : ℤ} (order : List Section) {buf : Bytes}
    → shmem_setup lock_segment ≡ ok id
    → shmem_setup buffer_segment ≡ ok buffer_id
    → run_sections order buffer ≡ ok buf
    → main lock_segment buffer_segment true order ≡ ok (showbuf buf)
unfolding main
main_runs lock_segment buffer_segment order h k r = rw (h, k, r)

-- Both segments can be set up, the other calls succeed, and the process ID of the child has at most
-- 5 digits. Then `main` shows the same lines in whichever order the thread and the child get the
-- mutex, no store is outside the buffer, and the lines hold every byte that the sections have left
-- in it, in order.
pub main_shows :
    (p c : ℕ) (lock_segment buffer_segment : Segment) (id buffer_id : ℤ)
    → shmem_setup lock_segment ≡ ok id
    → shmem_setup buffer_segment ≡ ok buffer_id
    → c < 100000
    → (lines : List Line) × (main lock_segment buffer_segment true (thread p ∷ child c ∷ [])
        ≡ ok lines)
      × (main lock_segment buffer_segment true (child c ∷ thread p ∷ []) ≡ ok lines)
      × (run_sections (thread p ∷ child c ∷ []) buffer ≡ ok (hexes lines))
main_shows p c lock_segment buffer_segment id buffer_id h k small =
    let (buf, first, last, size) = order_irrelevant p c small in
    (
      showbuf buf,
      main_runs lock_segment buffer_segment (thread p ∷ child c ∷ []) h k first,
      main_runs lock_segment buffer_segment (child c ∷ thread p ∷ []) h k last,
      rw (hexes-showbuf buf size) first,
    )
