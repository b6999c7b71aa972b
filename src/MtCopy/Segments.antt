-- ===== src/MtCopy/Segments.antt =====
-- One segment of mt_copy.c, where every call transfers all bytes that it is asked for.
use mathlib.Core.List.{append-nil}
use sp327_alonso_a.Common.{
  ℕ, zero, suc, ◌+◌, ◌∙◌, sym, length-take, length-drop, ◌^◌, ◌≤◌, ◌<◌, ◌≡◌, refl, ap, true, false,
  Option, some, List, [], ◌∷◌, length, take, drop, arith,
}
use sp327_alonso_a.Common.Bytes.{Bytes}
use sp327_alonso_a.Common.Int.{pos}
use sp327_alonso_a.Common.Run.{ok}
use sp327_alonso_a.MtCopy.{
  fill, fd_read, fd_write, Write, Calls, Copied, do_segment, read_in, allocated, pread,
}

drop-length : (n : ℕ) (xs : Bytes) → length xs ≤ n → drop n xs ≡ []
drop-length zero [] h = refl
drop-length zero (x ∷ xs) h = absurd (omega arith)
drop-length (suc n) [] h = refl
drop-length (suc n) (x ∷ xs) h = drop-length n xs (omega arith)

take-length : (n : ℕ) (xs : Bytes) → length xs ≤ n → take n xs ≡ xs
take-length zero [] h = refl
take-length zero (x ∷ xs) h = absurd (omega arith)
take-length (suc n) [] h = refl
take-length (suc n) (x ∷ xs) h = ap (λ t. x ∷ t) (take-length n xs (omega arith))

take-nil : (n : ℕ) → take {A = ℕ} n [] ≡ []
take-nil zero = refl
take-nil (suc n) = refl

fill_whole : (d buf : Bytes) → length buf ≤ length d → fill d buf ≡ d
fill_whole d buf h = rw (drop-length (length d) buf h) (append-nil d)

-- The bytes of the source from `off` on, at most `len` of them.
abbrev pub part : Bytes → ℕ → ℕ → Bytes
part src off len = take len (drop off src)

pub length-part :
    (src : Bytes) (off len : ℕ) → off + len ≤ length src → length (part src off len) ≡ len
length-part src off len h =
    omega (arith, length-take {0} len (drop off src), length-drop {0} off src)

-- `pread` delivers all bytes at once.
pub fd_read_full :
    (src : Bytes) (off len ready : ℕ) (rest : List (Option ℕ)) (buf : Bytes)
    → off + len ≤ length src
    → len ≤ ready
    → len < 2 ^ 31
    → 0 < len
    → fd_read src len (some ready ∷ rest) 0 buf off ≡ (pos len, fill (part src off len) buf)
unfolding fd_read
fd_read_full src off len ready rest buf h k small some_bytes =
    let all : pread src len off ready ≡ part src off len =
      take-length ready (part src off len) (omega (arith, length-part src off len h)) in
    rw all (ground (arith, length-part src off len h))

pub fd_write_full :
    (buf : Bytes) (rest : List (Option ℕ)) (off : ℕ)
    → length buf < 2 ^ 31
    → fd_write (length buf) (some (length buf) ∷ rest) 0 buf off
      ≡ (pos (length buf), record { offset = off; bytes = buf } ∷ [])
unfolding fd_write
fd_write_full buf rest off small = rw (take-length (length buf) buf (omega arith)) (ground arith)

-- The write that copies the bytes `d` to `off`; none where there are no bytes.
abbrev pub write_of : ℕ → Bytes → List Write
write_of off [] = []
write_of off (c ∷ d) = record { offset = off; bytes = c ∷ d } ∷ []

-- Every call of a copy of `len` bytes succeeds: a block is allocated, and `pread` and `pwrite` are
-- ready to transfer all bytes that they are asked for.
pub record Transfers (len : ℕ) (c : Calls) : Type 0 where
  pub block : Bytes
  pub ready : ℕ
  pub more_reads : List (Option ℕ)
  pub more_writes : List (Option ℕ)
  pub malloc : c.malloc ≡ some block
  pub size : length block ≡ len
  pub reads : c.reads ≡ some ready ∷ more_reads
  pub enough : len ≤ ready
  pub writes : c.writes ≡ some len ∷ more_writes

-- Behind the read of all bytes.
read_in_full :
    (d : Bytes) (off : ℕ) (c : Calls) (more : List (Option ℕ))
    → 0 < length d
    → length d < 2 ^ 31
    → c.writes ≡ some (length d) ∷ more
    → read_in c off (pos (length d), d)
      ≡ ok (record { code = pos 0; written = write_of off d; freed = true })
read_in_full [] off c more h small w = absurd (omega arith)
read_in_full (b ∷ d) off c more h small w = ground (arith, fd_write_full (b ∷ d) more off small)

pub do_segment_full :
    (src : Bytes) (off len : ℕ) (c : Calls)
    → off + len ≤ length src
    → len < 2 ^ 31
    → Transfers len c
    → (r : Copied) × (do_segment src c off len ≡ ok r)
      × (r.written ≡ write_of off (part src off len))
unfolding do_segment fd_read
do_segment_full src off zero c h small t = (
  record { code = pos 0; written = []; freed = false },
  ap (allocated src c off zero) t.malloc
      ∙ ap (λ r. read_in c off (fd_read src zero r 0 t.block off)) t.reads
      ∙ rw (take-nil t.ready) refl,
  refl,
)
do_segment_full src off (suc n) c h small t =
    let len : ℕ = suc n in
    let size = length-part src off len h in
    let d = part src off len in
    (
      record { code = pos 0; written = write_of off d; freed = true },
      ap (allocated src c off len) t.malloc
          ∙ ap (λ r. read_in c off (fd_read src len r 0 t.block off)) t.reads
          ∙ ap (read_in c off)
              (fd_read_full src off len t.ready t.more_reads t.block h t.enough small (omega arith))
          ∙ ap (λ b. read_in c off (pos len, b))
              (fill_whole d t.block (omega (arith, size, t.size)))
          ∙ ap (λ m. read_in c off (pos m, d)) (sym size)
          ∙ read_in_full d off c t.more_writes (omega (arith, size)) (omega (arith, size, small))
              (t.writes ∙ ap (λ m. some m ∷ t.more_writes) (sym size)),
      refl,
    )
