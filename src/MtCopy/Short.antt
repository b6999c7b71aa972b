-- ===== src/MtCopy/Short.antt =====
-- A `pread` of mt_copy.c that delivers fewer bytes than it is asked for.
use sp327_alonso_a.Common.{
  ℕ, zero, suc, ◌+◌, ◌^◌, ◌≤◌, ◌<◌, ◌≡◌, some, Option, List, ◌∷◌, length, arith, length-append,
  length-drop, drop, length-take, ap, ◌∙◌,
}
use sp327_alonso_a.Common.Bytes.{Bytes}
use sp327_alonso_a.Common.Int.{pos}
use sp327_alonso_a.Common.Run.{fault}
use sp327_alonso_a.MtCopy.{Calls, pread, fill, fd_read, read_in, allocated, do_segment}
use sp327_alonso_a.MtCopy.Segments.{part, length-part}

length-fill : (d buf : Bytes) → length d ≤ length buf → length (fill d buf) ≡ length buf
length-fill d buf h =
    omega (arith, length-append {0} d (drop (length d) buf), length-drop {0} (length d) buf)

length-pread :
    (src : Bytes) (off len ready : ℕ)
    → off + len ≤ length src
    → ready ≤ len
    → length (pread src len off ready) ≡ ready
length-pread src off len ready h k =
    omega (arith, length-take {0} ready (part src off len), length-part src off len h)

-- The count adds up, but the second read overwrites what the first has read.
fd_read_twice :
    (src : Bytes) (off n j k : ℕ) (rest : List (Option ℕ)) (buf : Bytes)
    → off + n ≤ length src
    → 0 < j
    → 0 < k
    → j < n
    → k ≤ n
    → n ≤ j + k
    → j + k < 2 ^ 31
    → fd_read src n (some j ∷ some k ∷ rest) 0 buf off
      ≡ (pos (j + k), fill (pread src n off k) (fill (pread src n off j) buf))
unfolding fd_read
fd_read_twice src off n j k rest buf h p p' short le enough small =
    rw (length-pread src off n j h (omega arith), length-pread src off n k h le) (ground arith)

read_in_over :
    (c : Calls) (off n : ℕ) (buf : Bytes) → length buf < n → read_in c off (pos n, buf) ≡ fault
read_in_over c off zero buf h = absurd (omega arith)
read_in_over c off (suc n) buf h = ground arith

-- A segment of `len` bytes of the source, below 2^30, whose block is allocated: if `pread` first
-- delivers only some of the bytes, and then again at most `len`, so that both together are more than
-- `len`, then `pwrite` is asked for more bytes than the block has.
pub short_read_overruns :
    (src : Bytes) (c : Calls) (off len j k : ℕ) (block : Bytes) (rest : List (Option ℕ))
    → off + len ≤ length src
    → c.malloc ≡ some block
    → length block ≡ len
    → c.reads ≡ some j ∷ some k ∷ rest
    → 0 < j
    → j < len
    → k ≤ len
    → len < j + k
    → len < 2 ^ 30
    → do_segment src c off len ≡ fault
unfolding do_segment
short_read_overruns src c off len j k block rest h m size r pos_j short le over small =
    let first = length-pread src off len j h (omega arith) in
    let second = length-pread src off len k h le in
    let once = length-fill (pread src len off j) block (omega (arith, size, first)) in
    let twice =
      length-fill (pread src len off k) (fill (pread src len off j) block)
        (omega (arith, once, size, second)) in
    ap (allocated src c off len) m
    ∙ ap (λ x. read_in c off (fd_read src len x 0 block off)) r
    ∙ ap (read_in c off) (
        fd_read_twice src off len j k rest block h pos_j (omega arith) short le (omega arith)
          (omega arith))
    ∙ read_in_over c off (j + k) (fill (pread src len off k) (fill (pread src len off j) block))
        (omega (arith, once, twice, size))
