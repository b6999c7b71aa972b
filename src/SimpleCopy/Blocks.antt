-- ===== src/SimpleCopy/Blocks.antt =====
-- The copy of simpcp2.c where every call transfers what it is asked for.
use sp327_alonso_a.Common.{
  ℕ, zero, suc, ◌^◌, ◌≤◌, ◌<◌, ◌≡◌, refl, ap, ◌∙◌, true, some, List, [], ◌∷◌, ◌++◌, length, take,
  drop, arith, length-append, length-drop,
}
use sp327_alonso_a.Common.Bytes.{Bytes}
use sp327_alonso_a.Common.Int.{pos}
use sp327_alonso_a.Common.Run.{ok}
use sp327_alonso_a.MtCopy.{fill}
use sp327_alonso_a.SimpleCopy.{
  Reads, Writes, fd_read, fd_write, goes_on, returned, round, docopy_loop, docopy, simpcp,
}

-- Blocks of `n` bytes, of which the last may be shorter.
abbrev pub Blocks : ℕ → List Bytes → Type 0
Blocks n [] = Unit {0}
Blocks n (b ∷ []) = (0 < length b) × (length b ≤ n)
Blocks n (b ∷ c ∷ bs) = (0 < length b) × (length b ≡ n) × Blocks n (c ∷ bs)

abbrev pub joined : List Bytes → Bytes
joined [] = []
joined (b ∷ bs) = b ++ joined bs

-- Each call of `read` delivers the next block, and each call of `write` takes all of it.
abbrev pub reads_of : List Bytes → Reads
reads_of [] = []
reads_of (b ∷ bs) = some b ∷ reads_of bs

abbrev pub writes_of : List Bytes → Writes
writes_of [] = []
writes_of (b ∷ bs) = some (length b) ∷ writes_of bs

length-fill : (d buf : Bytes) → length d ≤ length buf → length (fill d buf) ≡ length buf
length-fill d buf h =
    omega (arith, length-append {0} d (drop (length d) buf), length-drop {0} (length d) buf)

take-fill : (d e : Bytes) → take (length d) (d ++ e) ≡ d
take-fill [] e = refl
take-fill (c ∷ d) e = ap (λ t. c ∷ t) (take-fill d e)

-- One round with a whole block, or with the last one behind which `read` returns 0.
round_block :
    (n : ℕ) (b : Bytes) (reads : Reads) (writes : Writes) (buf : Bytes)
    → 0 < length b
    → length b ≡ n
    → n < 2 ^ 31
    → length buf ≡ n
    → round n (some b ∷ reads) (some (length b) ∷ writes) buf ≡ goes_on b reads writes (fill b buf)
unfolding round fd_read fd_write
round_block n [] reads writes buf p e small size = absurd (omega arith)
round_block n (c ∷ b) reads writes buf p e small size =
    ground
      (arith, length-fill (c ∷ b) buf (omega arith), take-fill (c ∷ b) (drop (length (c ∷ b)) buf))

round_last :
    (n : ℕ) (b : Bytes) (writes : Writes) (buf : Bytes)
    → 0 < length b
    → length b ≤ n
    → n < 2 ^ 31
    → length buf ≡ n
    → round n (some b ∷ []) (some (length b) ∷ writes) buf ≡ goes_on b [] writes (fill b buf)
unfolding round fd_read fd_write
round_last n [] writes buf p e small size = absurd (omega arith)
round_last n (c ∷ b) writes buf p e small size =
    ground
      (arith, length-fill (c ∷ b) buf (omega arith), take-fill (c ∷ b) (drop (length (c ∷ b)) buf))

round_end : (n : ℕ) (writes : Writes) (buf : Bytes) → round n [] writes buf ≡ returned (pos 0) []
unfolding round fd_read
round_end n writes buf = refl

-- Every block is copied in one round; one round more finds the end of the file.
docopy_loop-Blocks :
    (fuel n : ℕ) (bs : List Bytes) (buf : Bytes)
    → length bs < fuel
    → Blocks n bs
    → n < 2 ^ 31
    → length buf ≡ n
    → docopy_loop fuel n (reads_of bs) (writes_of bs) buf
      ≡ some (ok (record { code = pos 0; out = joined bs }))
unfolding docopy_loop
docopy_loop-Blocks zero n bs buf enough h small size = absurd (omega arith)
docopy_loop-Blocks (suc fuel) n [] buf enough h small size = ground (arith, round_end n [] buf)
docopy_loop-Blocks (suc fuel) n (b ∷ []) buf enough (p, le) small size =
    let ih =
      docopy_loop-Blocks fuel n [] (fill b buf) (omega arith) tt small
        (length-fill b buf (omega (arith, size)) ∙ size) in
    ground (arith, round_last n b [] buf p le small size, ih)
docopy_loop-Blocks (suc fuel) n (b ∷ c ∷ bs) buf enough (p, e, h) small size =
    let ih =
      docopy_loop-Blocks fuel n (c ∷ bs) (fill b buf) (omega arith) h small
        (length-fill b buf (omega (arith, size)) ∙ size) in
    ground (arith, round_block n b (reads_of (c ∷ bs)) (writes_of (c ∷ bs)) buf p e small size, ih)

-- simpcp2 is started with two file names on files that open; `malloc` gives a block of the size
-- that `stat` says, below 2^31; each `read` delivers the next block of the source,
-- of which only the last may be shorter, and each `write` takes all of it. With fuel for one round
-- more than there are blocks the program succeeds, and the destination starts with the source. What
-- it held behind the source's size before is still there, since it is not truncated.
pub simpcp_whole :
    (fuel argc n : ℕ) (bs : List Bytes) (buf old : Bytes)
    → 3 ≤ argc
    → n < 2 ^ 31
    → length buf ≡ n
    → Blocks n bs
    → length bs < fuel
    → simpcp fuel argc
        (record { source = true; stat = true; destination = true })
        (record {
          st_blksize = some n;
          malloc = some buf;
          reads = reads_of bs;
          writes = writes_of bs;
        })
        old
      ≡ some
          (ok (record { succeeded = true; content = joined bs ++ drop (length (joined bs)) old }))
unfolding simpcp docopy
simpcp_whole fuel argc n bs buf old args small size blocks enough =
    ground (arith, docopy_loop-Blocks fuel n bs buf enough blocks small size)
