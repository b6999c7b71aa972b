-- ===== src/Iobuf/Race.antt =====
-- mt_iobuf_mtx.c: between its `fread` and its `fwrite` a thread does not hold the mutex.
use mathlib.Core.Path.{subst}
use sp327_alonso_a.Common.{
  ◌<◌, ◌≡◌, true, false, ◌||◌, ltb, inl, arith, Bool, [], ◌∷◌, length, take, ap, ◌∙◌,
}
use sp327_alonso_a.Common.Bytes.{Bytes}
use sp327_alonso_a.Iobuf.{
  Shared, read_into, reading, read, write, running, by_one, by_two, launched, Reach, here, next,
}
use sp327_alonso_a.Iobuf.Own.{take-read_into}

-- What is left, with the two blocks that have been written, and the buffer.
abbrev left_with : (gbuf one two : Bytes) → Bool → Shared
left_with gbuf one two short = record {
  rdstrm = [];
  wrstrm = one ∷ two ∷ [];
  gbuf = gbuf;
  short = short;
}

-- For any two blocks of the same length, not 0, and one round for each thread, there is a run of
-- mt_iobuf_mtx.c without failing calls in which the second thread reads between the `fread` and the
-- `fwrite` of the first: both threads finish, and the second block has been written twice and the
-- first not at all.
pub block_lost :
    (a b gbuf first second : Bytes)
    → 0 < length a
    → length a ≡ length b
    → Reach true (launched 1 (a ∷ b ∷ []) gbuf first second) (
        running
          (record {
            rdstrm = [];
            wrstrm = b ∷ b ∷ [];
            gbuf = read_into b (read_into a gbuf);
            short = false;
          })
          (reading 0 first)
          (reading 0 second))
block_lost a b gbuf first second some_bytes same =
    subst
      (λ x.
        Reach true (launched 1 (a ∷ b ∷ []) gbuf first second)
          (running x (reading 0 first) (reading 0 second)))
      end
      (next
        (next (next (next here (by_one (read some_bytes))) (by_two (read (omega (arith, same)))))
          (by_one (write (length a) (omega arith) (inl some_bytes))))
        (by_two (write (length b) (omega arith) (inl (omega (arith, same))))))
  where
    none_short : ((false || ltb (length a) (length a)) || ltb (length b) (length b)) ≡ false
    none_short = ground arith

    end :
        left_with
          (read_into b (read_into a gbuf))
          (take (length a) (read_into b (read_into a gbuf)))
          (take (length b) (read_into b (read_into a gbuf)))
          ((false || ltb (length a) (length a)) || ltb (length b) (length b))
        ≡ left_with (read_into b (read_into a gbuf)) b b false
    end =
        ap
          (λ x.
            left_with (read_into b (read_into a gbuf)) x
              (take (length b) (read_into b (read_into a gbuf)))
              ((false || ltb (length a) (length a)) || ltb (length b) (length b)))
          (ap (λ n. take n (read_into b (read_into a gbuf))) same
            ∙ take-read_into b (read_into a gbuf))
        ∙ ap
            (λ y.
              left_with (read_into b (read_into a gbuf)) b y
                ((false || ltb (length a) (length a)) || ltb (length b) (length b)))
            (take-read_into b (read_into a gbuf))
        ∙ ap (left_with (read_into b (read_into a gbuf)) b b) none_short
