-- ===== src/Checks/SharingRun.antt =====
-- Programs of booksrc whose threads share memory, at concrete inputs: facto.c, the copies of blocks
-- of ch16, and pshared_mutex_demo.c.
use sp327_alonso_a.Common.{
  ◌+◌, ◌≡◌, ◌≢◌, refl, arith, true, false, ◌&&◌, some, List, [], ◌∷◌, ◌++◌, length, get_elem?, inr,
}
use mathlib.Core.List.{Perm}
use sp327_alonso_a.Common.Bytes.{Bytes, codes}
use sp327_alonso_a.Common.Int.{pos, negsuc}
use sp327_alonso_a.Common.Run.{ok}
use sp327_alonso_a.Factorial.Exact.{fact}
use sp327_alonso_a.Factorial.Threads.{
  System, launched, Reach, here, next, by_one, lock, reset, multiply, store, print, waiting,
  printed,
}
use sp327_alonso_a.Factorial.Locked.{critical, output, EachIs, locked_factorials}
use sp327_alonso_a.Iobuf
use sp327_alonso_a.Iobuf.Own.{all_written}
use sp327_alonso_a.SharedMutex.{thread, child, run_sections, Line, Segment, shmem_setup, main}
use sp327_alonso_a.SharedMutex.Orders.{buffer, messages_overlap}
use sp327_alonso_a.SharedMutex.Shown.{hexes, main_shows}

-- The first thread prints 1! and has the mutex still.
abbrev one_printed : System
one_printed = record {
  shared = record { factorial = 1; locked = true };
  one = printed 1;
  two = waiting;
}

one_run : Reach true 1 12 launched one_printed
one_run =
    next
      (next (next (next (next here (by_one (lock refl))) (by_one reset)) (by_one multiply))
        (by_one store))
      (by_one print)

locked_factorials_example :
    ((critical one_printed.one && critical one_printed.two) ≡ false)
    × EachIs (fact 1) (output one_printed.one)
    × EachIs (fact 12) (output one_printed.two)
locked_factorials_example = locked_factorials (omega arith) (omega arith) one_run

abbrev first_block : Bytes
first_block = codes "ab"

abbrev second_block : Bytes
second_block = codes "cd"

abbrev both_copied : Iobuf.Shared
both_copied = record {
  rdstrm = [];
  wrstrm = second_block ∷ first_block ∷ [];
  gbuf = [];
  short = false;
}

-- The second thread reads and writes between the two calls of the first.
two_copies :
    Iobuf.Reach false
      (Iobuf.launched 1 (first_block ∷ second_block ∷ []) [] [] [])
      (Iobuf.running both_copied (Iobuf.reading 0 first_block) (Iobuf.reading 0 second_block))
unfolding Iobuf.read_into
two_copies =
    Iobuf.next
      (Iobuf.next
        (Iobuf.next (Iobuf.next Iobuf.here (Iobuf.by_one (Iobuf.read (omega arith))))
          (Iobuf.by_two (Iobuf.read (omega arith))))
        (Iobuf.by_two (Iobuf.write 2 (omega arith) (inr refl))))
      (Iobuf.by_one (Iobuf.write 2 (omega arith) (inr refl)))

all_written_example :
    (taken : List Bytes) × (taken ++ [] ≡ first_block ∷ second_block ∷ [])
    × (length taken ≡ 1 + 1)
    × Perm (second_block ∷ first_block ∷ []) taken
all_written_example =
    all_written 1 (first_block ∷ second_block ∷ []) [] [] [] first_block second_block both_copied
      two_copies refl

abbrev segment : Segment
segment = record { private_id = pos 7; key_id = negsuc 0; attached = true }

segment_set_up : shmem_setup segment ≡ ok (pos 7)
unfolding shmem_setup
segment_set_up = refl

main_shows_example :
    (lines : List Line) × (main segment segment true (thread 4711 ∷ child 4712 ∷ []) ≡ ok lines)
    × (main segment segment true (child 4712 ∷ thread 4711 ∷ []) ≡ ok lines)
    × (run_sections (thread 4711 ∷ child 4712 ∷ []) buffer ≡ ok (hexes lines))
main_shows_example =
    main_shows 4711 4712 segment segment (pos 7) (pos 7) segment_set_up segment_set_up (omega arith)

messages_overlap_example :
    (last first : Bytes) × (run_sections (child 123457 ∷ thread 123456 ∷ []) buffer ≡ ok last)
    × (run_sections (thread 123456 ∷ child 123457 ∷ []) buffer ≡ ok first)
    × (get_elem? last 25 ≡ some b't')
    × (get_elem? first 25 ≢ some b't')
    × (last ≢ first)
messages_overlap_example = messages_overlap 123456 123457 (omega arith) (omega arith)
