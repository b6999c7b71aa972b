-- ===== src/Checks/CopyRun.antt =====
-- The theorems on mt_copy.c and simpcp2.c at concrete inputs.
use mathlib.Core.Path.{subst}
use sp327_alonso_a.Common.{
  ℕ, ◌/◌, ◌%◌, ◌<◌, ◌≡◌, refl, sym, inl, inr, true, some, List, [], ◌∷◌, length, get_elem?,
  replicate, arith, ltb, if◌then◌else◌, length-replicate,
}
use sp327_alonso_a.Common.Bytes.{Bytes}
use sp327_alonso_a.Common.Int.{pos}
use sp327_alonso_a.Common.Run.{ok}
use sp327_alonso_a.MtCopy.{
  Calls, ThreadCalls, Created, Write, File, apply, mt_copy, do_segment, fd_read, fd_write,
}
use sp327_alonso_a.MtCopy.Segments.{Transfers}
use sp327_alonso_a.MtCopy.Overlay.{In}
use sp327_alonso_a.MtCopy.Whole.{Works, SameWrites, writes_of, opened, whole_file_copied}
use sp327_alonso_a.SimpleCopy
use sp327_alonso_a.SimpleCopy.Blocks.{simpcp_whole}

abbrev source : Bytes
source = 10 ∷ 20 ∷ 30 ∷ 40 ∷ 50 ∷ []

abbrev whole_calls : (len : ℕ) → Calls
whole_calls len = record {
  malloc = some (replicate len 0);
  reads = some len ∷ [];
  writes = some len ∷ [];
}

whole_calls-Transfers : (len : ℕ) → Transfers len (whole_calls len)
whole_calls-Transfers len = record {
  block = replicate len 0;
  ready = len;
  more_reads = [];
  more_writes = [];
  malloc = refl;
  size = length-replicate len 0;
  reads = refl;
  enough = omega arith;
  writes = refl;
}

-- two threads with two bytes each; the second one also copies the last byte
abbrev calls : ℕ → ThreadCalls
calls i = record {
  segment = whole_calls (length source / 2);
  remaining = whole_calls (length source % 2);
}

abbrev made : ℕ → Created
made i = record { calloc = true; pthread_create = true }

calls-Works : (i : ℕ) → i < 2 → Works source 2 i (made i) (calls i)
calls-Works i h = record {
  calloc = refl;
  pthread_create = refl;
  segment = whole_calls-Transfers (length source / 2);
  remaining = whole_calls-Transfers (length source % 2);
}

abbrev write_at : ℕ → Bytes → Write
write_at off d = record { offset = off; bytes = d }

abbrev all : List Write
all = write_at 0 (10 ∷ 20 ∷ []) ∷ write_at 2 (30 ∷ 40 ∷ []) ∷ write_at 4 (50 ∷ []) ∷ []

-- the last byte is written first
abbrev reordered : List Write
reordered = write_at 4 (50 ∷ []) ∷ write_at 0 (10 ∷ 20 ∷ []) ∷ write_at 2 (30 ∷ 40 ∷ []) ∷ []

two_threads : mt_copy source 4 (pos 2) (opened source) made calls ≡ ok all
unfolding mt_copy do_segment fd_read fd_write
two_threads = refl

reordered-all : SameWrites reordered all
reordered-all = record { sound = there; complete = back }
  where
    there : (w : Write) → In w reordered → In w all
    there w (inl e) = inr (inr (inl e))
    there w (inr (inl e)) = inl e
    there w (inr (inr (inl e))) = inr (inl e)
    there w (inr (inr (inr e))) = absurd e

    back : (w : Write) → In w all → In w reordered
    back w (inl e) = inr (inl e)
    back w (inr (inl e)) = inr (inr (inl e))
    back w (inr (inr (inl e))) = inl e
    back w (inr (inr (inr e))) = absurd e

abbrev old_file : File
old_file k = some 7

whole_file_copied_example :
    ((ws : List Write) × (mt_copy source 4 (pos 2) (opened source) made calls ≡ ok ws))
    × (apply reordered old_file 4
        ≡ (if ltb 4 (length source) then get_elem? source 4 else old_file 4))
whole_file_copied_example =
    whole_file_copied source 4 2 made calls reordered old_file 4 (omega arith) (omega arith)
      (omega arith) (omega arith) calls-Works
      (subst (λ m. SameWrites reordered (writes_of m)) (sym two_threads) reordered-all)

abbrev blocks : List Bytes
blocks = (1 ∷ 2 ∷ []) ∷ (3 ∷ 4 ∷ []) ∷ (5 ∷ []) ∷ []

simpcp_whole_example :
    SimpleCopy.simpcp 4 3
      (record { source = true; stat = true; destination = true })
      (record {
        st_blksize = some 2;
        malloc = some (0 ∷ 0 ∷ []);
        reads = some (1 ∷ 2 ∷ []) ∷ some (3 ∷ 4 ∷ []) ∷ some (5 ∷ []) ∷ [];
        writes = some 2 ∷ some 2 ∷ some 1 ∷ [];
      })
      (9 ∷ 9 ∷ 9 ∷ 9 ∷ 9 ∷ 9 ∷ 9 ∷ [])
    ≡ some (ok (record { succeeded = true; content = 1 ∷ 2 ∷ 3 ∷ 4 ∷ 5 ∷ 9 ∷ 9 ∷ [] }))
simpcp_whole_example =
    simpcp_whole 4 3 2 blocks (0 ∷ 0 ∷ []) (9 ∷ 9 ∷ 9 ∷ 9 ∷ 9 ∷ 9 ∷ 9 ∷ []) (omega arith)
      (omega arith) refl (omega arith) (omega arith)
