-- ===== src/MtCopy.antt =====
-- booksrc/solutions_to_assgn/ch18/mt_copy.c: a file is copied by several threads, each of which reads
-- and writes one segment. The source file is an argument, as is what the calls of the kernel return:
-- `reads` and `writes` say of each `pread` and `pwrite`, one after the other, how many bytes it is
-- ready to transfer, or that it fails; behind their end `pread` returns 0, as at the end of a file,
-- and `pwrite` fails.
pub mod Segments
pub mod Overlay
pub mod Whole
pub mod Short
use sp327_alonso_a.Common.{
  ℕ, zero, suc, ◌+◌, ◌-◌, ◌*◌, ◌/◌, ◌%◌, ◌^◌, Bool, true, false, ◌&&◌, ◌||◌, Option, none, some,
  List, [], ◌∷◌, ◌++◌, length, take, drop, ltb, leb, ◌==◌, if◌then◌else◌, not,
}
use sp327_alonso_a.Common.Bytes.{Bytes}
use sp327_alonso_a.Common.Int.{ℤ, pos, negsuc, ltb_ℤ}
pub use sp327_alonso_a.Common.Int.{to_int}
use sp327_alonso_a.Common.Run.{Run, ok, fault, exits, ◌>>=◌}

-- The bytes `d` at the start of the buffer.
abbrev pub fill : Bytes → Bytes → Bytes
fill d buf = d ++ drop (length d) buf

-- The bytes of the source that `pread` gives for `n` bytes at `off`, when it is ready to transfer
-- `ready` of them.
abbrev pub pread : (src : Bytes) (n off ready : ℕ) → Bytes
pread src n off ready = take ready (take n (drop off src))

-- `tr` bytes are read so far. Each round reads at the same offset to the start of the buffer.
unfoldable pub fd_read :
    (src : Bytes) (n : ℕ) → List (Option ℕ) → (tr : ℕ) → Bytes → (off : ℕ) → ℤ × Bytes
fd_read src n [] tr dbuf off = (to_int tr, dbuf)
fd_read src n (none ∷ rest) tr dbuf off = (negsuc 0, dbuf)
fd_read src n (some ready ∷ rest) tr dbuf off =
    let d = pread src n off ready in
    let total = tr + length d in
    let later = fd_read src n rest total (fill d dbuf) off in
    if length d == 0
    then (to_int tr, dbuf)
    else if ltb total n
    then later
    else (to_int total, fill d dbuf)

-- Bytes that a `pwrite` puts into the file, with their offset.
pub record Write : Type 0 where
  pub offset : ℕ
  pub bytes : Bytes

abbrev pub also_written : Write → ℤ × List Write → ℤ × List Write
also_written w (code, ws) = (code, w ∷ ws)

-- `tw` bytes are written so far. Each round writes the start of the buffer at the same offset.
unfoldable pub fd_write : (n : ℕ) → List (Option ℕ) → (tw : ℕ) → Bytes → (off : ℕ) → ℤ × List Write
fd_write n [] tw sbuf off = (negsuc 0, [])
fd_write n (none ∷ rest) tw sbuf off = (negsuc 0, [])
fd_write n (some wr ∷ rest) tw sbuf off =
    let later = fd_write n rest (tw + wr) sbuf off in
    let here : Write = record { offset = off; bytes = take wr sbuf } in
    if ltb (tw + wr) n then also_written here later else (to_int (tw + wr), here ∷ [])

-- What the calls of one `__do_mt_copy` return: `malloc` gives a block with its old content.
pub record Calls : Type 0 where
  pub malloc : Option Bytes
  pub reads : List (Option ℕ)
  pub writes : List (Option ℕ)

pub record Copied : Type 0 where
  pub code : ℤ
  pub written : List Write
  pub freed : Bool

abbrev pub written_back : ℤ × List Write → Run Copied
written_back (pos n, ws) = ok (record { code = pos 0; written = ws; freed = true })
written_back (negsuc n, ws) = ok (record { code = negsuc 3; written = ws; freed = true })

-- A count above the size of the buffer makes `pwrite` read behind its end.
abbrev pub read_in : Calls → (start_offset : ℕ) → ℤ × Bytes → Run Copied
read_in c off (negsuc n, buf) = ok (record { code = negsuc 2; written = []; freed = true })
read_in c off (pos zero, buf) = ok (record { code = pos 0; written = []; freed = false })
read_in c off (pos (suc n), buf) =
    if leb (suc n) (length buf) then written_back (fd_write (suc n) c.writes 0 buf off) else fault

abbrev pub allocated : (src : Bytes) → Calls → (start_offset len : ℕ) → Option Bytes → Run Copied
allocated src c off len none = ok (record { code = negsuc 1; written = []; freed = false })
allocated src c off len (some buf) = read_in c off (fd_read src len c.reads 0 buf off)

-- `__do_mt_copy`
unfoldable pub do_segment : (src : Bytes) → Calls → (start_offset len : ℕ) → Run Copied
do_segment src c off len = allocated src c off len c.malloc

-- `struct stToThread`, less the descriptors, which are the same in all
pub record ToThread : Type 0 where
  pub thrdnum : ℕ
  pub thrdtotal : ℕ
  pub start_offset : ℕ
  pub len : ℕ
  pub rem : ℕ

-- What the calls of one thread return: those for its segment, and those for the remaining bytes.
pub record ThreadCalls : Type 0 where
  pub segment : Calls
  pub remaining : Calls

-- The last thread copies the remaining bytes. The codes of both copies are dropped.
unfoldable pub worker : (src : Bytes) → ThreadCalls → ToThread → Run (List Write)
unfolding do_segment
worker src c t = do_segment src c.segment t.start_offset t.len >>= λ first.
    if not (t.rem == 0) && t.thrdnum + 1 == t.thrdtotal
    then (do_segment src c.remaining (t.start_offset + t.len) t.rem >>= λ last.
        ok (first.written ++ last.written))
    else ok first.written

abbrev pub max_thrds : ℕ
max_thrds = 5

-- Whether `calloc` and `pthread_create` succeed in round `i` of the loop.
pub record Created : Type 0 where
  pub calloc : Bool
  pub pthread_create : Bool

abbrev pub parameters : (numthrds fsize i : ℕ) → ToThread
parameters numthrds fsize i = record {
  thrdnum = i;
  thrdtotal = numthrds;
  start_offset = i * (fsize / numthrds);
  len = fsize / numthrds;
  rem = fsize % numthrds;
}

-- The loop over the threads, from `i` on, with `left` rounds to go: what each thread writes.
unfoldable pub create_loop :
    (src : Bytes)
    → (ℕ → Created)
    → (ℕ → ThreadCalls)
    → (numthrds fsize left i : ℕ) → Run (List Write)
unfolding worker
create_loop src made calls numthrds fsize zero i = ok []
create_loop src made calls numthrds fsize (suc left) i =
    let later = create_loop src made calls numthrds fsize left (i + 1) in
    if leb max_thrds i
    then fault
    else if (made i).calloc && (made i).pthread_create
    then worker src (calls i) (parameters numthrds fsize i)
      >>= (λ ws. later >>= λ more. ok (ws ++ more))
    else exits

-- `do_mt_copy`; the writes of all threads, which happen in some order before the joins return
unfoldable pub do_mt_copy :
    (src : Bytes) → (ℕ → Created) → (ℕ → ThreadCalls) → (numthrds fsize : ℕ) → Run (List Write)
unfolding create_loop
do_mt_copy src made calls numthrds fsize = create_loop src made calls numthrds fsize numthrds 0

-- Whether the three calls on the files succeed, and the size of the source from `fstat`.
pub record Opened : Type 0 where
  pub source : Bool
  pub stat : Bool
  pub destination : Bool
  pub st_size : ℕ

-- `main`, where `number` is `atoi` of the third argument
unfoldable pub mt_copy :
    (src : Bytes) (argc : ℕ) (number : ℤ)
    → Opened
    → (ℕ → Created)
    → (ℕ → ThreadCalls)
    → Run (List Write)
unfolding do_mt_copy
mt_copy src argc (negsuc n) o made calls = exits
mt_copy src argc (pos numthrds) o made calls =
    if ltb argc 4
    then exits
    else if ltb numthrds 2 || ltb max_thrds numthrds
    then exits
    else if o.source && o.stat && o.destination
    then do_mt_copy src made calls numthrds o.st_size
    else exits

-- The destination: its byte at an offset, `none` where nothing was written.
abbrev pub File : Type 0
File = ℕ → Option ℕ

unfoldable pub put_at : ℕ → Bytes → File → File
put_at off [] f = f
put_at off (c ∷ d) f = λ k. if k == off then some c else put_at (suc off) d f k

-- The writes, in the order in which they happen.
unfoldable pub apply : List Write → File → File
apply [] f = f
apply (w ∷ ws) f = apply ws (put_at w.offset w.bytes f)
