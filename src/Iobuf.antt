-- ===== src/Iobuf.antt =====
-- booksrc/ch16: two threads copy blocks from one stdio stream to another. In mt_iobuf_mtx.c they share
-- the buffer `gbuf`, and a mutex guards each `fread` and each `fwrite` alone; in mt_iobuf_rfct.c and
-- mt_iobuf_tls.c each thread has a buffer of its own. stdio locks a stream for the length of a call,
-- so a call is one step, and so is a locked section. The blocks that `fread` gives are arguments.
pub mod Race
pub mod Own
use sp327_alonso_a.Common.{
  ℕ, zero, suc, ◌≡◌, ◌≤◌, ◌<◌, ◌⊎◌, Bool, true, false, ◌&&◌, ◌||◌, ltb, not, List, [], ◌∷◌, ◌++◌,
  length, take, drop, ◌==◌, if◌then◌else◌,
}
use sp327_alonso_a.Common.Bytes.{Bytes}
use sp327_alonso_a.Common.Int.{ℤ, pos, negsuc}
use sp327_alonso_a.Common.Run.{Run, ok, exits}

-- What `fread` leaves in a buffer of NREAD bytes.
unfoldable pub read_into : Bytes → Bytes → Bytes
read_into block buffer = block ++ drop (length block) buffer

-- A thread with its own buffer: in front of `fread` with rounds left, or in front of `fwrite` with
-- `fnr`.
pub data Thread : Type 0 where
  reading : (left : ℕ) → (iobuf : Bytes) → Thread
  writing : (left fnr : ℕ) → (iobuf : Bytes) → Thread

-- What the threads share: the blocks that are still to come from `rdstrm`, what each `fwrite` has put
-- into `wrstrm`, the global buffer, and whether an `fwrite` has written less than it was given.
pub record Shared : Type 0 where
  pub rdstrm : List Bytes
  pub wrstrm : List Bytes
  pub gbuf : Bytes
  pub short : Bool

-- One step of a thread; `global` says that it uses `gbuf`. An `fread` of no bytes is fatal. An `fwrite`
-- that writes some of the bytes is taken for a success; without `gbuf`, so is one that writes none,
-- unless the stream is at its end, where the thread returns, or has an error, which is fatal.
pub data Local (global : Bool) : Thread → Shared → Thread → Shared → Type 0 where
  read :
      {left : ℕ} {iobuf block : Bytes} {rest out : List Bytes} {gbuf : Bytes} {short : Bool}
      → 0 < length block
      → Local global
          (reading (suc left) iobuf)
          (record { rdstrm = block ∷ rest; wrstrm = out; gbuf = gbuf; short = short })
          (writing left (length block) (if global then iobuf else read_into block iobuf))
          (record {
            rdstrm = rest;
            wrstrm = out;
            gbuf = if global then read_into block gbuf else gbuf;
            short = short;
          })
  write :
      {left fnr : ℕ} {iobuf : Bytes} {s : Shared} (written : ℕ)
      → written ≤ fnr
      → (0 < written) ⊎ (global ≡ false)
      → Local global (writing left fnr iobuf) s (reading left iobuf) (record s {
        wrstrm = s.wrstrm ++ take written (if global then s.gbuf else iobuf) ∷ [];
        short = s.short || ltb written fnr;
      })
  at_end :
      {left fnr : ℕ} {iobuf : Bytes} {s : Shared}
      → global ≡ false
      → Local global (writing left fnr iobuf) s (reading 0 iobuf) (record s { short = true })

-- A call is ahead that may fail: a thread has not done all its rounds.
abbrev pub is_through : Thread → Bool
is_through (reading zero iobuf) = true
is_through (reading (suc left) iobuf) = false
is_through (writing left fnr iobuf) = false

-- The process with its two threads, or after FATAL, or after an `fwrite` of mt_iobuf_mtx.c that
-- writes nothing: it frees `gbuf`, which the threads use still.
pub data Process : Type 0 where
  running : Shared → Thread → Thread → Process
  died : Process

pub data Step (global : Bool) : Process → Process → Type 0 where
  by_one :
      {s t : Shared} {p p' q : Thread}
      → Local global p s p' t
      → Step global (running s p q) (running t p' q)
  by_two :
      {s t : Shared} {p q q' : Thread}
      → Local global q s q' t
      → Step global (running s p q) (running t p q')
  fails :
      {s : Shared} (p q : Thread)
      → (is_through p && is_through q) ≡ false
      → Step global (running s p q) died

-- The start with `numio` rounds for each thread; `gbuf` and the buffers hold what `malloc` gave.
abbrev pub launched : ℕ → List Bytes → (gbuf first second : Bytes) → Process
launched numio blocks gbuf first second =
    running (record { rdstrm = blocks; wrstrm = []; gbuf = gbuf; short = false })
      (reading numio first) (reading numio second)

pub data Reach (global : Bool) (start : Process) : Process → Type 0 where
  here : Reach global start start
  next : {s t : Process} → Reach global start s → Step global s t → Reach global start t

-- `main` up to the threads: the number of arguments, `atoi` of the first, and whether the files are
-- opened, memory is there and the threads are created. The result is `numio`.
unfoldable pub set_up : (argc : ℕ) → ℤ → (calls : Bool) → Run ℕ
set_up argc (negsuc n) calls = exits
set_up argc (pos n) calls =
    if not (argc == 2) then exits else if n == 0 then exits else if calls then ok n else exits
