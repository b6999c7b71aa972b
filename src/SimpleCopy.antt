-- ===== src/SimpleCopy.antt =====
-- booksrc/A_fileio/simpcp2.c: a file is copied block by block through wrappers of `read` and
-- `write`. The results of the system calls are arguments, one after the other; behind the end of
-- the lists `read` returns 0, as at the end of a file, and `write` fails.
pub mod Blocks
use sp327_alonso_a.Common.{
  ℕ, zero, suc, ◌+◌, Bool, true, false, not, ◌&&◌, ◌||◌, Option, none, some, List, [], ◌∷◌, ◌++◌,
  length, take, drop, ltb, leb, if◌then◌else◌,
}
use sp327_alonso_a.Common.Bytes.{Bytes}
use sp327_alonso_a.Common.Int.{ℤ, pos, negsuc, is_negative}
use sp327_alonso_a.Common.Run.{Run, ok, fault, exits}
use sp327_alonso_a.MtCopy.{to_int, fill}

abbrev pub Reads : Type 0
Reads = List (Option Bytes)

abbrev pub Writes : Type 0
Writes = List (Option ℕ)

-- What a wrapper leaves: its result, the bytes (in the buffer, or written), and the later calls.
pub record Moved (Rest : Type 0) : Type 0 where
  pub result : ℤ
  pub bytes : Bytes
  pub rest : Rest

-- `tr` bytes are read so far; each round reads to the start of the buffer.
unfoldable pub fd_read : (n : ℕ) → Reads → (tr : ℕ) → Bytes → Moved Reads
fd_read n [] tr dbuf = record { result = to_int tr; bytes = dbuf; rest = [] }
fd_read n (none ∷ rest) tr dbuf = record { result = negsuc 0; bytes = dbuf; rest = rest }
fd_read n (some [] ∷ rest) tr dbuf = record { result = to_int tr; bytes = dbuf; rest = rest }
fd_read n (some (c ∷ d) ∷ rest) tr dbuf =
    let total = tr + length (c ∷ d) in
    let later = fd_read n rest total (fill (c ∷ d) dbuf) in
    let done : Moved Reads = record {
      result = to_int total;
      bytes = fill (c ∷ d) dbuf;
      rest = rest;
    } in
    if ltb total n then later else done

abbrev pub also_out : Bytes → Moved Writes → Moved Writes
also_out d m = record m { bytes = d ++ m.bytes }

-- `tw` bytes are written so far; each round writes the start of the buffer.
unfoldable pub fd_write : (n : ℕ) → Writes → (tw : ℕ) → Bytes → Moved Writes
fd_write n [] tw sbuf = record { result = negsuc 0; bytes = []; rest = [] }
fd_write n (none ∷ rest) tw sbuf = record { result = negsuc 0; bytes = []; rest = rest }
fd_write n (some wr ∷ rest) tw sbuf =
    let later = fd_write n rest (tw + wr) sbuf in
    let done : Moved Writes = record {
      result = to_int (tw + wr);
      bytes = take wr sbuf;
      rest = rest;
    } in
    if ltb (tw + wr) n then also_out (take wr sbuf) later else done

-- How one round of the loop of `docopy` ends; `out` is what it has written.
pub data Round : Type 0 where
  returned : (code : ℤ) (out : Bytes) → Round
  overrun : Round
  goes_on : (out : Bytes) (reads : Reads) (writes : Writes) (buf : Bytes) → Round

abbrev pub write_round : Reads → Bytes → Moved Writes → Round
write_round reads buf m =
    if is_negative m.result then returned (negsuc 3) m.bytes else goes_on m.bytes reads m.rest buf

-- A count above the size of the buffer makes `write` read behind its end.
abbrev pub read_round : Writes → Moved Reads → ℤ → Round
read_round writes m (negsuc k) = returned (negsuc 2) []
read_round writes m (pos zero) = returned (pos 0) []
read_round writes m (pos (suc k)) =
    if leb (suc k) (length m.bytes)
    then write_round m.rest m.bytes (fd_write (suc k) writes 0 m.bytes)
    else overrun

unfoldable pub round : (n : ℕ) → Reads → Writes → Bytes → Round
round n reads writes buf = let m = fd_read n reads 0 buf in read_round writes m m.result

-- How `docopy` ends: its result and the bytes that it has written to the destination.
pub record Copied : Type 0 where
  pub code : ℤ
  pub out : Bytes

abbrev pub also_copied : Bytes → Option (Run Copied) → Option (Run Copied)
also_copied d (some (ok c)) = some (ok (record c { out = d ++ c.out }))
also_copied d other = other

-- The loop of `docopy`; `none` if it needs more rounds than `fuel`.
unfoldable pub docopy_loop : (fuel n : ℕ) → Reads → Writes → Bytes → Option (Run Copied)
docopy_loop zero n reads writes buf = none
docopy_loop (suc fuel) n reads writes buf = elim (round n reads writes buf) [
  | returned code out ↦ some (ok (record { code = code; out = out }))
  | overrun ↦ some fault
  | goes_on out reads' writes' buf' ↦ also_copied out (docopy_loop fuel n reads' writes' buf')
]

-- What the calls of `docopy` return: the block size of `stat`, and the block of `malloc`.
pub record Calls : Type 0 where
  pub st_blksize : Option ℕ
  pub malloc : Option Bytes
  pub reads : Reads
  pub writes : Writes

abbrev pub allocated : (fuel n : ℕ) → Calls → Option Bytes → Option (Run Copied)
allocated fuel n c none = some (ok (record { code = negsuc 1; out = [] }))
allocated fuel n c (some buf) = docopy_loop fuel n c.reads c.writes buf

abbrev pub sized : (fuel : ℕ) → Calls → Option ℕ → Option (Run Copied)
sized fuel c none = some (ok (record { code = negsuc 0; out = [] }))
sized fuel c (some n) = allocated fuel n c c.malloc

unfoldable pub docopy : (fuel : ℕ) → Calls → Option (Run Copied)
docopy fuel c = sized fuel c c.st_blksize

-- Whether the three calls on the files succeed.
pub record Opened : Type 0 where
  pub source : Bool
  pub stat : Bool
  pub destination : Bool

-- How the process ends, and what the destination then holds: it is opened without O_TRUNC, and is
-- written from its start.
pub record Ended : Type 0 where
  pub succeeded : Bool
  pub content : Bytes

abbrev pub left_by : Bytes → Option (Run Copied) → Option (Run Ended)
left_by old none = none
left_by old (some (ok c)) = some (
    ok
      (record { succeeded = not (is_negative c.code); content = c.out ++ drop (length c.out) old }))
left_by old (some fault) = some fault
left_by old (some exits) = some exits

-- `main`, where the destination holds `old` at its start
unfoldable pub simpcp : (fuel argc : ℕ) → Opened → Calls → (old : Bytes) → Option (Run Ended)
simpcp fuel argc o c old =
    if ltb argc 3 || not (o.source && o.stat && o.destination)
    then some (ok (record { succeeded = false; content = old }))
    else left_by old (docopy fuel c)
