-- ===== src/SharedMutex.antt =====
-- booksrc/ch15/pshared_mutex_demo.c: a thread and a child process write into shared memory, each in a
-- section of a mutex that the processes share; so the sections come one behind the other, in either
-- order. `pthread_once` runs in the parent first. The results of the calls are arguments; the
-- removal of the segments at the end is left out.
pub mod Overwrite
pub mod Orders
pub mod Shown
use sp327_alonso_a.Common.{
  ℕ, zero, suc, ◌+◌, ◌*◌, Bool, true, false, ◌&&◌, not, List, [], ◌∷◌, ◌++◌, length, take, drop,
  replicate, leb, if◌then◌else◌,
}
use sp327_alonso_a.Common.Bytes.{Bytes, codes}
use sp327_alonso_a.Common.Int.{ℤ, is_negative}
use sp327_alonso_a.Common.Run.{Run, ok, fault, exits, ◌>>=◌}
use sp327_alonso_a.Proxy.Connect.{decimal}

-- A store of bytes from an index on, as far as the buffer reaches.
unfoldable pub overwrite : ℕ → Bytes → Bytes → Bytes
overwrite zero [] buf = buf
overwrite zero (c ∷ s) [] = []
overwrite zero (c ∷ s) (b ∷ buf) = c ∷ overwrite zero s buf
overwrite (suc k) s [] = []
overwrite (suc k) s (b ∷ buf) = b ∷ overwrite k s buf

-- The same in C: a store outside the buffer is undefined.
unfoldable pub write_at : ℕ → Bytes → Bytes → Run Bytes
write_at k s buf = if leb (k + length s) (length buf) then ok (overwrite k s buf) else fault

-- `snprintf` with room for `size` bytes, of which the last is a NUL
unfoldable pub snprintf : (size : ℕ) → Bytes → Bytes
snprintf zero text = []
snprintf (suc size) text = take size text ++ 0 ∷ []

-- Who writes, with its process ID, which has at most 10 digits.
pub data Section : Type 0 where
  thread : ℕ → Section
  child : ℕ → Section

abbrev pub message : Section → Bytes
message (thread pid) = codes "thread " ++ (decimal 10 pid ++ (codes " here!" ++ 10 ∷ []))
message (child pid) = codes "child " ++ (decimal 10 pid ++ (codes " here!" ++ 10 ∷ []))

unfoldable pub run_section : Section → Bytes → Run Bytes
run_section (thread pid) buf =
    write_at 25 (replicate 5 b't') buf >>= write_at 31 (snprintf 32 (message (thread pid)))
run_section (child pid) buf =
    write_at 0 (replicate 5 b'c') buf >>= write_at 6 (snprintf 32 (message (child pid)))

unfoldable pub run_sections : List Section → Bytes → Run Bytes
run_sections [] buf = ok buf
run_sections (s ∷ rest) buf = run_section s buf >>= run_sections rest

-- A line that `print_line` prints: the index, and the bytes in hexadecimal and as text.
pub record Line : Type 0 where
  pub start : ℕ
  pub hex : Bytes
  pub ascii : Bytes

-- `isprint` in the C locale, or a point
abbrev pub shown : ℕ → ℕ
shown c = if leb 32 c then (if leb c 126 then c else b'.') else b'.'

abbrev pub shown_all : Bytes → Bytes
shown_all [] = []
shown_all (c ∷ s) = shown c ∷ shown_all s

unfoldable pub print_line : Bytes → (start numbytes : ℕ) → Line
print_line buf start numbytes =
    let bytes = take numbytes (drop start buf) in
    record { start = start; hex = bytes; ascii = shown_all bytes }

-- `showbuf` from line `i` on
unfoldable pub show_lines : (left i : ℕ) → Bytes → List Line
show_lines zero i buf = []
show_lines (suc left) i buf = print_line buf (i * 16) 16 ∷ show_lines left (i + 1) buf

unfoldable pub showbuf : Bytes → List Line
showbuf buf = show_lines 8 0 buf

-- What `shmget` returns, with IPC_PRIVATE and then with the key, and whether `shmat` succeeds.
pub record Segment : Type 0 where
  pub private_id : ℤ
  pub key_id : ℤ
  pub attached : Bool

abbrev pub attach : Bool → ℤ → Run ℤ
attach true id = ok id
attach false id = exits

unfoldable pub shmem_setup : Segment → Run ℤ
shmem_setup s =
    if is_negative s.private_id
    then (if is_negative s.key_id then exits else attach s.attached s.key_id)
    else attach s.attached s.private_id

-- `main`: `calls` says that the mutex is initialised, the thread created and the child forked, and
-- `order` is that of the sections.
unfoldable pub main : Segment → Segment → (calls : Bool) → (order : List Section) → Run (List Line)
main lock_segment buffer_segment calls order = shmem_setup lock_segment >>= λ id.
    shmem_setup buffer_segment >>= λ buffer_id.
    if calls then (run_sections order (replicate 128 0) >>= λ buf. ok (showbuf buf)) else exits
