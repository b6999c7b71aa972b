-- ===== src/SystemInfo.antt =====
-- M5/system_info.c: what it reads out of the files under /proc and prints. A file is its bytes, or
-- `none` if it does not open; `fgets` fails at its end. The numbers of `sscanf` and `atoi` are read
-- from their digits; files of the kernel hold no signs there.
pub mod Memory
pub mod Fits
use sp327_alonso_a.Common.{
  ℕ, zero, suc, ◌+◌, ◌-◌, ◌*◌, ◌/◌, ◌%◌, ◌^◌, ◌<◌, Bool, true, false, not, ◌&&◌, ◌||◌, Option, none,
  some, List, [], ◌∷◌, ◌++◌, length, take, drop, ◌==◌, ltb, leb, if◌then◌else◌,
}
use sp327_alonso_a.Common.Bytes.{
  Bytes, codes, span, is_space, is_digit, starts_with, strchr, read_digits,
}
use sp327_alonso_a.Common.Run.{Run, ok, fault, ◌>>=◌}

-- The lines that `fgets` reads one after the other into an array of `room` + 1 bytes: a line that is
-- longer comes in pieces. `left` is the room that the first one still has.
abbrev pub onto_first : ℕ → List Bytes → List Bytes
onto_first c [] = (c ∷ []) ∷ []
onto_first c (l ∷ ls) = (c ∷ l) ∷ ls

unfoldable pub lines : (room left : ℕ) → Bytes → List Bytes
lines room left [] = []
lines room left (c ∷ s) =
    let ends = c == 10 || leb left 1 in
    let rest = lines room (if ends then room else left - 1) s in
    if ends then (c ∷ []) ∷ rest else onto_first c rest

abbrev pub first_of_lines : List Bytes → Option Bytes
first_of_lines [] = none
first_of_lines (l ∷ ls) = some l

abbrev pub first_line : (room : ℕ) → Bytes → Option Bytes
first_line room s = first_of_lines (lines room room s)

-- What a function prints: a value, or one of its messages of `perror`.
pub data Shown (A : Type 0) : Type 0 where
  value : A → Shown A
  not_opened : Shown A
  not_read : Shown A
  not_parsed : Shown A
  nothing : Shown A

abbrev pub show_line : Option Bytes → Shown Bytes
show_line none = not_read
show_line (some l) = value l

-- `get_hostname`, with hostname[256]
unfoldable pub get_hostname : Option Bytes → Shown Bytes
get_hostname none = not_opened
get_hostname (some file) = show_line (first_line 255 file)

-- `get_kernel_version`, with version[40]
unfoldable pub get_kernel_version : Option Bytes → Shown Bytes
get_kernel_version none = not_opened
get_kernel_version (some file) = show_line (first_line 39 file)

-- strchr(line, ':') + 2: NULL, or a place behind the end of the string, is a fault
abbrev pub behind_colon : Option Bytes → Run Bytes
behind_colon (some (c ∷ d ∷ v)) = ok v
behind_colon (some (c ∷ [])) = fault
behind_colon (some []) = fault
behind_colon none = fault

abbrev pub after_colon : Bytes → Run Bytes
after_colon line = behind_colon (strchr 58 line)

abbrev pub not_newline : ℕ → Bool
not_newline c = not (c == 10)

-- `strcpy` into an array of 256 bytes, and the newline cut off
abbrev pub copied : Bytes → Run Bytes
copied v = if ltb (length v) 256 then ok (span not_newline v).0 else fault

pub record Cpu : Type 0 where
  pub model : Bytes
  pub cores : ℕ
  pub model_type : Bytes

-- `atoi`
abbrev pub number_at : Bytes → ℕ
number_at s = read_digits 0 (span is_space s).1

abbrev pub take_model : Bytes → Cpu → Run Cpu
take_model line c =
    if starts_with (codes "model name") line
    then (after_colon line >>= λ v. copied v >>= λ m. ok (record c { model = m }))
    else ok c

abbrev pub take_vendor : Bytes → Cpu → Run Cpu
take_vendor line c =
    if starts_with (codes "vendor_id") line
    then (after_colon line >>= λ v. copied v >>= λ m. ok (record c { model_type = m }))
    else ok c

abbrev pub take_cores : Bytes → Cpu → Run Cpu
take_cores line c =
    if starts_with (codes "cpu cores") line
    then (after_colon line >>= λ v. ok (record c { cores = number_at v }))
    else ok c

unfoldable pub cpu_line : Bytes → Cpu → Run Cpu
cpu_line line c = take_model line c >>= λ c. take_vendor line c >>= λ c. take_cores line c

unfoldable pub cpu_loop : List Bytes → Cpu → Run Cpu
cpu_loop [] c = ok c
cpu_loop (l ∷ ls) c = cpu_line l c >>= cpu_loop ls

-- `get_cpu_info`
unfoldable pub get_cpu_info : Option Bytes → Run (Shown Cpu)
get_cpu_info none = ok not_opened
get_cpu_info (some file) =
    cpu_loop (lines 255 255 file) (record { model = []; cores = 0; model_type = [] }) >>= λ c.
    ok (value c)

-- The digits at the start of a string, behind white space: their number, and what follows.
abbrev pub spelled : Bytes × Bytes → Option (ℕ × Bytes)
spelled ([], rest) = none
spelled (c ∷ d, rest) = some (read_digits 0 (c ∷ d), rest)

abbrev pub scan_number : Bytes → Option (ℕ × Bytes)
scan_number s = spelled (span is_digit (span is_space s).1)

pub record Time : Type 0 where
  pub days : ℕ
  pub hours : ℕ
  pub minutes : ℕ
  pub seconds : ℕ

-- The whole seconds of `uptime`, where `(int)uptime` is defined below 2^31 only.
abbrev pub split_time : ℕ → Run (Shown Time)
split_time n =
    if ltb n (2 ^ 31)
    then ok (
        value (record {
          days = n / 86400;
          hours = n % 86400 / 3600;
          minutes = n % 3600 / 60;
          seconds = n % 60;
        }))
    else fault

abbrev pub parsed_time : Option (ℕ × Bytes) → Run (Shown Time)
parsed_time none = ok not_parsed
parsed_time (some (n, rest)) = split_time n

abbrev pub uptime_line : Option Bytes → Run (Shown Time)
uptime_line none = ok not_read
uptime_line (some l) = parsed_time (scan_number l)

-- `get_uptime`
unfoldable pub get_uptime : Option Bytes → Run (Shown Time)
get_uptime none = ok not_opened
get_uptime (some file) = uptime_line (first_line 255 file)
