-- ===== src/SystemInfo/Memory.antt =====
-- M5/system_info.c, `get_cpu_usage`, `get_memory_info` and `main`.
use mathlib.Core.Option
use sp327_alonso_a.Common.{
  ℕ, zero, suc, Option, none, some, List, [], ◌∷◌, drop, length, if◌then◌else◌,
}
use sp327_alonso_a.Common.Bytes.{Bytes, codes, starts_with, scan_word}
use sp327_alonso_a.Common.Run.{Run, ok, ◌>>=◌}
use sp327_alonso_a.SystemInfo.{
  lines, Shown, value, not_opened, not_parsed, nothing, scan_number, Cpu, Time, get_hostname,
  get_kernel_version, get_cpu_info, get_uptime,
}

-- The times of user mode, system mode and idle mode.
pub record Usage : Type 0 where
  pub user : ℕ
  pub system : ℕ
  pub idle : ℕ

-- "%s %ld %ld %ld %ld": the label, and as many numbers as are there, at most `count`.
unfoldable pub scan_numbers : (count : ℕ) → Bytes → Option (List ℕ)
scan_numbers zero s = some []
scan_numbers (suc count) s = elim (scan_number s) [
  | none ↦ none
  | some (n, rest) ↦ Option.map (λ ns. n ∷ ns) (scan_numbers count rest)
]

abbrev pub usage_of : Option (List ℕ) → Shown Usage
usage_of (some (user ∷ nice ∷ system ∷ idle ∷ [])) =
    value (record { user = user; system = system; idle = idle })
usage_of other = not_parsed

abbrev pub labelled_usage : Option (Bytes × Bytes) → Shown Usage
labelled_usage none = not_parsed
labelled_usage (some (label, rest)) = usage_of (scan_numbers 4 rest)

-- The loop of `get_cpu_usage`: the first line of all processors ends it.
unfoldable pub usage_loop : List Bytes → Shown Usage
usage_loop [] = nothing
usage_loop (l ∷ ls) =
    let rest = usage_loop ls in
    if starts_with (codes "cpu ") l then labelled_usage (scan_word l) else rest

unfoldable pub get_cpu_usage : Option Bytes → Shown Usage
unfolding usage_loop scan_numbers
get_cpu_usage none = not_opened
get_cpu_usage (some file) = usage_loop (lines 255 255 file)

pub record Memory : Type 0 where
  pub mem_total : ℕ
  pub mem_available : ℕ

-- sscanf(line, "label: %ld", &old): without a number `old` stays
abbrev pub number_or : ℕ → Option (ℕ × Bytes) → ℕ
number_or old none = old
number_or old (some (n, rest)) = n

abbrev pub scan_after : (label line : Bytes) (old : ℕ) → ℕ
scan_after label line old =
    if starts_with label line then number_or old (scan_number (drop (length label) line)) else old

-- One round of the loop of `get_memory_info`
unfoldable pub memory_line : Bytes → Memory → Memory
memory_line line m = record {
  mem_total =
      if starts_with (codes "MemTotal") line
      then scan_after (codes "MemTotal:") line m.mem_total
      else m.mem_total;
  mem_available =
      if starts_with (codes "MemAvailable") line
      then scan_after (codes "MemAvailable:") line m.mem_available
      else m.mem_available;
}

unfoldable pub memory_loop : List Bytes → Memory → Memory
memory_loop [] m = m
memory_loop (l ∷ ls) m = memory_loop ls (memory_line l m)

-- `get_memory_info`, with line[44]; it prints nothing where the file does not open
unfoldable pub get_memory_info : Option Bytes → Shown Memory
unfolding memory_loop memory_line
get_memory_info none = nothing
get_memory_info (some file) =
    value (memory_loop (lines 43 43 file) (record { mem_total = 0; mem_available = 0 }))

-- The files under /proc that the program opens.
pub record Proc : Type 0 where
  pub hostname : Option Bytes
  pub cpuinfo : Option Bytes
  pub version : Option Bytes
  pub meminfo : Option Bytes
  pub uptime : Option Bytes
  pub stat : Option Bytes

pub record Report : Type 0 where
  pub host : Shown Bytes
  pub cpu : Shown Cpu
  pub kernel : Shown Bytes
  pub memory : Shown Memory
  pub up : Shown Time
  pub usage : Shown Usage

-- `main`
unfoldable pub system_info : Proc → Run Report
system_info p = get_cpu_info p.cpuinfo >>= λ cpu. get_uptime p.uptime >>= λ up. ok (record {
  host = get_hostname p.hostname;
  cpu = cpu;
  kernel = get_kernel_version p.version;
  memory = get_memory_info p.meminfo;
  up = up;
  usage = get_cpu_usage p.stat;
})
