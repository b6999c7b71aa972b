-- ===== src/SystemInfo/Fits.antt =====
-- `get_cpu_info` stays inside its arrays, and `get_uptime` splits the time.
use sp327_alonso_a.Common.{
  ℕ, ◌+◌, ◌-◌, ◌*◌, ◌/◌, ◌%◌, ◌^◌, ◌≤◌, ◌<◌, ◌≡◌, refl, inl, inr, Bool, true, false, ◌||◌, not,
  Option, none, some, List, [], ◌∷◌, length, leb, ◌==◌, arith, Bool-cases, lt→ltb,
}
use sp327_alonso_a.Common.Bytes.{Bytes, codes, span, starts_with, strchr}
use sp327_alonso_a.Common.Run.{Run, ok, fault, exits}
use sp327_alonso_a.SystemInfo.{
  onto_first, lines, value, not_newline, behind_colon, after_colon, copied, Cpu, take_model,
  take_vendor, take_cores, number_at, cpu_line, cpu_loop, get_cpu_info, Time, first_line,
  scan_number, get_uptime,
}

abbrev pub AllLines : (Bytes → Type 0) → List Bytes → Type 0
AllLines P [] = Unit {0}
AllLines P (l ∷ ls) = P l × AllLines P ls

-- No line is longer than the room, nor is the first one longer than what is left of it.
abbrev Short : (room left : ℕ) → List Bytes → Type 0
Short room left [] = Unit {0}
Short room left (l ∷ ls) = (length l ≤ left) × AllLines (λ l. length l ≤ room) ls

Short-all : (room : ℕ) (ls : List Bytes) → Short room room ls → AllLines (λ l. length l ≤ room) ls
Short-all room [] h = tt
Short-all room (l ∷ ls) h = h

onto_first-Short :
    (room left c : ℕ) (ls : List Bytes)
    → 2 ≤ left
    → Short room (left - 1) ls
    → Short room left (onto_first c ls)
onto_first-Short room left c [] h s = (omega arith, tt)
onto_first-Short room left c (l ∷ ls) h (p, s) = (omega arith, s)

lines-Short :
    (room left : ℕ) (s : Bytes) → 1 ≤ room → 1 ≤ left → Short room left (lines room left s)
unfolding lines
lines-Short room left [] r l = tt
lines-Short room left (c ∷ s) r l = elim (Bool-cases (c == 10 || leb left 1)) [
  | inl e ↦ rw e (omega arith, Short-all room (lines room room s) (lines-Short room room s r r))
  | inr e ↦ rw e (
      onto_first-Short room left c (lines room (left - 1) s) (ground arith)
        (lines-Short room (left - 1) s r (ground arith)))
]

strchr-short : (c : ℕ) (s t : Bytes) → strchr c s ≡ some t → length t ≤ length s
strchr-short c [] t h = absurd (cc h)
strchr-short c (d ∷ s) t h = ground (arith, strchr-short c s t)

length-span : (p : ℕ → Bool) (s : Bytes) → length (span p s).0 ≤ length s
length-span p [] = omega arith
length-span p (c ∷ s) = ground (arith, length-span p s)

abbrev pub has_value : Run Bytes → Bool
has_value (ok v) = true
has_value fault = false
has_value exits = false

-- A line that starts with one of the three labels has a colon, and at least a byte behind it.
abbrev pub labelled : Bytes → Bool
labelled l =
    starts_with (codes "model name") l
    || starts_with (codes "vendor_id") l
    || starts_with (codes "cpu cores") l

abbrev pub WellFormed : Bytes → Type 0
WellFormed l = (not (labelled l) || has_value (after_colon l)) ≡ true

behind_colon-length :
    (o : Option Bytes) (n : ℕ)
    → ((t : Bytes) → o ≡ some t → length t ≤ n)
    → has_value (behind_colon o) ≡ true
    → (v : Bytes) × (behind_colon o ≡ ok v) × (length v + 2 ≤ n)
behind_colon-length none n h e = absurd (cc e)
behind_colon-length (some []) n h e = absurd (cc e)
behind_colon-length (some (c ∷ [])) n h e = absurd (cc e)
behind_colon-length (some (c ∷ d ∷ v)) n h e = (v, refl, omega (arith, h (c ∷ d ∷ v) refl))

value_of :
    (l : Bytes)
    → has_value (after_colon l) ≡ true
    → (v : Bytes) × (after_colon l ≡ ok v) × (length v + 2 ≤ length l)
value_of l e = behind_colon-length (strchr 58 l) (length l) (strchr-short 58 l) e

copied_fits : (v : Bytes) → length v + 2 ≤ 255 → (m : Bytes) × (copied v ≡ ok m) × (length m ≤ 253)
copied_fits v h = (
  (span not_newline v).0,
  rw (lt→ltb (length v) 256 (omega arith)),
  omega (arith, length-span not_newline v),
)

labelled_value : (l : Bytes) → WellFormed l → labelled l ≡ true → has_value (after_colon l) ≡ true
labelled_value l w e = go (labelled l) (has_value (after_colon l)) w e
  where
    go : (a v : Bool) → (not a || v) ≡ true → a ≡ true → v ≡ true
    go a v h k = ground arith

or_first : (a b c : Bool) → a ≡ true → (a || b || c) ≡ true
or_first a b c h = ground (arith, h)

or_second : (a b c : Bool) → b ≡ true → (a || b || c) ≡ true
or_second a b c h = ground (arith, h)

or_third : (a b c : Bool) → c ≡ true → (a || b || c) ≡ true
or_third a b c h = ground (arith, h)

-- The value that stands behind the colon of a line.
abbrev Value : Bytes → Type 0
Value l = (v : Bytes) × (after_colon l ≡ ok v) × (length v + 2 ≤ length l)

model-Value : (l : Bytes) → WellFormed l → starts_with (codes "model name") l ≡ true → Value l
model-Value l w e = value_of l (
    labelled_value l w (
      or_first (starts_with (codes "model name") l) (starts_with (codes "vendor_id") l)
        (starts_with (codes "cpu cores") l) e))

vendor-Value : (l : Bytes) → WellFormed l → starts_with (codes "vendor_id") l ≡ true → Value l
vendor-Value l w e = value_of l (
    labelled_value l w (
      or_second (starts_with (codes "model name") l) (starts_with (codes "vendor_id") l)
        (starts_with (codes "cpu cores") l) e))

cores-Value : (l : Bytes) → WellFormed l → starts_with (codes "cpu cores") l ≡ true → Value l
cores-Value l w e = value_of l (
    labelled_value l w (
      or_third (starts_with (codes "model name") l) (starts_with (codes "vendor_id") l)
        (starts_with (codes "cpu cores") l) e))

abbrev CpuFits : Cpu → Type 0
CpuFits c = (length c.model ≤ 253) × (length c.model_type ≤ 253)

-- What the three tests of a round leave, each on its own.
take_model_fits :
    (l : Bytes) (c : Cpu)
    → WellFormed l
    → length l ≤ 255
    → CpuFits c
    → (d : Cpu) × (take_model l c ≡ ok d) × CpuFits d
take_model_fits l c w h fits = elim (Bool-cases (starts_with (codes "model name") l)) [
  | inr e ↦ (c, rw e, fits)
  | inl e ↦
      let (v, got, short) = model-Value l w e in
      let (m, put, le) = copied_fits v (omega arith) in
      (record c { model = m }, rw (e, got, put), (le, fits.1))
]

take_vendor_fits :
    (l : Bytes) (c : Cpu)
    → WellFormed l
    → length l ≤ 255
    → CpuFits c
    → (d : Cpu) × (take_vendor l c ≡ ok d) × CpuFits d
take_vendor_fits l c w h fits = elim (Bool-cases (starts_with (codes "vendor_id") l)) [
  | inr e ↦ (c, rw e, fits)
  | inl e ↦
      let (v, got, short) = vendor-Value l w e in
      let (m, put, le) = copied_fits v (omega arith) in
      (record c { model_type = m }, rw (e, got, put), (fits.0, le))
]

take_cores_fits :
    (l : Bytes) (c : Cpu)
    → WellFormed l
    → CpuFits c
    → (d : Cpu) × (take_cores l c ≡ ok d) × CpuFits d
take_cores_fits l c w fits = elim (Bool-cases (starts_with (codes "cpu cores") l)) [
  | inr e ↦ (c, rw e, fits)
  | inl e ↦
      let (v, got, short) = cores-Value l w e in
      (record c { cores = number_at v }, rw (e, got), fits)
]

cpu_line_fits :
    (l : Bytes) (c : Cpu)
    → WellFormed l
    → length l ≤ 255
    → CpuFits c
    → (d : Cpu) × (cpu_line l c ≡ ok d) × CpuFits d
unfolding cpu_line
cpu_line_fits l c w h fits =
    let (c1, e1, f1) = take_model_fits l c w h fits in
    let (c2, e2, f2) = take_vendor_fits l c1 w h f1 in
    let (c3, e3, f3) = take_cores_fits l c2 w f2 in (c3, rw (e1, e2) e3, f3)

cpu_loop_fits :
    (ls : List Bytes) (c : Cpu)
    → AllLines WellFormed ls
    → AllLines (λ l. length l ≤ 255) ls
    → CpuFits c
    → (d : Cpu) × (cpu_loop ls c ≡ ok d) × CpuFits d
unfolding cpu_loop
cpu_loop_fits [] c w h fits = (c, refl, fits)
cpu_loop_fits (l ∷ ls) c (w, ws) (h, hs) fits =
    let (c1, e1, f1) = cpu_line_fits l c w h fits in
    let (c2, e2, f2) = cpu_loop_fits ls c1 ws hs f1 in (c2, rw e1 e2, f2)

-- If every line of /proc/cpuinfo, cut into pieces of 255 bytes, that starts with one of the three
-- labels has a colon and at least one byte behind it, `get_cpu_info` prints without a fault: no
-- NULL pointer is followed, and both strings have at most 253 bytes, so that they fit their arrays.
pub get_cpu_info_fits :
    (file : Bytes)
    → AllLines WellFormed (lines 255 255 file)
    → (c : Cpu) × (get_cpu_info (some file) ≡ ok (value c))
      × (length c.model ≤ 253)
      × (length c.model_type ≤ 253)
unfolding get_cpu_info
get_cpu_info_fits file w =
    let short =
      Short-all 255 (lines 255 255 file) (lines-Short 255 255 file (omega arith) (omega arith)) in
    let (c, e, (m, t)) =
      cpu_loop_fits (lines 255 255 file) (record { model = []; cores = 0; model_type = [] }) w short
        (omega arith) in
    (c, rw e, m, t)

-- `get_uptime` on a file whose first line starts with the number n, below 2^31: what it prints as
-- days, hours, minutes and seconds adds up to n seconds, with less than 24 hours and less than 60
-- minutes and seconds.
pub get_uptime_lem :
    (file line rest : Bytes) (n : ℕ)
    → first_line 255 file ≡ some line
    → scan_number line ≡ some (n, rest)
    → n < 2 ^ 31
    → (t : Time) × (get_uptime (some file) ≡ ok (value t))
      × (t.days * 86400 + t.hours * 3600 + t.minutes * 60 + t.seconds ≡ n)
      × (t.hours < 24)
      × (t.minutes < 60)
      × (t.seconds < 60)
unfolding get_uptime
get_uptime_lem file line rest n first scanned small = (
  record { days = n / 86400; hours = n % 86400 / 3600; minutes = n % 3600 / 60; seconds = n % 60 },
  rw (first, scanned, lt→ltb n (2 ^ 31) small),
  omega arith,
  omega arith,
  omega arith,
  omega arith,
)
