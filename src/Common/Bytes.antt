-- ===== src/Common/Bytes.antt =====
-- C strings as lists of bytes, without their final NUL, and the calls of <string.h> and `sscanf`
-- that the programs make on them.
use Prim.Native.Char.{code}
use Prim.Native.String.{String}
use sp327_alonso_a.Common.{
  ℕ, zero, suc, ◌+◌, ◌-◌, ◌*◌, Bool, true, false, ◌&&◌, ◌||◌, not, Option, none, some, List, [],
  ◌∷◌, leb, ◌==◌, if◌then◌else◌,
}

abbrev pub Bytes : Type 0
Bytes = List ℕ

abbrev pub codes : String → Bytes
codes String.[] = []
codes (String.◌∷◌ c s) = code c ∷ codes s

-- A buffer as a C string: the bytes before the first NUL.
abbrev pub c_string : Bytes → Bytes
c_string [] = []
c_string (c ∷ s) = if c == 0 then [] else c ∷ c_string s

-- `fgets` with room for `left` bytes: up to the first newline, which is kept.
abbrev pub fgets : (left : ℕ) → Bytes → Bytes
fgets zero input = []
fgets (suc left) [] = []
fgets (suc left) (c ∷ input) = if c == 10 then c ∷ [] else c ∷ fgets left input

-- `isspace` in the C locale
abbrev pub is_space : ℕ → Bool
is_space c = c == 32 || (leb 9 c && leb c 13)

abbrev pub is_digit : ℕ → Bool
is_digit c = leb 48 c && leb c 57

-- The longest start of at most `max` bytes that pass the test, and what follows it.
abbrev pub span_max : ℕ → (ℕ → Bool) → Bytes → Bytes × Bytes
span_max zero p s = ([], s)
span_max (suc max) p [] = ([], [])
span_max (suc max) p (c ∷ s) =
    if p c then (c ∷ (span_max max p s).0, (span_max max p s).1) else ([], c ∷ s)

abbrev pub span : (ℕ → Bool) → Bytes → Bytes × Bytes
span p [] = ([], [])
span p (c ∷ s) = if p c then (c ∷ (span p s).0, (span p s).1) else ([], c ∷ s)

-- strncmp(s, prefix, strlen(prefix)) == 0
abbrev pub starts_with : Bytes → Bytes → Bool
starts_with [] s = true
starts_with (p ∷ ps) [] = false
starts_with (p ∷ ps) (c ∷ s) = p == c && starts_with ps s

-- `strchr`: the string from the first `c` on
abbrev pub strchr : ℕ → Bytes → Option Bytes
strchr c [] = none
strchr c (d ∷ s) = if c == d then some (d ∷ s) else strchr c s

-- `strstr` for "\r\n": the string from the first CR LF on
abbrev pub find_crlf : Bytes → Option Bytes
find_crlf [] = none
find_crlf (c ∷ []) = none
find_crlf (c ∷ d ∷ s) = if c == 13 && d == 10 then some (c ∷ d ∷ s) else find_crlf (d ∷ s)

abbrev pub not_space : ℕ → Bool
not_space c = not (is_space c)

-- `%s` of `sscanf`: white space is skipped, and a word has at least one byte.
abbrev pub word_of : Bytes × Bytes → Option (Bytes × Bytes)
word_of ([], rest) = none
word_of (c ∷ w, rest) = some (c ∷ w, rest)

abbrev pub scan_word : Bytes → Option (Bytes × Bytes)
scan_word s = word_of (span not_space (span is_space s).1)

-- the number that the digits at the start of a string spell, after `acc`
abbrev pub read_digits : ℕ → Bytes → ℕ
read_digits acc [] = acc
read_digits acc (c ∷ s) = if is_digit c then read_digits (10 * acc + (c - 48)) s else acc

abbrev pub all_of : (ℕ → Bool) → Bytes → Bool
all_of p [] = true
all_of p (c ∷ s) = p c && all_of p s
