-- ===== src/Shell/Script.antt =====
-- simpsh_v3.c on lines that fit, and on lines that do not.
use sp327_alonso_a.Common.{
  ℕ, zero, suc, ◌+◌, ◌≤◌, ◌<◌, ◌≡◌, refl, ap, ◌≢◌, Bool, true, false, ◌&&◌, not, List, [], ◌∷◌,
  ◌++◌, Option, none, some, length, drop, ◌==◌, if◌then◌else◌, arith, leb, ◌-◌, ◌∙◌, length-append,
}
use sp327_alonso_a.Common.Bytes.{Bytes, codes, starts_with, c_string, fgets}
use sp327_alonso_a.Common.Run.{ok, fault}
use sp327_alonso_a.Shell.{
  without_last, shortened, getcmd, Launch, quits, Session, ended, is_empty, launched, round,
  do_simpsh_loop, do_simpsh, simpsh,
}

-- Bytes that are no newline and no NUL.
abbrev pub is_plain : Bytes → Bool
is_plain [] = true
is_plain (c ∷ s) = not (c == 10) && (not (c == 0) && is_plain s)

-- Why `fgets` stops behind the byte `b`: it is a newline, there is no room, or no input.
pub data Stops (b room : ℕ) (rest : Bytes) : Type 0 where
  newline : b ≡ 10 → Stops b room rest
  full : room ≡ 0 → Stops b room rest
  at_end : rest ≡ [] → Stops b room rest

fgets_nil : (n : ℕ) → fgets n [] ≡ []
fgets_nil zero = refl
fgets_nil (suc n) = refl

fgets_last : (b room : ℕ) (rest : Bytes) → Stops b room rest → fgets (suc room) (b ∷ rest) ≡ b ∷ []
fgets_last b room rest (newline e) = rw e
fgets_last b room rest (full e) = rw e (ground arith)
fgets_last b room rest (at_end e) = rw e (ground (arith, fgets_nil room))

one_more : (n room : ℕ) → n ≡ 0 + suc room → n ≡ suc room
one_more n room e = omega arith

fgets-append :
    (a : Bytes) (b room n : ℕ) (rest : Bytes)
    → n ≡ length a + suc room
    → is_plain a ≡ true
    → Stops b room rest
    → fgets n (a ++ b ∷ rest) ≡ a ++ b ∷ []
fgets-append [] b room n rest e p stop =
    ap (λ m. fgets m (b ∷ rest)) (one_more n room e) ∙ fgets_last b room rest stop
fgets-append (c ∷ a) b room zero rest e p stop = absurd (omega arith)
fgets-append (c ∷ a) b room (suc n) rest e p stop =
    ground (arith, fgets-append a b room n rest (omega arith))

c_string_plain :
    (a : Bytes) (b : ℕ) → is_plain a ≡ true → b ≢ 0 → c_string (a ++ b ∷ []) ≡ a ++ b ∷ []
c_string_plain [] b p h = ground arith
c_string_plain (c ∷ a) b p h = ground (arith, c_string_plain a b)

without_last-append : (a : Bytes) (b : ℕ) → without_last (a ++ b ∷ []) ≡ a
unfolding without_last
without_last-append [] b = refl
without_last-append (c ∷ []) b = refl
without_last-append (c ∷ d ∷ a) b = ap (λ t. c ∷ t) (without_last-append (d ∷ a) b)

shortened-append :
    (a : Bytes) (b : ℕ) (rest : Bytes) → shortened (a ++ b ∷ []) rest ≡ ok (some (a, rest))
unfolding shortened
shortened-append [] b rest = rw (without_last-append [] b)
shortened-append (c ∷ a) b rest = rw (without_last-append (c ∷ a) b)

drop-append :
    (a : Bytes) (b : ℕ) (rest : Bytes) → drop (length (a ++ b ∷ [])) (a ++ b ∷ rest) ≡ rest
drop-append [] b rest = refl
drop-append (c ∷ a) b rest = drop-append a b rest

getcmd_read :
    (input read : Bytes)
    → input ≢ []
    → fgets 126 input ≡ read
    → getcmd input ≡ shortened (c_string read) (drop (length read) input)
unfolding getcmd
getcmd_read [] read h e = absurd (h refl)
getcmd_read (c ∷ s) read h e = ap (λ r. shortened (c_string r) (drop (length r) (c ∷ s))) e

append_cons : (a : Bytes) (b : ℕ) (rest : Bytes) → a ++ b ∷ rest ≢ []
append_cons [] b rest e = absurd (cc e)
append_cons (c ∷ a) b rest e = absurd (cc e)

getcmd_cut :
    (a : Bytes) (b room : ℕ) (rest : Bytes)
    → 126 ≡ length a + suc room
    → is_plain a ≡ true
    → b ≢ 0
    → Stops b room rest
    → getcmd (a ++ b ∷ rest) ≡ ok (some (a, rest))
getcmd_cut a b room rest e p h stop =
    rw
      (
        getcmd_read (a ++ b ∷ rest) (a ++ b ∷ []) (append_cons a b rest)
            (fgets-append a b room 126 rest e p stop),
        c_string_plain a b p h,
        drop-append a b rest,
      )
      (shortened-append a b rest)

-- The input of a user: lines, each with its newline.
abbrev pub script : List Bytes → Bytes → Bytes
script [] rest = rest
script (l ∷ ls) rest = l ++ 10 ∷ script ls rest

-- A line that fits the buffer and does not begin with `quit`.
abbrev pub is_line : Bytes → Bool
is_line l = is_plain l && (leb (length l) 125 && not (starts_with (codes "quit") l))

abbrev pub are_lines : List Bytes → Bool
are_lines [] = true
are_lines (l ∷ ls) = is_line l && are_lines ls

abbrev pub non_empty : List Bytes → List Bytes
non_empty [] = []
non_empty (l ∷ ls) = if is_empty l then non_empty ls else l ∷ non_empty ls

-- Every `fork` and every `waitpid` succeeds.
abbrev pub succeeding : ℕ → Launch
succeeding i = record { forks = true; waits = true }

getcmd_line :
    (l rest : Bytes)
    → is_plain l ≡ true
    → leb (length l) 125 ≡ true
    → getcmd (l ++ 10 ∷ rest) ≡ ok (some (l, rest))
getcmd_line l rest p h =
    getcmd_cut l 10 (125 - length l) rest (ground arith) p (λ e. absurd (omega arith))
      (newline refl)

succeeding_later : (b : Bool) → (if b then succeeding else λ i. succeeding (suc i)) ≡ succeeding
succeeding_later true = refl
succeeding_later false = refl

round_quit :
    (q : Bytes) (later : Session)
    → starts_with (codes "quit") q ≡ true
    → round q (succeeding 0) later ≡ ended quits
unfolding round
round_quit q later t = rw t

round_line :
    (l : Bytes) (later : Session)
    → starts_with (codes "quit") l ≡ false
    → round l (succeeding 0) later
      ≡ record { ran = if is_empty l then later.ran else l ∷ later.ran; ending = later.ending }
unfolding round launched
round_line [] later t = refl
round_line (c ∷ l) later t = rw t

line_parts : (p h q : Bool) → (p && (h && not q)) ≡ true → (p ≡ true) × (h ≡ true) × (q ≡ false)
line_parts p h q e = (ground arith, ground arith, ground arith)

loop_line :
    (fuel : ℕ) (l rest : Bytes)
    → is_plain l ≡ true
    → leb (length l) 125 ≡ true
    → do_simpsh_loop (suc fuel) succeeding (l ++ 10 ∷ rest)
      ≡ round l (succeeding 0) (do_simpsh_loop fuel succeeding rest)
unfolding do_simpsh_loop
loop_line fuel l rest p h =
    rw (do_simpsh_loop, getcmd_line l rest p h, succeeding_later (is_empty l)) refl

both : (a b : Bool) → (a && b) ≡ true → (a ≡ true) × (b ≡ true)
both a b e = (ground arith, ground arith)

loop_script :
    (fuel : ℕ) (ls : List Bytes) (q rest : Bytes)
    → length ls < fuel
    → are_lines ls ≡ true
    → is_plain q ≡ true
    → leb (length q) 125 ≡ true
    → starts_with (codes "quit") q ≡ true
    → do_simpsh_loop fuel succeeding (script ls (q ++ 10 ∷ rest))
      ≡ record { ran = non_empty ls; ending = quits }
loop_script zero ls q rest h w p r t = absurd (omega arith)
loop_script (suc fuel) [] q rest h w p r t =
    rw (loop_line fuel q rest p r) (round_quit q (do_simpsh_loop fuel succeeding rest) t)
loop_script (suc fuel) (l ∷ ls) q rest h w p r t =
    let (first, later) = both (is_line l) (are_lines ls) w in
    let (plain, short, no_quit) =
      line_parts (is_plain l) (leb (length l) 125) (starts_with (codes "quit") l) first in
    rw (
      loop_line fuel l (script ls (q ++ 10 ∷ rest)) plain short,
      round_line l (do_simpsh_loop fuel succeeding (script ls (q ++ 10 ∷ rest))) no_quit,
      loop_script fuel ls q rest (omega arith) later p r t,
    )

abbrev pub asks_help : Option Bytes → Bool
asks_help none = false
asks_help (some arg) = starts_with (codes "--help") arg

started :
    (arg : Option Bytes) (launches : ℕ → Launch) (input : Bytes)
    → asks_help arg ≡ false
    → simpsh arg true launches input ≡ some (do_simpsh_loop (suc (length input)) launches input)
unfolding simpsh do_simpsh
started none launches input e = refl
started (some arg) launches input e = rw e

getcmd_nul : (rest : Bytes) → getcmd (0 ∷ rest) ≡ fault
unfolding getcmd shortened
getcmd_nul rest = refl

length-script : (ls : List Bytes) (rest : Bytes) → length ls + length rest ≤ length (script ls rest)
length-script [] rest = omega arith
length-script (l ∷ ls) rest =
    omega (arith, length-script ls rest, length-append l (10 ∷ script ls rest))

-- A user types lines of at most 125 bytes, without NUL, of which none begins with `quit`, and then
-- such a line that begins with `quit`, whatever follows; memory is there, and every `fork` and
-- `waitpid` succeeds. Without an argument, or with one that does not begin with `--help`, the shell
-- then starts a child for each line that is not empty, in order and with that line as its command,
-- and ends by the `quit`.
pub script_run :
    (arg : Option Bytes) (ls : List Bytes) (q rest : Bytes)
    → asks_help arg ≡ false
    → are_lines ls ≡ true
    → is_plain q ≡ true
    → leb (length q) 125 ≡ true
    → starts_with (codes "quit") q ≡ true
    → simpsh arg true succeeding (script ls (q ++ 10 ∷ rest))
      ≡ some (record { ran = non_empty ls; ending = quits })
script_run arg ls q rest a w p r t = rw (
  started arg succeeding (script ls (q ++ 10 ∷ rest)) a,
  loop_script (suc (length (script ls (q ++ 10 ∷ rest)))) ls q rest
      (omega (arith, length-script ls (q ++ 10 ∷ rest))) w p r t,
)

-- For a byte that is no NUL behind at most 125 bytes that are no newline and no NUL: if `fgets`
-- stops behind that byte, since it is a newline, since there is no room, or since the input ends,
-- then `getcmd` gives the bytes before it as the command and drops that byte, whatever it is. So
-- the byte 126 of a longer line is lost, and the rest of that line is the next command. And a line
-- that begins with NUL makes `getcmd` write before its block.
pub getcmd_last_byte :
    (a : Bytes) (b room : ℕ) (rest : Bytes)
    → 126 ≡ length a + suc room
    → is_plain a ≡ true
    → b ≢ 0
    → Stops b room rest
    → (getcmd (a ++ b ∷ rest) ≡ ok (some (a, rest))) × (getcmd (0 ∷ rest) ≡ fault)
getcmd_last_byte a b room rest e p h stop = (getcmd_cut a b room rest e p h stop, getcmd_nul rest)
