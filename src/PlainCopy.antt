-- ===== src/PlainCopy.antt =====
-- booksrc/A_fileio/simpcp1.c: a copy by `read` and `write` whose results are arguments.
pub mod Shorts
use sp327_alonso_a.Common.{
  ℕ, suc, Bool, true, false, Option, none, some, List, [], ◌∷◌, ◌++◌, take, ltb, if◌then◌else◌,
}
use sp327_alonso_a.Common.Bytes.{Bytes}
use sp327_alonso_a.Common.Int.{ℤ, pos, negsuc, is_negative}

-- One round of the loop: the bytes that `read` gives, `none` on an error, and the count that `write`
-- returns, `none` on an error.
pub record Round : Type 0 where
  pub nr : Option Bytes
  pub nw : Option ℕ

-- The result of `docopy`, and the bytes that have come into the destination.
pub record Copied : Type 0 where
  pub ret : ℤ
  pub written : Bytes

abbrev pub also_written : Bytes → Copied → Copied
also_written s later = record later { written = s ++ later.written }

-- What `write` does with the bytes that were read; `later` is what the next rounds do.
unfoldable pub write_round : Bytes → Option ℕ → Copied → Copied
write_round buf none later = record { ret = negsuc 3; written = [] }
write_round buf (some nw) later = also_written (take nw buf) later

-- The loop of `docopy`; `read` returns 0 behind the last round, or where a round has no bytes.
unfoldable pub copy_loop : List Round → Copied
copy_loop [] = record { ret = pos 0; written = [] }
copy_loop (r ∷ rest) = elim r.nr [
  | none ↦ record { ret = negsuc 2; written = [] }
  | some [] ↦ record { ret = pos 0; written = [] }
  | some (c ∷ buf) ↦ write_round (c ∷ buf) r.nw (copy_loop rest)
]

unfoldable pub docopy : (stat malloc : Bool) → List Round → Copied
docopy stat malloc rounds =
    if stat
    then (if malloc then copy_loop rounds else record { ret = negsuc 1; written = [] })
    else record { ret = negsuc 0; written = [] }

-- How the program ends: with whether it reports success, and what is in the destination.
pub record Ended : Type 0 where
  pub success : Bool
  pub destination : Bytes

abbrev pub ended : Copied → Ended
ended c = record { success = if is_negative c.ret then false else true; destination = c.written }

-- `main`; `source` and `dest` say whether the files can be opened.
unfoldable pub simpcp : (argc : ℕ) (source dest stat malloc : Bool) → List Round → Ended
simpcp argc source dest stat malloc rounds =
    if ltb argc 3
    then record { success = false; destination = [] }
    else if source
    then (if dest
        then ended (docopy stat malloc rounds)
        else record { success = false; destination = [] })
    else record { success = false; destination = [] }
