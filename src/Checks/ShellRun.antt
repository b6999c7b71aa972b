-- ===== src/Checks/ShellRun.antt =====
-- simpsh_v3.c: `ls`, an empty line, `date` and `quit`; and a line of 127 bytes.
use sp327_alonso_a.Common.{◌≡◌, refl, some, List, [], ◌∷◌, ◌++◌, true}
use sp327_alonso_a.Common.Bytes.{Bytes, codes}
use sp327_alonso_a.Shell.{quits, simpsh}
use sp327_alonso_a.Shell.Script.{script, succeeding, script_run}

abbrev typed : List Bytes
typed = codes "ls" ∷ [] ∷ codes "date" ∷ []

script_run_example :
    simpsh (some (codes "-v")) true succeeding (script typed (codes "quit" ++ 10 ∷ []))
    ≡ some (record { ran = codes "ls" ∷ codes "date" ∷ []; ending = quits })
script_run_example = script_run (some (codes "-v")) typed (codes "quit") [] refl refl refl refl refl
