-- ===== src/Credentials.antt =====
-- M6/setuid_demo.c: a set-user-ID program gives its privileges up and takes them back. The calls
-- on the credentials are a parameter, with what their manual pages say as laws.
pub mod Drop
use sp327_alonso_a.Common.{
  ℕ, ◌≡◌, ◌≢◌, Bool, true, false, ◌||◌, Option, none, some, List, [], ◌∷◌, ◌==◌,
}

-- The real, effective and saved user ID.
pub record Ids : Type 0 where
  pub ruid : ℕ
  pub euid : ℕ
  pub suid : ℕ

-- `none` where a call returns -1.
pub record Kernel : Type 1 where
  pub State : Type 0
  pub getresuid : State → Option Ids
  pub getuid : State → ℕ
  pub seteuid : ℕ → State → Option State
  pub setresuid : ℕ → ℕ → ℕ → State → Option State
  pub setuid : ℕ → State → Option State

-- What the process has printed, and whether it ends with EXIT_SUCCESS.
pub record Ended : Type 0 where
  pub printed : List Ids
  pub succeeded : Bool

abbrev pub failure : Ended
failure = record { printed = []; succeeded = false }

-- PRINT_IDS, and what comes behind it
abbrev pub print_ids : Option Ids → Ended → Ended
print_ids none rest = failure
print_ids (some ids) rest = record rest { printed = ids ∷ rest.printed }

abbrev pub if_done : {State : Type 0} → Option State → (State → Ended) → Ended
if_done none rest = failure
if_done (some s) rest = rest s

-- The user that the program drops its privileges to.
abbrev pub user : ℕ
user = 1000

module _ (k : Kernel) where
  open k use {State, getresuid, getuid, seteuid, setresuid, setuid}

  -- `main`, from its stages T5 back to T0
  unfoldable pub restore : State → Ended
  restore s =
      if_done (setuid 0 s) λ t. print_ids (getresuid t) (record { printed = []; succeeded = true })

  unfoldable pub drop_for_good : State → Ended
  drop_for_good s =
      if_done (setresuid (getuid s) (getuid s) (getuid s) s)
        λ t. print_ids (getresuid t) (restore t)

  unfoldable pub setuid_demo : State → Ended
  setuid_demo s = print_ids (getresuid s) (
      if_done (seteuid user s) λ s1. print_ids (getresuid s1) (
        if_done (seteuid 0 s1) λ s2.
          print_ids (getresuid s2)
            (if_done (seteuid user s2) λ s3. print_ids (getresuid s3) (drop_for_good s3))))
