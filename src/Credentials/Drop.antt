-- ===== src/Credentials/Drop.antt =====
-- The stages of setuid_demo.c, for every user that starts it.
use sp327_alonso_a.Common.{
  ℕ, ◌≡◌, ◌≢◌, refl, ◌∙◌, ap, inl, inr, Bool, true, false, ◌||◌, none, some, List, [], ◌∷◌, ◌==◌,
  if◌then◌else◌, arith, Bool-cases,
}
use sp327_alonso_a.Credentials.{Ids, Kernel, failure, user, restore, drop_for_good, setuid_demo}

-- An ID that a process may take: any with the effective user ID 0, otherwise one that it has.
abbrev pub may_take : ℕ → Ids → Bool
may_take u i = i.euid == 0 || u == i.ruid || u == i.euid || u == i.suid

-- What the manual pages say of the calls.
pub record Documented (k : Kernel) : Type 1 where
  pub ids : k.State → Ids
  pub getresuid_ids : (s : k.State) → k.getresuid s ≡ some (ids s)
  pub getuid_real : (s : k.State) → k.getuid s ≡ (ids s).ruid
  pub seteuid_allowed :
      (u : ℕ) (s : k.State)
      → may_take u (ids s) ≡ true
      → (t : k.State) × (k.seteuid u s ≡ some t) × (ids t ≡ record (ids s) { euid = u })
  pub setresuid_allowed :
      (u : ℕ) (s : k.State)
      → may_take u (ids s) ≡ true
      → (t : k.State) × (k.setresuid u u u s ≡ some t)
        × (ids t ≡ record { ruid = u; euid = u; suid = u })
  -- with the effective user ID 0 all three are set
  pub setuid_privileged :
      (u : ℕ) (s : k.State)
      → (ids s).euid ≡ 0
      → (t : k.State) × (k.setuid u s ≡ some t) × (ids t ≡ record { ruid = u; euid = u; suid = u })
  pub setuid_denied :
      (u : ℕ) (s : k.State)
      → ((ids s).euid == 0 || u == (ids s).ruid || u == (ids s).suid) ≡ false
      → k.setuid u s ≡ none

abbrev pub ids_of : ℕ → ℕ → ℕ → Ids
ids_of r e s = record { ruid = r; euid = e; suid = s }

module _ (k : Kernel) (d : Documented k) where
  open d use {ids, getresuid_ids, getuid_real}

  restore-user : (s : k.State) (r : ℕ) → ids s ≡ ids_of r r r → r ≢ 0 → restore k s ≡ failure
  unfolding restore
  restore-user s r e ne = rw (d.setuid_denied 0 s (rw e (ground (arith, ne))))

  restore-root :
      (s : k.State)
      → ids s ≡ ids_of 0 0 0
      → restore k s ≡ record { printed = ids_of 0 0 0 ∷ []; succeeded = true }
  unfolding restore
  restore-root s e =
      let (t, done, same) = d.setuid_privileged 0 s (ap (λ i. i.euid) e) in
      rw (done, getresuid_ids t, same)

  abbrev last_line : ℕ → List Ids
  last_line r = if r == 0 then ids_of 0 0 0 ∷ [] else []

  restore_lem :
      (s : k.State) (r : ℕ)
      → ids s ≡ ids_of r r r
      → restore k s ≡ record { printed = last_line r; succeeded = r == 0 }
  restore_lem s r e = elim (Bool-cases (r == 0)) [
    | inl root ↦
        let none_left : r ≡ 0 = ground arith in
        rw root (restore-root s (e ∙ ap (λ n. ids_of n n n) none_left))
    | inr user ↦ rw (user, restore-user s r e (ground arith))
  ]

  drop_for_good_lem :
      (s : k.State) (r : ℕ)
      → ids s ≡ ids_of r user 0
      → drop_for_good k s ≡ record { printed = ids_of r r r ∷ last_line r; succeeded = r == 0 }
  unfolding drop_for_good
  drop_for_good_lem s r e =
      let real : k.getuid s ≡ r = getuid_real s ∙ ap (λ i. i.ruid) e in
      let (t, done, same) = d.setresuid_allowed r s (rw e (ground arith)) in
      rw (real, done, getresuid_ids t, same, restore_lem t r same)

-- The program is set-user-ID root, so that it starts with the effective and saved ID 0 whatever the
-- real ID r of its user is, on a kernel as documented. It drops its privileges to user 1000, takes
-- them back, drops them again, and gives them up for good: the last attempt to get them back fails,
-- and the process with it, exactly if r is not 0. It prints the IDs of each stage.
pub setuid_demo_lem :
    (k : Kernel) (d : Documented k) (s : k.State) (r : ℕ)
    → d.ids s ≡ ids_of r 0 0
    → setuid_demo k s ≡ record {
      printed =
          ids_of r 0 0
          ∷ ids_of r user 0
          ∷ ids_of r 0 0
          ∷ ids_of r user 0
          ∷ ids_of r r r
          ∷ (if r == 0 then ids_of 0 0 0 ∷ [] else []);
      succeeded = r == 0;
    }
unfolding setuid_demo
setuid_demo_lem k d s r e =
    let (s1, e1, i1) = d.seteuid_allowed user s (rw e refl) in
    let j1 : d.ids s1 ≡ ids_of r user 0 = i1 ∙ ap (λ i. ids_of i.ruid user i.suid) e in
    let (s2, e2, i2) = d.seteuid_allowed 0 s1 (rw j1 (ground arith)) in
    let j2 : d.ids s2 ≡ ids_of r 0 0 = i2 ∙ ap (λ i. ids_of i.ruid 0 i.suid) j1 in
    let (s3, e3, i3) = d.seteuid_allowed user s2 (rw j2 refl) in
    let j3 : d.ids s3 ≡ ids_of r user 0 = i3 ∙ ap (λ i. ids_of i.ruid user i.suid) j2 in
    rw (
      d.getresuid_ids s,
      e,
      e1,
      d.getresuid_ids s1,
      j1,
      e2,
      d.getresuid_ids s2,
      j2,
      e3,
      d.getresuid_ids s3,
      j3,
      drop_for_good_lem k d s3 r j3,
    )
