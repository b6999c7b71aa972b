-- ===== src/Scheduling/Change.antt =====
-- What assgn2.c changes.
use sp327_alonso_a.Common.{
  ℕ, zero, suc, ◌+◌, ◌≤◌, ◌<◌, ◌≡◌, ◌≢◌, refl, ap, ◌∙◌, ◌⊎◌, inl, inr, Bool, true, Option, none,
  some, List, [], ◌∷◌, ◌++◌, arith,
}
use native.Mathlib.Decide.{ℕ_discrete}
use sp327_alonso_a.Common.Int.{pos}
use sp327_alonso_a.Scheduling.{
  SchedAttr, Attrs, Line, Kernel, with_attr, asked, set_sched, change_sched_policy_prio,
  change_loop, Join, join_loop, all_created, ran, run_threads, assgn2, nthreads,
}

-- The attributes of all threads behind a call that the kernel answers for one of them.
abbrev pub effect : Attrs → (threadid : ℕ) → Option SchedAttr → Attrs
effect attrs threadid none = attrs
effect attrs threadid (some new) = with_attr attrs threadid new

module _ (k : Kernel) (policy rtprio : ℕ) where
  -- The attributes behind a round of the loop, and behind the loop.
  other_round :
      (i t : ℕ) (attrs : Attrs)
      → i ≢ t
      → (change_sched_policy_prio k i t policy rtprio attrs).1 ≡ attrs
  unfolding change_sched_policy_prio
  other_round i t attrs h = ground arith

  own_round :
      (t : ℕ) (attrs : Attrs)
      → (change_sched_policy_prio k t t policy rtprio attrs).1
        ≡ (set_sched k t policy rtprio attrs).1
  unfolding change_sched_policy_prio
  own_round t attrs = ground arith

  loop_behind :
      (left i t : ℕ) (attrs : Attrs)
      → t < i
      → (change_loop k left i t policy rtprio attrs).1 ≡ attrs
  unfolding change_loop
  loop_behind zero i t attrs h = refl
  loop_behind (suc left) i t attrs h =
      loop_behind left (i + 1) t _ (omega arith) ∙ other_round i t attrs (λ e. absurd (omega arith))

  loop_of :
      (left i t : ℕ) (attrs : Attrs)
      → i ≤ t
      → t < i + left
      → (change_loop k left i t policy rtprio attrs).1 ≡ (set_sched k t policy rtprio attrs).1
  unfolding change_loop
  loop_of zero i t attrs h l = absurd (omega arith)
  loop_of (suc left) i t attrs h l = elim (ℕ_discrete i t) [
    | yes e ↦
        loop_behind left (i + 1) t _ (omega arith)
        ∙ ap (λ j. (change_sched_policy_prio k j t policy rtprio attrs).1) e
        ∙ own_round t attrs
    | no ne ↦
        loop_of left (i + 1) t _ (omega arith) (omega arith)
        ∙ ap (λ s. (set_sched k t policy rtprio s).1) (other_round i t attrs ne)
  ]

  module _ (t : ℕ) (attrs : Attrs) (old : SchedAttr) (started : k.tpid t ≢ 0)
      (lives : attrs (k.tpid t) ≡ some old) where
    set-effect :
        (set_sched k t policy rtprio attrs).1
        ≡ effect attrs (k.tpid t) (k.sched_setattr old (asked k policy rtprio))
    set-effect = ground arith

every_creation :
    (creates : ℕ → Bool) (left i : ℕ)
    → ((j : ℕ) → j < i + left → creates j ≡ true)
    → all_created creates left i ≡ true
unfolding all_created
every_creation creates zero i h = refl
every_creation creates (suc left) i h =
    rw (h i (omega arith)) (every_creation creates left (i + 1) (λ j l. h j (omega arith)))

module _ (k : Kernel) (creates : ℕ → Bool) (joins : ℕ → Join) (least greatest : ℕ) where
  valid :
      (t policy rtprio : ℕ) (attrs : Attrs)
      → t < nthreads
      → policy < 3
      → least ≤ rtprio
      → rtprio ≤ greatest
      → assgn2 k creates joins
          (pos least)
          (pos greatest)
          (pos t ∷ pos policy ∷ pos rtprio ∷ [])
          attrs
        ≡ run_threads k creates joins t policy rtprio attrs
  unfolding assgn2
  valid t policy rtprio attrs h l m g = ground arith

  runs :
      (t policy rtprio : ℕ) (attrs : Attrs)
      → ((j : ℕ) → j < nthreads → creates j ≡ true)
      → (out : List Line) × (run_threads k creates joins t policy rtprio attrs
          ≡ ran out (change_loop k nthreads 0 t policy rtprio attrs).1)
  unfolding run_threads
  runs t policy rtprio attrs h = (
    (change_loop k nthreads 0 t policy rtprio attrs).0 ++ join_loop joins nthreads 0,
    rw (every_creation creates nthreads 0 h) refl,
  )

  -- With valid arguments, when the threads can be created and the one asked for has stored its ID and
  -- lives: the program runs to its end. If the kernel accepts the attributes asked for, with the two
  -- values that the program leaves unset, the thread has what the kernel makes of them, and every
  -- other thread is as it was. If the kernel refuses them, which it does for SCHED_OTHER, policy 0,
  -- with a priority that is not 0, no thread is changed; since the least priority that the program
  -- takes is at least 1, it never sets SCHED_OTHER.
  pub assgn2-changes :
      (t policy rtprio : ℕ) (attrs : Attrs) (old : SchedAttr)
      → t < nthreads
      → policy < 3
      → least ≤ rtprio
      → rtprio ≤ greatest
      → 1 ≤ least
      → ((j : ℕ) → j < nthreads → creates j ≡ true)
      → k.tpid t ≢ 0
      → attrs (k.tpid t) ≡ some old
      → ((a b : SchedAttr) → b.sched_policy ≡ 0 → b.sched_priority ≢ 0 → k.sched_setattr a b ≡ none)
      → (out : List Line) × (later : Attrs) × (assgn2 k creates joins
            (pos least)
            (pos greatest)
            (pos t ∷ pos policy ∷ pos rtprio ∷ [])
            attrs
          ≡ ran out later)
        × (later ≡ effect attrs (k.tpid t) (k.sched_setattr old (asked k policy rtprio)))
        × ((policy ≢ 0) ⊎ (later ≡ attrs))
  assgn2-changes t policy rtprio attrs old h l m g one creation started lives rule =
      let (out, run) = runs t policy rtprio attrs creation in
      let turn = loop_of k policy rtprio nthreads 0 t attrs (omega arith) h in
      let same = turn ∙ set-effect k policy rtprio t attrs old started lives in
      (
        out,
        (change_loop k nthreads 0 t policy rtprio attrs).1,
        valid t policy rtprio attrs h l m g ∙ run,
        same,
        elim (ℕ_discrete policy 0) [
          | yes e ↦ inr (
              same
              ∙ ap (effect attrs (k.tpid t)) (rule old (asked k policy rtprio) e (omega arith)))
          | no ne ↦ inl ne
        ],
      )
