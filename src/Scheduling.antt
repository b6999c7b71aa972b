-- ===== src/Scheduling.antt =====
-- booksrc/solutions_to_assgn/ch17/assgn2.c: three threads, one of which is given another scheduling
-- policy and priority. The kernel is an argument: which attributes each thread ID has, 0 being the
-- caller's own, and what a `sched_setattr` makes of a thread's attributes, if it accepts the new
-- ones. The program leaves `sched_nice` and `sched_flags` of the new ones unset, so their values are
-- arguments too. The numbers are those that `atoi` has read.
pub mod Change
use sp327_alonso_a.Common.{
  ℕ, zero, suc, ◌+◌, Bool, true, false, not, ◌||◌, Option, none, some, List, [], ◌∷◌, ◌++◌, ◌==◌,
  if◌then◌else◌,
}
use sp327_alonso_a.Common.Int.{ℤ, pos, ltb_ℤ, is_negative, pos_part}

-- `struct sched_attr`, without the fields for SCHED_DEADLINE
pub record SchedAttr : Type 0 where
  pub sched_policy : ℕ
  pub sched_flags : ℕ
  pub sched_nice : ℤ
  pub sched_priority : ℕ

abbrev pub Attrs : Type 0
Attrs = ℕ → Option SchedAttr

-- What is printed, with the number or the ID of the thread.
pub data Line : Type 0 where
  not_read : (threadid : ℕ) → Line
  unset_values : (thrdnum : ℕ) → Line
  shown : (thrdnum : ℕ) → SchedAttr → Line
  now_making : (thrdnum policy rtprio : ℕ) → Line
  not_set : (thrdnum : ℕ) → Line
  joined : (thrdnum : ℕ) → (canceled : Bool) → Line
  not_joined : (ret : ℕ) → Line

-- Behind a failing `sched_getattr` the fields are printed as they are.
abbrev pub get_show_sched : (thrdnum threadid : ℕ) → Attrs → List Line
get_show_sched thrdnum threadid attrs = elim (attrs threadid) [
  | none ↦ not_read threadid ∷ unset_values thrdnum ∷ []
  | some attr ↦ shown thrdnum attr ∷ []
]

-- `tpid`, `sched_setattr` on the old attributes and the new, and the two values left unset.
pub record Kernel : Type 0 where
  pub tpid : ℕ → ℕ
  pub sched_setattr : SchedAttr → SchedAttr → Option SchedAttr
  pub flags : ℕ
  pub nice : ℤ

abbrev pub with_attr : Attrs → (threadid : ℕ) → SchedAttr → Attrs
with_attr attrs threadid attr p = if p == threadid then some attr else attrs p

abbrev pub asked : Kernel → (policy rtprio : ℕ) → SchedAttr
asked k policy rtprio = record {
  sched_policy = policy;
  sched_flags = k.flags;
  sched_nice = k.nice;
  sched_priority = rtprio;
}

abbrev pub and_then : {A B : Type 0} → Option A → (A → Option B) → Option B
and_then none f = none
and_then (some a) f = f a

abbrev pub set_sched : Kernel → (thrdnum policy rtprio : ℕ) → Attrs → List Line × Attrs
set_sched k thrdnum policy rtprio attrs =
    if k.tpid thrdnum == 0
    then ([], attrs)
    else elim (and_then (attrs (k.tpid thrdnum))
        (λ old. k.sched_setattr old (asked k policy rtprio))) [
          | none ↦ (not_set thrdnum ∷ [], attrs)
          | some attr ↦ ([], with_attr attrs (k.tpid thrdnum) attr)
        ]

-- The second half of `change_sched_policy_prio`.
abbrev pub changed : Kernel → (thrd2change policy rtprio : ℕ) → Attrs → List Line × Attrs
changed k thrd2change policy rtprio attrs =
    let (out, later) = set_sched k thrd2change policy rtprio attrs in
    (
      now_making thrd2change policy rtprio ∷ out
          ++ get_show_sched thrd2change (k.tpid thrd2change) later,
      later,
    )

unfoldable pub change_sched_policy_prio :
    Kernel → (thrdnum thrd2change policy rtprio : ℕ) → Attrs → List Line × Attrs
change_sched_policy_prio k thrdnum thrd2change policy rtprio attrs =
    let before =
      if k.tpid thrdnum == 0 then [] else get_show_sched thrdnum (k.tpid thrdnum) attrs in
    let (out, later) =
      if thrdnum == thrd2change then changed k thrd2change policy rtprio attrs else ([], attrs) in
    (before ++ out, later)

-- The loop over the threads, from `i` on with rounds left.
unfoldable pub change_loop :
    Kernel → (left i thrd2change policy rtprio : ℕ) → Attrs → List Line × Attrs
unfolding change_sched_policy_prio
change_loop k zero i thrd2change policy rtprio attrs = ([], attrs)
change_loop k (suc left) i thrd2change policy rtprio attrs =
    let (out, later) = change_sched_policy_prio k i thrd2change policy rtprio attrs in
    let (rest, last) = change_loop k left (i + 1) thrd2change policy rtprio later in
    (out ++ rest, last)

-- What `pthread_join` gives for a thread: an error, or whether the thread was canceled.
pub data Join : Type 0 where
  error : (ret : ℕ) → Join
  ended : (canceled : Bool) → Join

abbrev pub join_line : (thrdnum : ℕ) → Join → Line
join_line thrdnum (error ret) = not_joined ret
join_line thrdnum (ended canceled) = joined thrdnum canceled

abbrev pub nthreads : ℕ
nthreads = 3

-- The join loop, from `i` on with rounds left.
unfoldable pub join_loop : (ℕ → Join) → (left i : ℕ) → List Line
join_loop joins zero i = []
join_loop joins (suc left) i = join_line i (joins i) ∷ join_loop joins left (i + 1)

-- The creation of the threads: whether `calloc` and `pthread_create` succeed for each.
unfoldable pub all_created : (ℕ → Bool) → (left i : ℕ) → Bool
all_created creates zero i = true
all_created creates (suc left) i =
    let rest = all_created creates left (i + 1) in if creates i then rest else false

-- `ARGS_FAIL` with its parameter, -1 being `none`; FATAL; or a run to the end.
pub data Ended : Type 0 where
  args_fail : Option ℕ → Ended
  fatal : Ended
  ran : List Line → Attrs → Ended

-- `main` behind the validation of its arguments.
unfoldable pub run_threads :
    Kernel → (creates : ℕ → Bool) → (joins : ℕ → Join) → (thrdnum policy rtprio : ℕ) → Attrs → Ended
unfolding all_created change_loop join_loop
run_threads k creates joins thrdnum policy rtprio attrs =
    if all_created creates nthreads 0
    then (let (out, later) = change_loop k nthreads 0 thrdnum policy rtprio attrs in
        ran (out ++ join_loop joins nthreads 0) later)
    else fatal

abbrev pub out_of : ℤ → ℤ → ℤ → Bool
out_of low high n = ltb_ℤ n low || ltb_ℤ high n

-- `main`, with the numbers in its arguments and the least and the greatest priority of SCHED_FIFO
unfoldable pub assgn2 :
    Kernel
    → (creates : ℕ → Bool) → (joins : ℕ → Join) → (least greatest : ℤ) → List ℤ
    → Attrs
    → Ended
unfolding run_threads
assgn2 k creates joins least greatest (thrdnum ∷ policy ∷ rtprio ∷ []) attrs =
    if is_negative thrdnum || not (ltb_ℤ thrdnum (pos nthreads))
    then args_fail (some 1)
    else if is_negative policy || not (ltb_ℤ policy (pos 3))
    then args_fail (some 2)
    else if out_of least greatest rtprio
    then args_fail (some 3)
    else run_threads k creates joins (pos_part thrdnum) (pos_part policy) (pos_part rtprio) attrs
assgn2 k creates joins least greatest other attrs = args_fail none
