-- ===== src/Pool/Progress.antt =====
-- Shutdown: from `thread_pool_destroy` on, some thread can always move, and moves run out.
use sp327_alonso_a.Common.{
  ℕ, ◌+◌, ◌-◌, ◌*◌, ◌≤◌, ◌<◌, ◌≡◌, refl, ap, ◌∙◌, ◌≢◌, false, List, [], ◌∷◌, ◌++◌, arith, length,
  length-append,
}
use native.Mathlib.Decide.{dec_lt, ℕ_discrete}
use sp327_alonso_a.Queue.Memory.{Ptr, null}
use sp327_alonso_a.Pool.{
  Pc, ready, asleep, working, exited, MainPc, joining, System, wake, Step, enqueue, notify, close,
  close_notify, join, finish, take, end, sleep, serve, spurious, Reach, here, later,
}
use sp327_alonso_a.Pool.Family.{total, total-update, total_mono}
use sp327_alonso_a.Pool.Interface.{Outcome, returned, waits, QueueImpl}
use sp327_alonso_a.Pool.Invariant.{Reach-Inv}
use sp327_alonso_a.Pool.Invariant.State.{Real, Inv, upcoming}
use sp327_alonso_a.Pool.Invariant.Cases.{take_case, sleep_case}

-- locked sections that a worker has at least ahead of it
weight : Pc → ℕ
weight ready = 1
weight asleep = 2
weight (working _) = 2
weight exited = 0

-- calls that `main` has ahead of it
main_left : ℕ → MainPc → ℕ
main_left n (joining i) = n + 1 - i
main_left n _ = 0

-- Steps that are left at most, with `plan` the requests of the whole run.
pub measure : {S : Type 0} → ℕ → List Ptr → System S → ℕ
measure n plan s = 3 * (length plan - length s.taken) + total weight n s.pc + main_left n s.main

weight-wake : (p : Pc) → weight (wake p) ≤ weight p
unfolding weight
weight-wake p = ground arith

module _ {S : Type 0} (Q : QueueImpl S) (n : ℕ) where
  open Q use {Holds, Dequeue, dequeue_law, dequeue_total}

  joining-le :
      {q : S} {plan : List Ptr} {s : System S}
      → Reach Q n q plan s
      → (i : ℕ) → s.main ≡ joining i
      → i ≤ n
  joining-le here i m = absurd (cc)
  joining-le (later r (enqueue _ _)) i m = absurd (cc)
  joining-le (later r (notify _)) i m = absurd (cc)
  joining-le (later r (close _ _)) i m = absurd (cc)
  joining-le (later r (close_notify _)) i m = ground arith
  joining-le (later r (join _ lt _)) i m = ground arith
  joining-le (later r (finish _)) i m = absurd (cc)
  joining-le (later r (take _ _ _ _ _)) i m = joining-le r i m
  joining-le (later r (end _ _ _ _ _)) i m = joining-le r i m
  joining-le (later r (sleep _ _ _ _)) i m = joining-le r i m
  joining-le (later r (serve _ _ _)) i m = joining-le r i m
  joining-le (later r (spurious _ _ _)) i m = joining-le r i m

  -- The locked section of worker `i` is a step.
  dequeue-Step :
      (s : System S) (i : ℕ)
      → i < n
      → s.pc i ≡ ready
      → (o : Outcome) (t : S) → Dequeue s.shared o t
      → (u : System S) × Step Q n s u
  dequeue-Step s i lt p (returned r) t d = elim (ℕ_discrete r null) [
    | yes z ↦ (_, end i lt p z d)
    | no ne ↦ (_, take i lt p ne d)
  ]
  dequeue-Step s i lt p waits t d = (_, sleep i lt p d)

  worker-Step :
      (s : System S) (i : ℕ) (p : Pc) {es : List Ptr} {c : _}
      → Holds s.shared es c
      → s.main ≡ joining i
      → i < n
      → s.pc i ≡ p
      → p ≢ asleep
      → (u : System S) × Step Q n s u
  worker-Step s i ready {es} {c} h m lt e ne =
      let (o, t, d) = dequeue_total s.shared es c h in dequeue-Step s i lt e o t d
  worker-Step s i asleep h m lt e ne = absurd (ne refl)
  worker-Step s i (working r) h m lt e ne = (_, serve i lt e)
  worker-Step s i exited h m lt e ne = (_, join m lt e)

  module _ {q : S} {plan : List Ptr} (empty : Holds q [] false) (real : Real plan) where
    -- From an empty open queue, with no `NULL` among the requests of `main`: in every reachable
    -- state in which `main` joins the workers, no worker sleeps and some step is possible, so the
    -- shutdown does not deadlock.
    pub shutdown_progress :
        {s : System S} (i : ℕ)
        → Reach Q n q plan s
        → s.main ≡ joining i
        → ((j : ℕ) → s.pc j ≢ asleep) × ((t : System S) × Step Q n s t)
    shutdown_progress {s} i r m =
        let v = Reach-Inv Q n empty real r in
        let awake : (j : ℕ) → s.pc j ≢ asleep = λ j p. ground (arith, v.sleepers j p, v.shut) in
        (
          awake,
          elim (dec_lt i n) [
            | yes lt ↦ worker-Step s i (s.pc i) v.holds m lt refl (awake i)
            | no last ↦
                let e : i ≡ n = omega (arith, joining-le r i m) in (_, finish (m ∙ ap joining e))
          ],
        )

    taken-lt :
        {s : System S} (r : Ptr) (t : S)
        → Inv Q n plan s
        → r ≢ null
        → Dequeue s.shared (returned r) t
        → length s.taken < length plan
    taken-lt {s} r t v ne d =
        let (rest, first, _) =
          take_case (Holds t) v.es v.closed r
            (dequeue_law s.shared t (returned r) v.es v.closed v.holds d) ne in
        omega (
          arith,
          ap length v.order,
          length-append s.taken (v.es ++ upcoming s.main),
          length-append v.es (upcoming s.main),
          ap length first,
        )

    -- From an empty open queue, with no `NULL` among the requests of `main`: each step of any
    -- thread out of a reachable state in which `main` joins the workers decreases a measure, so
    -- every shutdown ends.
    pub shutdown_terminates :
        {s t : System S} (i : ℕ)
        → Reach Q n q plan s
        → s.main ≡ joining i
        → Step Q n s t
        → measure n plan t < measure n plan s
    unfolding measure weight main_left
    shutdown_terminates {s} i r m (enqueue m' _) = absurd (cc)
    shutdown_terminates {s} i r m (notify m') = absurd (cc)
    shutdown_terminates {s} i r m (close m' _) = absurd (cc)
    shutdown_terminates {s} i r m (close_notify m') = absurd (cc)
    shutdown_terminates {s} i r m (join m' lt p) = ground arith
    shutdown_terminates {s} i r m (finish m') = ground arith
    shutdown_terminates {s} i r m (take k {r = a} {t} lt p ne d) = ground (
      arith,
      total-update weight n s.pc k (working a) lt,
      taken-lt a t (Reach-Inv Q n empty real r) ne d,
      length-append s.taken (a ∷ []),
    )
    shutdown_terminates {s} i r m (end k lt p z d) = ground (
      arith,
      total-update weight n (λ j. wake (s.pc j)) k exited lt,
      total_mono weight n (λ j. wake (s.pc j)) s.pc (λ j. weight-wake (s.pc j)),
    )
    shutdown_terminates {s} i r m (sleep k {t} lt p d) =
        let v = Reach-Inv Q n empty real r in
        let (_, open_, _) =
          sleep_case (Holds t) v.es v.closed
            (dequeue_law s.shared t waits v.es v.closed v.holds d) in
        ground (arith, v.shut)
    shutdown_terminates {s} i r m (serve k {r = a} lt p) =
        ground (arith, total-update weight n s.pc k ready lt)
    shutdown_terminates {s} i r m (spurious k lt p) = absurd ((shutdown_progress i r m).0 k p)
