-- ===== src/Pool/Invariant.antt =====
-- What holds in every state of the pool that the program can reach.
pub mod Cases
mod Steps
pub mod State
use sp327_alonso_a.Common.{
  ℕ, ◌+◌, ◌<◌, ◌≡◌, refl, sym, ap, ◌∙◌, ◌⊎◌, inl, inr, true, false, List, [], ◌++◌, arith,
}
use mathlib.Core.List.{append-nil}
use sp327_alonso_a.Queue.Memory.{Ptr}
use sp327_alonso_a.Pool.{ready, asleep, exited, finished, System, Reach, here, later, start}
use sp327_alonso_a.Pool.Family.{total-zero}
use sp327_alonso_a.Pool.Interface.{QueueImpl}
use State.{upcoming, pending, count, in_hand, Real, Inv}
use Steps.{Step-Inv}

module _ {S : Type 0} (Q : QueueImpl S) (n : ℕ) where
  open Q use {Holds}

  start-Inv :
      (q : S) (plan : List Ptr) → Holds q [] false → Real plan → Inv Q n plan (start Q n q plan)
  start-Inv q plan h real = record {
    es = [];
    closed = false;
    holds = h;
    order = refl;
    real = real;
    shut = refl;
    done = λ i x. cc;
    sleepers = λ i x. cc;
    counted = λ a. omega (arith, total-zero (in_hand a) n (λ _. ready) (λ j l. refl));
    joined = λ j x. elim x [ ];
  }

  module _ {q : S} {plan : List Ptr} (empty : Holds q [] false) (real : Real plan) where
    pub Reach-Inv : {s : System S} → Reach Q n q plan s → Inv Q n plan s
    Reach-Inv here = start-Inv q plan empty real
    Reach-Inv (later r st) = Step-Inv Q n plan st (Reach-Inv r)

    -- From an empty open queue, with no `NULL` among the requests of `main`: in every reachable
    -- state the requests taken so far are the first of those that `main` creates, in its order.
    pub fifo : {s : System S} → Reach Q n q plan s → (rest : List Ptr) × (plan ≡ s.taken ++ rest)
    fifo {s} r = let v = Reach-Inv r in (v.es ++ upcoming s.main, v.order)

    -- From an empty open queue, with no `NULL` among the requests of `main`: in every reachable
    -- state, if a worker sleeps, then the queue is empty and open, or `main` has yet to make the
    -- broadcast of its last call.
    pub no_lost_wakeup :
        {s : System S}
        → Reach Q n q plan s
        → (i : ℕ) → s.pc i ≡ asleep
        → (pending s.main ≡ true) ⊎ (Holds s.shared [] false)
    no_lost_wakeup {s} r i p =
        let v = Reach-Inv r in
        elim (v.sleepers i p) [
          | inl soon ↦ inl soon
          | inr (none_left, open_) ↦ inr (rw (none_left, open_) at v.holds)
        ]

    -- From an empty open queue, with no `NULL` among the requests of `main` and at least one
    -- worker: when `main` is through, the requests taken are all those of `main` in its order,
    -- each has been served as often as it was created, every worker has exited, and the queue is
    -- empty and closed.
    pub all_served :
        {s : System S}
        → Reach Q n q plan s
        → 0 < n
        → s.main ≡ finished
        → (s.taken ≡ plan)
          × ((a : Ptr) → count a s.served ≡ count a plan)
          × ((j : ℕ) → j < n → s.pc j ≡ exited)
          × Holds s.shared [] true
    all_served {s} r some_worker m =
        let v = Reach-Inv r in
        let gone : (j : ℕ) → j < n → s.pc j ≡ exited = λ j l. v.joined j (rw m l) in
        let (shut, none_left) = v.done 0 (gone 0 some_worker) in
        let same : plan ≡ s.taken =
          v.order
          ∙ ap (λ u. s.taken ++ (u ++ upcoming s.main)) none_left
          ∙ ap (λ u. s.taken ++ upcoming u) m
          ∙ append-nil s.taken in
        (
          sym same,
          λ a. rw same (
              omega
                (arith, v.counted a, total-zero (in_hand a) n s.pc (λ j l. rw (gone j l) refl))),
          gone,
          rw (none_left, shut) at v.holds,
        )
