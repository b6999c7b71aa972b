-- ===== src/Pool/Invariant/Steps.antt =====
-- Every step keeps the invariant.
use sp327_alonso_a.Common.{
  ℕ, ◌+◌, ◌<◌, ◌≡◌, refl, sym, ap, ◌∙◌, ◌≢◌, inl, inr, true, List, [], ◌∷◌, ◌++◌, arith,
}
use mathlib.Core.List.{append_assoc}
use native.Mathlib.Decide.{dec_lt}
use sp327_alonso_a.Queue.Memory.{Ptr, null}
use sp327_alonso_a.Pool.{
  Pc, ready, asleep, working, exited, MainPc, producing, notifying, closing, joining, finished,
  System, wake, Step, enqueue, notify, close, close_notify, join, finish, take, end, sleep, serve,
  spurious,
}
use sp327_alonso_a.Pool.Family.{update, total-update, total-eq}
use sp327_alonso_a.Pool.Interface.{returned, waits, QueueImpl}
use sp327_alonso_a.Pool.Invariant.State.{upcoming, is_closed, pending, Joined, in_hand, Inv}
use sp327_alonso_a.Pool.Invariant.Cases.{take_case, end_case, sleep_case, count-append}

wake-exited : (p : Pc) → wake p ≡ exited → p ≡ exited
wake-exited p h = ground arith

wake-ne-asleep : (p : Pc) → wake p ≢ asleep
wake-ne-asleep p h = ground arith

in_hand-wake : (a : Ptr) (p : Pc) → in_hand a (wake p) ≡ in_hand a p
in_hand-wake a p = ground arith

module _ {S : Type 0} (Q : QueueImpl S) (n : ℕ) (plan : List Ptr) where
  open Q use {Holds, Enqueue, Dequeue, Close, enqueue_law, dequeue_law, close_law}

  enqueue-Inv :
      {s : System S} {r : Ptr} {rest : List Ptr} {t : S}
      → Inv Q n plan s
      → s.main ≡ producing (r ∷ rest)
      → Enqueue r s.shared t
      → Inv Q n plan (record s { shared = t; main = notifying rest })
  enqueue-Inv {s} {r} {rest} {t} v m e = record {
    es = v.es ++ r ∷ [];
    closed = v.closed;
    holds = enqueue_law r s.shared t v.es v.closed v.holds e;
    order =
        v.order
        ∙ ap (λ u. s.taken ++ (v.es ++ upcoming u)) m
        ∙ ap (λ u. s.taken ++ u) (sym (append_assoc v.es (r ∷ []) rest));
    real = rw (append_assoc v.es (r ∷ []) rest) (rw m at v.real);
    shut = v.shut ∙ ap is_closed m;
    done = λ i x. ground (arith, v.done i);
    sleepers = λ i x. inl refl;
    counted = v.counted;
    joined = λ j x. elim x [ ];
  }

  take-Inv :
      {s : System S} (i : ℕ) {r : Ptr} {t : S}
      → Inv Q n plan s
      → i < n
      → s.pc i ≡ ready
      → r ≢ null
      → Dequeue s.shared (returned r) t
      → Inv Q n plan
          (record s { shared = t; pc = update s.pc i (working r); taken = s.taken ++ r ∷ [] })
  take-Inv {s} i {r} {t} v lt p ne d =
      let (rest, first, holds) =
        take_case (Holds t) v.es v.closed r
          (dequeue_law s.shared t (returned r) v.es v.closed v.holds d) ne in
      record {
        es = rest;
        closed = v.closed;
        holds = holds;
        order =
            v.order
            ∙ ap (λ u. s.taken ++ (u ++ upcoming s.main)) first
            ∙ sym (append_assoc s.taken (r ∷ []) (rest ++ upcoming s.main));
        real = (rw first at v.real).1;
        shut = v.shut;
        done = λ j x. ground (arith, v.done j);
        sleepers = λ j x. ground (arith, v.sleepers j);
        counted = λ a. ground (
          arith,
          v.counted a,
          total-update (in_hand a) n s.pc i (working r) lt,
          count-append a s.taken (r ∷ []),
        );
        joined = λ j x. ground (arith, v.joined j x);
      }

  end-Inv :
      {s : System S} (i : ℕ) {r : Ptr} {t : S}
      → Inv Q n plan s
      → i < n
      → s.pc i ≡ ready
      → r ≡ null
      → Dequeue s.shared (returned r) t
      → Inv Q n plan (record s { shared = t; pc = update (λ j. wake (s.pc j)) i exited })
  end-Inv {s} i {r} {t} v lt p z d =
      let (none_left, shut, holds) =
        end_case (Holds t) v.es (upcoming s.main) v.closed r
          (dequeue_law s.shared t (returned r) v.es v.closed v.holds d) z v.real in
      record {
        es = v.es;
        closed = v.closed;
        holds = rw (none_left, shut) holds;
        order = v.order;
        real = v.real;
        shut = v.shut;
        done = λ j x. (shut, none_left);
        sleepers = λ j x. ground (arith, wake-ne-asleep (s.pc j));
        counted = λ a. ground (
          arith,
          v.counted a,
          total-update (in_hand a) n (λ j. wake (s.pc j)) i exited lt,
          total-eq (in_hand a) n (λ j. wake (s.pc j)) s.pc (λ j. in_hand-wake a (s.pc j)),
        );
        joined = λ j x. ground (arith, v.joined j x);
      }

  sleep-Inv :
      {s : System S} (i : ℕ) {t : S}
      → Inv Q n plan s
      → i < n
      → s.pc i ≡ ready
      → Dequeue s.shared waits t
      → Inv Q n plan (record s { shared = t; pc = update s.pc i asleep })
  sleep-Inv {s} i {t} v lt p d =
      let (none_left, open_, holds) =
        sleep_case (Holds t) v.es v.closed (dequeue_law s.shared t waits v.es v.closed v.holds d) in
      record {
        es = v.es;
        closed = v.closed;
        holds = rw (none_left, open_) holds;
        order = v.order;
        real = v.real;
        shut = v.shut;
        done = λ j x. ground (arith, v.done j);
        sleepers = λ j x. inr (none_left, open_);
        counted = λ a. ground (arith, v.counted a, total-update (in_hand a) n s.pc i asleep lt);
        joined = λ j x. ground (arith, v.joined j x);
      }

  serve-Inv :
      {s : System S} (i : ℕ) {r : Ptr}
      → Inv Q n plan s
      → i < n
      → s.pc i ≡ working r
      → Inv Q n plan (record s { pc = update s.pc i ready; served = s.served ++ r ∷ [] })
  serve-Inv {s} i {r} v lt p = record {
    es = v.es;
    closed = v.closed;
    holds = v.holds;
    order = v.order;
    real = v.real;
    shut = v.shut;
    done = λ j x. ground (arith, v.done j);
    sleepers = λ j x. ground (arith, v.sleepers j);
    counted = λ a. ground (
      arith,
      v.counted a,
      total-update (in_hand a) n s.pc i ready lt,
      count-append a s.served (r ∷ []),
    );
    joined = λ j x. ground (arith, v.joined j x);
  }

  spurious-Inv :
      {s : System S} (i : ℕ)
      → Inv Q n plan s
      → i < n
      → s.pc i ≡ asleep
      → Inv Q n plan (record s { pc = update s.pc i ready })
  spurious-Inv {s} i v lt p = record {
    es = v.es;
    closed = v.closed;
    holds = v.holds;
    order = v.order;
    real = v.real;
    shut = v.shut;
    done = λ j x. ground (arith, v.done j);
    sleepers = λ j x. ground (arith, v.sleepers j);
    counted = λ a. ground (arith, v.counted a, total-update (in_hand a) n s.pc i ready lt);
    joined = λ j x. ground (arith, v.joined j x);
  }

  -- A broadcast of `main`, which goes from `m` to `m'`.
  broadcast-Inv :
      {s : System S} (m m' : MainPc)
      → Inv Q n plan s
      → s.main ≡ m
      → upcoming m ≡ upcoming m'
      → is_closed m ≡ is_closed m'
      → ((j : ℕ) → ¬ Joined n m' j)
      → Inv Q n plan (record s { main = m'; pc = λ j. wake (s.pc j) })
  broadcast-Inv {s} m m' v e up shut fresh = record {
    es = v.es;
    closed = v.closed;
    holds = v.holds;
    order = v.order ∙ ap (λ u. s.taken ++ (v.es ++ u)) (ap upcoming e ∙ up);
    real = rw (ap upcoming e ∙ up) at v.real;
    shut = v.shut ∙ ap is_closed e ∙ shut;
    done = λ j x. v.done j (wake-exited (s.pc j) x);
    sleepers = λ j x. absurd (wake-ne-asleep (s.pc j) x);
    counted = λ a. omega (
      arith,
      v.counted a,
      total-eq (in_hand a) n (λ j. wake (s.pc j)) s.pc (λ j. in_hand-wake a (s.pc j)),
    );
    joined = λ j x. absurd (fresh j x);
  }

  close-Inv :
      {s : System S} {t : S}
      → Inv Q n plan s
      → s.main ≡ producing []
      → Close s.shared t
      → Inv Q n plan (record s { shared = t; main = closing })
  close-Inv {s} {t} v e c = record {
    es = v.es;
    closed = true;
    holds = close_law s.shared t v.es v.closed v.holds c;
    order = v.order ∙ ap (λ u. s.taken ++ (v.es ++ upcoming u)) e;
    real = rw e at v.real;
    shut = refl;
    done = λ j x. (refl, (v.done j x).1);
    sleepers = λ j x. inl refl;
    counted = v.counted;
    joined = λ j x. elim x [ ];
  }

  -- `main` goes on in `thread_pool_destroy`, from `m` to `m'`.
  join-Inv :
      {s : System S} (m m' : MainPc)
      → Inv Q n plan s
      → s.main ≡ m
      → upcoming m ≡ upcoming m'
      → is_closed m ≡ is_closed m'
      → pending m ≡ pending m'
      → ((j : ℕ) → Joined n m' j → s.pc j ≡ exited)
      → Inv Q n plan (record s { main = m' })
  join-Inv {s} m m' v e up shut pend all = record {
    es = v.es;
    closed = v.closed;
    holds = v.holds;
    order = v.order ∙ ap (λ u. s.taken ++ (v.es ++ u)) (ap upcoming e ∙ up);
    real = rw (ap upcoming e ∙ up) at v.real;
    shut = v.shut ∙ ap is_closed e ∙ shut;
    done = v.done;
    sleepers = λ j x. rw (← pend, ← e) (v.sleepers j x);
    counted = v.counted;
    joined = all;
  }

  join-one :
      {s : System S} (i j : ℕ)
      → Inv Q n plan s
      → s.main ≡ joining i
      → s.pc i ≡ exited
      → j < i + 1
      → s.pc j ≡ exited
  join-one {s} i j v m p lt = elim (dec_lt j i) [
    | yes below ↦ v.joined j (rw m below)
    | no last ↦ let e : j ≡ i = omega arith in rw e p
  ]

  pub Step-Inv : {s t : System S} → Step Q n s t → Inv Q n plan s → Inv Q n plan t
  Step-Inv (enqueue m e) v = enqueue-Inv v m e
  Step-Inv (notify {rest} m) v =
      broadcast-Inv (notifying rest) (producing rest) v m refl refl (λ j x. x)
  Step-Inv (close m c) v = close-Inv v m c
  Step-Inv (close_notify m) v = broadcast-Inv closing (joining 0) v m refl refl (λ j x. omega arith)
  Step-Inv (join {i} m lt p) v =
      join-Inv (joining i) (joining (i + 1)) v m refl refl refl (λ j x. join-one i j v m p x)
  Step-Inv (finish m) v =
      join-Inv (joining n) finished v m refl refl refl (λ j x. v.joined j (rw m x))
  Step-Inv (take i lt p ne d) v = take-Inv i v lt p ne d
  Step-Inv (end i lt p z d) v = end-Inv i v lt p z d
  Step-Inv (sleep i lt p d) v = sleep-Inv i v lt p d
  Step-Inv (serve i lt p) v = serve-Inv i v lt p
  Step-Inv (spurious i lt p) v = spurious-Inv i v lt p
