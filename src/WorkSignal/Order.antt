-- ===== src/WorkSignal/Order.antt =====
-- Thread A of cv_simple.c goes on behind its wait only when thread B is through.
use sp327_alonso_a.Common.{
  ◌≡◌, refl, Bool, true, false, ◌&&◌, ◌||◌, arith, sym, not, Bool-cases, inl, inr,
}
use sp327_alonso_a.WorkSignal.{
  ThreadA, unborn, at_lock, at_wait, asleep, woken, at_recheck, at_unlock, ended, ThreadB, unborn_b,
  at_work, at_store, at_signal, at_release, ended_b, Owner, nobody, Process, running, exited, died,
  signalled, Kind, Step, creates_a, creates_b, leaves, locks_a, waits, wakes, relocks, finds_done,
  goes_back, unlocks_a, locks_b, stores, signals, unlocks_b, fails, Reach, here, next, any_kind,
  launched,
}

-- Which thread is inside its locked section.
abbrev holds_a : ThreadA → Bool
holds_a at_wait = true
holds_a at_recheck = true
holds_a at_unlock = true
holds_a _ = false

abbrev holds_b : ThreadB → Bool
holds_b at_store = true
holds_b at_signal = true
holds_b at_release = true
holds_b _ = false

abbrev is_held : Owner → Bool
is_held nobody = false
is_held _ = true

-- Thread B has stored to `gWorkDone`; it is through.
abbrev stored : ThreadB → Bool
stored at_signal = true
stored at_release = true
stored ended_b = true
stored _ = false

abbrev through : ThreadB → Bool
through ended_b = true
through _ = false

-- Thread A is behind its loop.
abbrev past : ThreadA → Bool
past at_unlock = true
past ended = true
past _ = false

record Inv (a : ThreadA) (b : ThreadB) (o : Owner) (w : Bool) : Type 0 where
  exclusive : (holds_a a && holds_b b) ≡ false
  held : is_held o ≡ (holds_a a || holds_b b)
  done : w ≡ stored b
  awaited : past a ≡ true → through b ≡ true

abbrev Kept : Process → Type 0
Kept (running a b o w) = Inv a b o w
Kept exited = Unit
Kept died = Unit

signalled_same : (a : ThreadA) → (holds_a (signalled a) ≡ holds_a a) × (past (signalled a) ≡ past a)
unfolding signalled
signalled_same unborn = (refl, refl)
signalled_same at_lock = (refl, refl)
signalled_same at_wait = (refl, refl)
signalled_same asleep = (refl, refl)
signalled_same woken = (refl, refl)
signalled_same at_recheck = (refl, refl)
signalled_same at_unlock = (refl, refl)
signalled_same ended = (refl, refl)

stored-through : (b : ThreadB) → holds_b b ≡ false → stored b ≡ true → through b ≡ true
stored-through unborn_b h k = absurd (cc k)
stored-through at_work h k = absurd (cc k)
stored-through at_store h k = absurd (cc h)
stored-through at_signal h k = absurd (cc h)
stored-through at_release h k = absurd (cc h)
stored-through ended_b h k = refl

Step-Kept : {k : Kind} {s t : Process} → Step k s t → Kept s → Kept t
Step-Kept creates_a inv = record {
  exclusive = refl;
  held = inv.held;
  done = inv.done;
  awaited = λ h. absurd (cc h);
}
Step-Kept (creates_b a h) inv = record {
  exclusive = inv.exclusive;
  held = inv.held;
  done = inv.done;
  awaited = λ p. absurd (cc (inv.awaited p));
}
Step-Kept leaves inv = tt
Step-Kept (locks_a {b = b}) inv = record {
  exclusive = sym inv.held;
  held = refl;
  done = inv.done;
  awaited = λ p. absurd (cc p);
}
Step-Kept (waits {b = b}) inv = record {
  exclusive = refl;
  held = sym inv.exclusive;
  done = inv.done;
  awaited = λ p. absurd (cc p);
}
Step-Kept wakes inv = record {
  exclusive = inv.exclusive;
  held = inv.held;
  done = inv.done;
  awaited = λ p. absurd (cc p);
}
Step-Kept (relocks {b = b}) inv = record {
  exclusive = sym inv.held;
  held = refl;
  done = inv.done;
  awaited = λ p. absurd (cc p);
}
Step-Kept (finds_done {b = b}) inv = record {
  exclusive = inv.exclusive;
  held = inv.held;
  done = inv.done;
  awaited = λ p. stored-through b inv.exclusive (sym inv.done);
}
Step-Kept goes_back inv = record {
  exclusive = inv.exclusive;
  held = inv.held;
  done = inv.done;
  awaited = λ p. absurd (cc p);
}
Step-Kept (unlocks_a {b = b}) inv = record {
  exclusive = refl;
  held = sym inv.exclusive;
  done = inv.done;
  awaited = λ p. inv.awaited refl;
}
Step-Kept (locks_b {a = a}) inv = record {
  exclusive = ground (arith, inv.held);
  held = ground (arith, inv.held);
  done = inv.done;
  awaited = λ p. absurd (cc (inv.awaited p));
}
Step-Kept (stores {a = a}) inv = record {
  exclusive = inv.exclusive;
  held = inv.held;
  done = refl;
  awaited = λ p. absurd (cc (inv.awaited p));
}
Step-Kept (signals a) inv =
    let (same, same_past) = signalled_same a in
    record {
      exclusive = rw same inv.exclusive;
      held = rw same inv.held;
      done = inv.done;
      awaited = λ p. absurd (cc (inv.awaited (rw same_past at p)));
    }
Step-Kept (unlocks_b {a = a}) inv = record {
  exclusive = ground (arith, inv.exclusive);
  held = ground (arith, inv.exclusive);
  done = inv.done;
  awaited = λ p. refl;
}
Step-Kept (fails a b h) inv = tt

Reach-Kept : {s : Process} → Reach any_kind launched s → Kept s
Reach-Kept here = record {
  exclusive = refl;
  held = refl;
  done = refl;
  awaited = λ p. absurd (cc p);
}
Reach-Kept (next r h step) = Step-Kept step (Reach-Kept r)

-- Both threads are inside their locked sections.
abbrev pub both_inside : Process → Bool
both_inside (running a b o w) = holds_a a && holds_b b
both_inside _ = false

-- Thread A is behind its loop, and thread B is not through or `gWorkDone` is not set.
abbrev pub too_soon : Process → Bool
too_soon (running a b o w) = past a && not (through b && w)
too_soon _ = false

through-stored : (b : ThreadB) → through b ≡ true → stored b ≡ true
through-stored unborn_b h = h
through-stored at_work h = h
through-stored at_store h = h
through-stored at_signal h = refl
through-stored at_release h = refl
through-stored ended_b h = refl

past_case :
    (a : ThreadA) (b : ThreadB) (o : Owner) (w : Bool)
    → Inv a b o w
    → too_soon (running a b o w) ≡ false
past_case a b o w inv = elim (Bool-cases (past a)) [
  | inl e ↦ rw (e, inv.awaited e, inv.done, through-stored b (inv.awaited e))
  | inr e ↦ rw e
]

-- In every state that the process can reach from its start, spurious wakeups and failing calls
-- included, the two threads are not both inside their locked sections, and if thread A is behind
-- its loop, then thread B has ended and `gWorkDone` is set.
pub work_awaited :
    {s : Process} → Reach any_kind launched s → (both_inside s ≡ false) × (too_soon s ≡ false)
work_awaited {s = running a b o w} r =
    let inv = Reach-Kept r in (inv.exclusive, past_case a b o w inv)
work_awaited {s = exited} r = (refl, refl)
work_awaited {s = died} r = (refl, refl)
