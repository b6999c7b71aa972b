-- ===== src/Cleanup/Freed.antt =====
-- The buffers are freed.
use native.Mathlib.Decide.{ℕ_discrete}
use sp327_alonso_a.Common.{
  ℕ, zero, suc, ◌+◌, ◌≤◌, ◌≡◌, ◌∙◌, ap, refl, Bool, true, false, none, some, [], ◌∷◌, if◌then◌else◌,
  ltb, ◌&&◌, arith,
}
use sp327_alonso_a.Common.Int.{ℤ, pos}
use sp327_alonso_a.Cleanup.{
  Round, nothing_read, written, at_end, write_error, nothing_written, returned, canceled,
  testit_loop, behind_loop, pthread_cleanup_push, pthread_cleanup_pop, cleanup_handler, free,
  exit_thread, run_handlers, Cleanups, ended, wrapper_testit_mt_refactored, joined, success, Calls,
  is_one, run_threads, opened, cleanup_hdlr,
}

-- The loop goes on behind such a round.
abbrev pub goes_on : Round → Bool
goes_on written = true
goes_on nothing_written = true
goes_on nothing_read = false
goes_on at_end = false
goes_on write_error = false

module _ (rounds : ℕ → Round) (good : (i : ℕ) → goes_on (rounds i) ≡ true) where
  testit_loop-none : (left i : ℕ) → testit_loop rounds none left i ≡ returned
  unfolding testit_loop
  testit_loop-none zero i = refl
  testit_loop-none (suc left) i = ground (arith, good i, testit_loop-none left (i + 1))

  testit_loop-some :
      (c left i : ℕ)
      → i ≤ c
      → testit_loop rounds (some c) left i ≡ (if ltb c (i + left) then canceled else returned)
  unfolding testit_loop
  testit_loop-some c zero i h = ground arith
  testit_loop-some c (suc left) i h = elim (ℕ_discrete i c) [
    | yes e ↦ ground arith
    | no ne ↦ ground (arith, good i, testit_loop-some c left (i + 1) (omega arith))
  ]

abbrev pushed : ℕ → Cleanups
pushed iobuf = record { freed = []; handlers = iobuf ∷ [] }

-- The end of a thread whose handler has been pushed.
behind_loop-returned :
    (iobuf : ℕ) → behind_loop iobuf returned (pushed iobuf) ≡ ended false (iobuf ∷ [])
unfolding behind_loop pthread_cleanup_pop free exit_thread run_handlers
behind_loop-returned iobuf = refl

behind_loop-canceled :
    (iobuf : ℕ) → behind_loop iobuf canceled (pushed iobuf) ≡ ended true (iobuf ∷ [])
unfolding behind_loop cleanup_handler free exit_thread run_handlers
behind_loop-canceled iobuf = refl

module _ (rounds : ℕ → Round) (good : (i : ℕ) → goes_on (rounds i) ≡ true) (numio iobuf : ℕ) where
  wrapper-none :
      wrapper_testit_mt_refactored (some iobuf) rounds none numio ≡ ended false (iobuf ∷ [])
  unfolding wrapper_testit_mt_refactored pthread_cleanup_push
  wrapper-none =
      ap (λ l. behind_loop iobuf l (pushed iobuf)) (testit_loop-none rounds good numio 0)
      ∙ behind_loop-returned iobuf

  behind_some :
      (b : Bool)
      → behind_loop iobuf (if b then canceled else returned) (pushed iobuf) ≡ ended b (iobuf ∷ [])
  behind_some true = behind_loop-canceled iobuf
  behind_some false = behind_loop-returned iobuf

  wrapper-some :
      (c : ℕ)
      → wrapper_testit_mt_refactored (some iobuf) rounds (some c) numio
        ≡ ended (ltb c numio) (iobuf ∷ [])
  unfolding wrapper_testit_mt_refactored pthread_cleanup_push
  wrapper-some c =
      ap (λ l. behind_loop iobuf l (pushed iobuf))
        (testit_loop-some rounds good c numio 0 (omega arith)
          ∙ ap (λ n. if ltb c n then canceled else returned) (zero_plus numio))
      ∙ behind_some (ltb c numio)
    where
      zero_plus : (n : ℕ) → 0 + n ≡ n
      zero_plus n = omega arith

-- The number of rounds is positive, all calls succeed, and each round reads a block and goes on.
-- Then each thread frees its own buffer once and nothing else: in the cleanup handler, if the first
-- thread was asked to cancel and did so within its rounds, and behind the loop otherwise. The first thread is reported as
-- canceled in that case only, and the second never.
pub buffers_freed :
    (calls : Calls) (n : ℕ) (cancel : ℤ) (first second : ℕ)
    → ((i : ℕ) → calls.fopen i ≡ true)
    → ((i : ℕ) → calls.create i ≡ true)
    → calls.malloc 0 ≡ some first
    → calls.malloc 1 ≡ some second
    → ((t i : ℕ) → goes_on (calls.rounds t i) ≡ true)
    → calls.pthread_cancel ≡ true
    → ((i : ℕ) → calls.pthread_join i ≡ 0)
    → cleanup_hdlr calls (pos (suc n) ∷ cancel ∷ [])
      ≡ success
          (joined 0 (is_one cancel && ltb calls.cancel_at (suc n)) ∷ joined 1 false ∷ [])
          (first ∷ [])
          (second ∷ [])
unfolding cleanup_hdlr opened run_threads
buffers_freed calls n cancel first second f c m m' g k j = ground (
  arith,
  f 0,
  f 1,
  c 0,
  c 1,
  m,
  m',
  j 0,
  j 1,
  wrapper-none (calls.rounds 0) (g 0) (suc n) first,
  wrapper-none (calls.rounds 1) (g 1) (suc n) second,
  wrapper-some (calls.rounds 0) (g 0) (suc n) first calls.cancel_at,
)
