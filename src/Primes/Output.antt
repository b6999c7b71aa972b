-- ===== src/Primes/Output.antt =====
-- What mt_primes2 writes into its file.
use sp327_alonso_a.Common.{ℕ, ◌≡◌, Bool, true, false, List, [], ◌∷◌, if◌then◌else◌, arith}
use sp327_alonso_a.Common.Run.{ok}
use sp327_alonso_a.Primes.Buffer.{simple_primegen_total}
use sp327_alonso_a.Primes.{simple_primegen, mt_primes2}

written :
    (a b c : List ℕ)
    → simple_primegen 1 5000 ≡ ok a
    → simple_primegen 5001 10000 ≡ ok b
    → simple_primegen 20000 20101 ≡ ok c
    → (canceled : Bool)
    → mt_primes2 true canceled
      ≡ ok (
          if canceled
          then record { file = a ∷ b ∷ []; freed = 0 ∷ 1 ∷ 2 ∷ [] }
          else record { file = b ∷ c ∷ []; freed = 1 ∷ 2 ∷ [] })
unfolding mt_primes2
written a b c ea eb ec true = rw (ea, eb)
written a b c ea eb ec false = rw (ea, eb, ec)

-- Where the files, blocks and threads are made, the program ends. Let `a`, `b` and `c` be what the
-- three threads find. Without a cancellation the file gets `b` and `c`, but not what the first
-- thread has found, and the blocks of the first thread are never freed, since `gCanceledThread` is
-- 0 from the start. If the third thread is canceled, the file gets `a` and `b`, and all blocks are
-- freed.
pub first_thread_lost :
    (canceled : Bool)
    → (a : List ℕ) × (b : List ℕ) × (c : List ℕ) × (simple_primegen 1 5000 ≡ ok a)
      × (simple_primegen 5001 10000 ≡ ok b)
      × (simple_primegen 20000 20101 ≡ ok c)
      × (mt_primes2 true canceled
          ≡ ok (
              if canceled
              then record { file = a ∷ b ∷ []; freed = 0 ∷ 1 ∷ 2 ∷ [] }
              else record { file = b ∷ c ∷ []; freed = 1 ∷ 2 ∷ [] }))
first_thread_lost canceled =
    let (a, ea) = simple_primegen_total 1 5000 (omega arith) (omega arith) (omega arith) in
    let (b, eb) = simple_primegen_total 5001 10000 (omega arith) (omega arith) (omega arith) in
    let (c, ec) = simple_primegen_total 20000 20101 (omega arith) (omega arith) (omega arith) in
    (a, b, c, ea, eb, ec, written a b c ea eb ec canceled)
