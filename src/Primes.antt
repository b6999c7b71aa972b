-- ===== src/Primes.antt =====
-- booksrc/solutions_to_assgn/ch16/mt_primes1.c and mt_primes2.c: three threads look for primes, each
-- in a range of its own. The second program writes them to a file, and can cancel its last thread.
pub mod Sieve
pub mod Buffer
pub mod Output
use sp327_alonso_a.Common.{
  ℕ, zero, suc, ◌+◌, ◌-◌, ◌/◌, ◌%◌, Bool, true, false, not, ◌&&◌, Option, none, some, List, [], ◌∷◌,
  ◌++◌, length, ltb, leb, ◌==◌, if◌then◌else◌,
}
use sp327_alonso_a.Common.Run.{Run, ok, fault, exits, ◌>>=◌}
use sp327_alonso_a.Proxy.Connect.{decimal}

-- The inner loop of `simple_primegen`, from `j` on with `left` rounds to go: whether `isprime` stays.
unfoldable pub no_divisor : (left j i : ℕ) → Bool
no_divisor zero j i = true
no_divisor (suc left) j i =
    let later = no_divisor left (j + 1) i in if not (i == j) && i % j == 0 then false else later

unfoldable pub is_prime : (limit i : ℕ) → Bool
unfolding no_divisor
is_prime limit i = no_divisor (limit / 2 - 2) 2 i

-- The bytes of "%6d, "
abbrev pub width : ℕ → ℕ
width i = (if ltb (length (decimal 10 i)) 6 then 6 else length (decimal 10 i)) + 2

abbrev pub mem_size : ℕ
mem_size = 100000

-- The outer loop, from `i` on with `left` rounds to go and `used` bytes in the buffer: the numbers
-- that it puts there.
unfoldable pub gen_loop : (left i limit used : ℕ) → Run (List ℕ)
gen_loop zero i limit used = ok []
gen_loop (suc left) i limit used =
    let skipped = gen_loop left (i + 1) limit used in
    let taken = gen_loop left (i + 1) limit (used + width i) in
    if is_prime limit i
    then (if ltb (used + width i) mem_size then (taken >>= λ found. ok (i ∷ found)) else fault)
    else skipped

-- `simple_primegen` on an empty buffer of `mem_size` bytes; an assertion that fails ends the
-- process. Its result is the length of the list.
unfoldable pub simple_primegen : (start limit : ℕ) → Run (List ℕ)
simple_primegen start limit =
    if leb start limit then gen_loop (limit + 1 - start) start limit 0 else exits

-- The buffers of the three threads; the third is gone if its thread was canceled.
pub record Buffers : Type 0 where
  pub first : List ℕ
  pub second : List ℕ
  pub third : Option (List ℕ)

-- `gCanceledThread` behind the joins: it starts at 0, and `cleanup_handler` sets it.
abbrev pub canceled_thread : Option (List ℕ) → ℕ
canceled_thread none = 2
canceled_thread (some b) = 0

abbrev pub unless_canceled : (thread canceled : ℕ) → Option (List ℕ) → List (List ℕ)
unless_canceled thread canceled none = []
unless_canceled thread canceled (some b) = if thread == canceled then [] else b ∷ []

-- `write_the_primes`: the buffers that are written, in order. A buffer that is gone is read after
-- it has been freed only if its number is not `gCanceledThread`.
unfoldable pub write_the_primes : (canceled : ℕ) → Buffers → List (List ℕ)
write_the_primes canceled b =
    unless_canceled 0 canceled (some b.first)
    ++ (unless_canceled 1 canceled (some b.second) ++ unless_canceled 2 canceled b.third)

-- The threads whose blocks are freed by the end of `main`: by the cleanup handler, or by its loop.
unfoldable pub freed_threads : (canceled : ℕ) → List ℕ
freed_threads canceled =
    (if canceled == 0 then [] else 0 ∷ []) ++ ((if canceled == 1 then [] else 1 ∷ []) ++ (2 ∷ []))

-- What mt_primes2 leaves.
pub record Left : Type 0 where
  pub file : List (List ℕ)
  pub freed : List ℕ

-- `main` of mt_primes2.c: `ready` says that the file opens and that blocks and threads are made,
-- and `canceled` that the cancel request is made and ends the third thread.
unfoldable pub mt_primes2 : (ready canceled : Bool) → Run Left
unfolding write_the_primes freed_threads
mt_primes2 false canceled = exits
mt_primes2 true true = simple_primegen 1 5000 >>= λ a. simple_primegen 5001 10000 >>= λ b.
    ok (record {
      file =
          write_the_primes (canceled_thread none) (record { first = a; second = b; third = none });
      freed = freed_threads (canceled_thread none);
    })
mt_primes2 true false = simple_primegen 1 5000 >>= λ a. simple_primegen 5001 10000 >>= λ b.
    simple_primegen 20000 20101 >>= λ c. ok (record {
      file =
          write_the_primes (canceled_thread (some c))
            (record { first = a; second = b; third = some c });
      freed = freed_threads (canceled_thread (some c));
    })

-- `main` of mt_primes1.c: what the three threads find
unfoldable pub mt_primes1 : (ready : Bool) → Run Buffers
mt_primes1 false = exits
mt_primes1 true = simple_primegen 1 5000 >>= λ a. simple_primegen 5001 10000 >>= λ b.
    simple_primegen 20000 20101 >>= λ c. ok (record { first = a; second = b; third = some c })
