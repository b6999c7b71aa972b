-- ===== src/SharedMutex/Orders.antt =====
-- The two sections of pshared_mutex_demo.c in either order.
use mathlib.Core.List.{append_assoc}
use native.Mathlib.Decide.{dec_lt}
use sp327_alonso_a.Common.{
  ℕ, suc, ◌+◌, ◌^◌, ◌≤◌, ◌<◌, ◌≡◌, ◌≢◌, refl, sym, ap, ◌∙◌, some, Option, [], ◌∷◌, ◌++◌, length,
  take, replicate, get_elem?, arith, length-append, length-take,
}
use sp327_alonso_a.Common.Bytes.{Bytes, codes}
use sp327_alonso_a.Common.Run.{ok}
use sp327_alonso_a.Proxy.Connect.{decimal}
use sp327_alonso_a.Proxy.Port.{length-decimal, lt-length-decimal}
use sp327_alonso_a.Proxy.Scan.{take-all}
use sp327_alonso_a.SharedMutex.{
  overwrite, snprintf, thread, child, message, run_section, run_sections,
}
use sp327_alonso_a.SharedMutex.Overwrite.{
  length-overwrite, overwrite_comm, overwrite_hit, overwrite_before, write_at-fits,
}

abbrev pub buffer : Bytes
buffer = replicate 128 0

length-snprintf : (text : Bytes) → length (snprintf 32 text) ≤ 32
unfolding snprintf
length-snprintf text = omega (arith, length-append (take 31 text) (0 ∷ []), length-take 31 text)

-- What the sections store, as functions.
by_thread : ℕ → Bytes → Bytes
by_thread p buf =
    overwrite 31 (snprintf 32 (message (thread p))) (overwrite 25 (replicate 5 b't') buf)

by_child : ℕ → Bytes → Bytes
by_child c buf = overwrite 6 (snprintf 32 (message (child c))) (overwrite 0 (replicate 5 b'c') buf)

run_thread :
    (p : ℕ) (buf : Bytes) → 63 ≤ length buf → run_section (thread p) buf ≡ ok (by_thread p buf)
unfolding run_section by_thread
run_thread p buf h = rw (write_at-fits 25 (replicate 5 b't') buf (omega arith)) (
    write_at-fits 31 (snprintf 32 (message (thread p))) (overwrite 25 (replicate 5 b't') buf) (
      omega
        (arith, length-snprintf (message (thread p)), length-overwrite 25 (replicate 5 b't') buf)))

run_child :
    (c : ℕ) (buf : Bytes) → 63 ≤ length buf → run_section (child c) buf ≡ ok (by_child c buf)
unfolding run_section by_child
run_child c buf h = rw (write_at-fits 0 (replicate 5 b'c') buf (omega arith)) (
    write_at-fits 6 (snprintf 32 (message (child c))) (overwrite 0 (replicate 5 b'c') buf) (
      omega
        (arith, length-snprintf (message (child c)), length-overwrite 0 (replicate 5 b'c') buf)))

length-by_thread : (p : ℕ) (buf : Bytes) → length (by_thread p buf) ≡ length buf
unfolding by_thread
length-by_thread p buf =
    length-overwrite 31 (snprintf 32 (message (thread p))) (overwrite 25 (replicate 5 b't') buf)
    ∙ length-overwrite 25 (replicate 5 b't') buf

length-by_child : (c : ℕ) (buf : Bytes) → length (by_child c buf) ≡ length buf
unfolding by_child
length-by_child c buf =
    length-overwrite 6 (snprintf 32 (message (child c))) (overwrite 0 (replicate 5 b'c') buf)
    ∙ length-overwrite 0 (replicate 5 b'c') buf

thread_last :
    (p c : ℕ) → run_sections (child c ∷ thread p ∷ []) buffer ≡ ok (by_thread p (by_child c buffer))
unfolding run_sections
thread_last p c =
    rw (run_child c buffer (omega arith))
      (rw (run_thread p (by_child c buffer) (omega (arith, length-by_child c buffer))) refl)

child_last :
    (p c : ℕ) → run_sections (thread p ∷ child c ∷ []) buffer ≡ ok (by_child c (by_thread p buffer))
unfolding run_sections
child_last p c =
    rw (run_thread p buffer (omega arith))
      (rw (run_child c (by_thread p buffer) (omega (arith, length-by_thread p buffer))) refl)

length-message : (c k : ℕ) → c < 10 ^ k → 1 ≤ k → length (message (child c)) ≤ 13 + k
length-message c k h one =
    omega
      (arith, length-decimal 10 k c h one, length-append (decimal 10 c) (codes " here!" ++ 10 ∷ []))

length-snprintf_short : (text : Bytes) → length (snprintf 32 text) ≤ length text + 1
unfolding snprintf
length-snprintf_short text =
    omega (arith, length-append (take 31 text) (0 ∷ []), length-take 31 text)

-- Two stores that end before two others.
stores_comm :
    (t1 t2 c1 c2 buf : Bytes)
    → length c1 ≤ 25
    → 6 + length c2 ≤ 25
    → overwrite 31 t2 (overwrite 25 t1 (overwrite 6 c2 (overwrite 0 c1 buf)))
      ≡ overwrite 6 c2 (overwrite 0 c1 (overwrite 31 t2 (overwrite 25 t1 buf)))
stores_comm t1 t2 c1 c2 buf h k = rw (
  overwrite_comm 0 31 c1 t2 (overwrite 25 t1 buf) (omega arith),
  overwrite_comm 6 31 c2 t2 (overwrite 0 c1 (overwrite 25 t1 buf)) (omega arith),
  overwrite_comm 0 25 c1 t1 buf (omega arith),
  overwrite_comm 6 25 c2 t1 (overwrite 0 c1 buf) (omega arith),
)

commutes :
    (p c : ℕ) (buf : Bytes)
    → c < 100000
    → by_thread p (by_child c buf) ≡ by_child c (by_thread p buf)
unfolding by_thread by_child
commutes p c buf h =
    stores_comm (replicate 5 b't') (snprintf 32 (message (thread p))) (replicate 5 b'c')
      (snprintf 32 (message (child c))) buf (omega arith)
      (omega (arith, length-snprintf_short (message (child c)), length-message c 5 h (omega arith)))

-- The byte 25 of the buffer.
thread_byte : (p : ℕ) (buf : Bytes) → 30 ≤ length buf → get_elem? (by_thread p buf) 25 ≡ some b't'
unfolding by_thread
thread_byte p buf h =
    overwrite_before 31 (snprintf 32 (message (thread p))) (overwrite 25 (replicate 5 b't') buf) 25
      (omega arith)
    ∙ overwrite_hit 25 (replicate 5 b't') buf 0 b't' (omega arith) refl

skip :
    (front rest : Bytes) (j : ℕ) → get_elem? (front ++ rest) (length front + j) ≡ get_elem? rest j
skip [] rest j = let e : 0 + j ≡ j = omega arith in rw e
skip (c ∷ front) rest j =
    let e : suc (length front) + j ≡ suc (length front + j) = omega arith in
    rw e (skip front rest j)

message_byte :
    (digits : Bytes)
    → 6 ≤ length digits
    → length digits ≤ 7
    → (v : ℕ) × (v ≢ b't')
      × (get_elem? (codes "child " ++ (digits ++ (codes " here!" ++ 10 ∷ 0 ∷ []))) 19 ≡ some v)
message_byte digits low high = elim (dec_lt (length digits) 7) [
  | yes six ↦
      let e : 13 ≡ length digits + 7 = omega arith in
      (
        0,
        λ x. absurd (omega arith),
        ap (λ i. get_elem? (digits ++ (codes " here!" ++ 10 ∷ 0 ∷ [])) i) e
            ∙ skip digits (codes " here!" ++ 10 ∷ 0 ∷ []) 7,
      )
  | no more ↦
      let e : 13 ≡ length digits + 6 = omega arith in
      (
        10,
        λ x. absurd (omega arith),
        ap (λ i. get_elem? (digits ++ (codes " here!" ++ 10 ∷ 0 ∷ [])) i) e
            ∙ skip digits (codes " here!" ++ 10 ∷ 0 ∷ []) 6,
      )
]

snprintf_whole : (text : Bytes) → length text ≤ 31 → snprintf 32 text ≡ text ++ 0 ∷ []
unfolding snprintf
snprintf_whole text h = rw (take-all 31 text h)

snprintf_child :
    (c : ℕ)
    → c < 10000000
    → snprintf 32 (message (child c))
      ≡ codes "child " ++ (decimal 10 c ++ (codes " here!" ++ 10 ∷ 0 ∷ []))
snprintf_child c h =
    snprintf_whole (message (child c)) (omega (arith, length-message c 7 h (omega arith)))
    ∙ ap (λ s. codes "child " ++ s)
        (append_assoc (decimal 10 c) (codes " here!" ++ 10 ∷ []) (0 ∷ []))

child_byte :
    (c : ℕ) (buf : Bytes)
    → 100000 ≤ c
    → c < 10000000
    → 38 ≤ length buf
    → (v : ℕ) × (v ≢ b't') × (get_elem? (by_child c buf) 25 ≡ some v)
unfolding by_child
child_byte c buf low high h =
    let (v, ne, at) =
      message_byte (decimal 10 c) (lt-length-decimal 10 5 c low (omega arith))
        (length-decimal 10 7 c high (omega arith)) in
    (
      v,
      ne,
      overwrite_hit 6 (snprintf 32 (message (child c))) (overwrite 0 (replicate 5 b'c') buf) 19 v
          (omega
            (arith, length-snprintf (message (child c)), length-overwrite 0 (replicate 5 b'c') buf))
          (ap (λ s. get_elem? s 19) (snprintf_child c high) ∙ at),
    )

differs : (v : ℕ) (o : Option ℕ) → v ≢ b't' → o ≡ some v → o ≢ some b't'
differs v o ne e k = absurd (ne (cc (e, k)))

-- The process ID of the child has at most 5 digits, and that of the parent any. Then no section
-- writes outside the buffer, and both orders of the sections leave the same in it.
pub order_irrelevant :
    (p c : ℕ)
    → c < 100000
    → (buf : Bytes) × (run_sections (thread p ∷ child c ∷ []) buffer ≡ ok buf)
      × (run_sections (child c ∷ thread p ∷ []) buffer ≡ ok buf)
      × (length buf ≡ 128)
order_irrelevant p c h = (
  by_child c (by_thread p buffer),
  child_last p c,
  thread_last p c ∙ ap ok (commutes p c buffer h),
  length-by_child c (by_thread p buffer) ∙ length-by_thread p buffer,
)

-- The process ID of the child has 6 or 7 digits, and that of the parent is any. Then the message of
-- the child reaches into the signature of the thread: byte 25 is `t` if the thread comes last, and
-- another if the child does, so that the two orders leave different contents.
pub messages_overlap :
    (p c : ℕ)
    → 100000 ≤ c
    → c < 10000000
    → (last first : Bytes) × (run_sections (child c ∷ thread p ∷ []) buffer ≡ ok last)
      × (run_sections (thread p ∷ child c ∷ []) buffer ≡ ok first)
      × (get_elem? last 25 ≡ some b't')
      × (get_elem? first 25 ≢ some b't')
      × (last ≢ first)
messages_overlap p c low high =
    let last = by_thread p (by_child c buffer) in
    let first = by_child c (by_thread p buffer) in
    let is_t = thread_byte p (by_child c buffer) (omega (arith, length-by_child c buffer)) in
    let (v, ne, at) =
      child_byte c (by_thread p buffer) low high (omega (arith, length-by_thread p buffer)) in
    let other = differs v (get_elem? first 25) ne at in
    (
      last,
      first,
      thread_last p c,
      child_last p c,
      is_t,
      other,
      λ e. other (ap (λ s. get_elem? s 25) (sym e) ∙ is_t),
    )
