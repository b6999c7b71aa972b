-- ===== src/Iobuf/Own.antt =====
-- mt_iobuf_rfct.c and mt_iobuf_tls.c: each thread has its own buffer.
use mathlib.Core.List.{Perm, perm_middle, perm_append_comm, append_assoc, append-nil}
use mathlib.Core.List.Perm
use mathlib.Core.Bool.{false≢true}
use sp327_alonso_a.Common.{
  ℕ, ◌+◌, ◌≤◌, ◌≡◌, Bool, ◌||◌, ltb, sym, refl, ap, ◌∙◌, false, List, [], ◌∷◌, ◌++◌, length, take,
  drop, arith, length-append,
}
use sp327_alonso_a.Common.Bytes.{Bytes}
use sp327_alonso_a.Iobuf.{
  read_into, Thread, reading, writing, Shared, Local, read, write, at_end, Process, running, Step,
  by_one, by_two, fails, died, launched, Reach, here, next,
}

take-append : (block rest : Bytes) → take (length block) (block ++ rest) ≡ block
take-append [] rest = refl
take-append (c ∷ block) rest = ap (λ t. c ∷ t) (take-append block rest)

pub take-read_into : (block buffer : Bytes) → take (length block) (read_into block buffer) ≡ block
unfolding read_into
take-read_into block buffer = take-append block (drop (length block) buffer)

-- The block that a thread has read and not yet written, and the rounds that it has to begin.
abbrev pending : Thread → List Bytes
pending (reading left iobuf) = []
pending (writing left fnr iobuf) = take fnr iobuf ∷ []

abbrev rounds : Thread → ℕ
rounds (reading left iobuf) = left
rounds (writing left fnr iobuf) = left

-- The blocks that the threads have taken are those written and those pending, in some order.
record Inv (blocks : List Bytes) (total : ℕ) (s : Shared) (p q : Thread) : Type 0 where
  taken : List Bytes
  order : taken ++ s.rdstrm ≡ blocks
  all_there : Perm taken (s.wrstrm ++ (pending p ++ pending q))
  counted : length taken + (rounds p + rounds q) ≡ total

Inv-swap :
    {blocks : List Bytes} {total : ℕ} {s : Shared} {p q : Thread}
    → Inv blocks total s p q
    → Inv blocks total s q p
Inv-swap {s = s} {p = p} {q = q} inv = record {
  taken = inv.taken;
  order = inv.order;
  all_there =
      Perm.trans inv.all_there
        (Perm.append_left s.wrstrm (perm_append_comm (pending p) (pending q)));
  counted = omega (arith, inv.counted);
}

one_more :
    (taken out held : List Bytes) (block : Bytes)
    → Perm taken (out ++ held)
    → Perm (taken ++ block ∷ []) (out ++ block ∷ held)
one_more taken out held block h =
    Perm.trans (perm_append_comm taken (block ∷ []))
      (Perm.trans (Perm.cons block h) (Perm.symm (perm_middle out held)))

-- No `fwrite` was short, and neither was this one.
whole :
    (before : Bool) (written fnr : ℕ)
    → written ≤ fnr
    → (before || ltb written fnr) ≡ false
    → (before ≡ false) × (written ≡ fnr)
whole before written fnr h e = ground arith

-- The invariant, as long as no `fwrite` was short.
abbrev Kept : List Bytes → ℕ → Process → Type 0
Kept blocks total (running s p q) = s.short ≡ false → Inv blocks total s p q
Kept blocks total died = Unit

Local-Kept :
    {blocks : List Bytes} {total : ℕ} {s t : Shared} {p p' : Thread} (q : Thread)
    → Local false p s p' t
    → (s.short ≡ false → Inv blocks total s p q)
    → t.short ≡ false
    → Inv blocks total t p' q
Local-Kept q
      (read {left = left} {iobuf = iobuf} {block = block} {rest = rest} {out = out} some_bytes) kept
      e =
    let inv = kept e in
    record {
      taken = inv.taken ++ block ∷ [];
      order = append_assoc inv.taken (block ∷ []) rest ∙ inv.order;
      all_there =
          rw (take-read_into block iobuf) (one_more inv.taken out (pending q) block inv.all_there);
      counted = omega (arith, inv.counted, length-append inv.taken (block ∷ []));
    }
Local-Kept q (write {fnr = fnr} {iobuf = iobuf} {s = s} written le how) kept e =
    let (before, same) = whole s.short written fnr le e in
    let inv = kept before in
    record {
      taken = inv.taken;
      order = inv.order;
      all_there = rw (same, append_assoc s.wrstrm (take fnr iobuf ∷ []) (pending q)) inv.all_there;
      counted = inv.counted;
    }
Local-Kept q (at_end own) kept e = absurd (false≢true (sym e))

Step-Kept :
    (blocks : List Bytes) (total : ℕ) {x y : Process}
    → Step false x y
    → Kept blocks total x
    → Kept blocks total y
Step-Kept blocks total (by_one {q = q} l) kept = Local-Kept q l kept
Step-Kept blocks total (by_two {p = p} l) kept =
    λ e. Inv-swap (Local-Kept p l (λ before. Inv-swap (kept before)) e)
Step-Kept blocks total (fails p q h) kept = tt

Reach-Kept :
    (numio : ℕ) (blocks : List Bytes) (gbuf first second : Bytes) (x : Process)
    → Reach false (launched numio blocks gbuf first second) x
    → Kept blocks (numio + numio) x
Reach-Kept numio blocks gbuf first second x here =
    λ e. record { taken = []; order = refl; all_there = Perm.refl []; counted = omega arith }
Reach-Kept numio blocks gbuf first second x (next {s = s} r step) =
    Step-Kept blocks (numio + numio) step (Reach-Kept numio blocks gbuf first second s r)

-- With a buffer for each thread, in whatever order their calls come, when both threads have done
-- their rounds and no `fwrite` has written less than it was given: as many blocks have been taken
-- from the front of the input as both threads have rounds, and the output consists of just these
-- blocks, each as often as it was read.
pub all_written :
    (numio : ℕ) (blocks : List Bytes) (gbuf first second a b : Bytes) (s : Shared)
    → Reach false (launched numio blocks gbuf first second) (running s (reading 0 a) (reading 0 b))
    → s.short ≡ false
    → (taken : List Bytes) × (taken ++ s.rdstrm ≡ blocks)
      × (length taken ≡ numio + numio)
      × Perm s.wrstrm taken
all_written numio blocks gbuf first second a b s r e =
    let inv =
      Reach-Kept numio blocks gbuf first second (running s (reading 0 a) (reading 0 b)) r e in
    (
      inv.taken,
      inv.order,
      omega (arith, inv.counted),
      Perm.symm (rw (append-nil s.wrstrm) at inv.all_there),
    )
