-- ===== src/MtCopy/Whole.antt =====
-- All threads of mt_copy.c together: the segments cover the file, so that the copy is whole.
use mathlib.Core.Path.{subst}
use native.Mathlib.Decide.{dec_lt}
use sp327_alonso_a.Common.{
  ℕ, zero, suc, ◌+◌, ◌*◌, ◌/◌, ◌%◌, ◌^◌, ◌≤◌, ◌<◌, ◌≡◌, refl, sym, ap, ◌∙◌, inl, inr, true, false,
  some, List, [], ◌∷◌, ◌++◌, length, drop, get_elem?, ltb, ◌==◌, ◌&&◌, not, if◌then◌else◌, arith,
  Bool-cases, lt→ltb,
}
use sp327_alonso_a.Common.Bytes.{Bytes}
use sp327_alonso_a.Common.Int.{pos}
use sp327_alonso_a.Common.Run.{Run, ok, fault, exits}
use sp327_alonso_a.MtCopy.{
  Write, File, apply, Created, ThreadCalls, parameters, Calls, Copied, worker, do_segment,
  create_loop, do_mt_copy, Opened, mt_copy,
}
use sp327_alonso_a.MtCopy.Segments.{part, length-part, write_of, Transfers, do_segment_full}
use sp327_alonso_a.MtCopy.Overlay.{
  In, In-append_left, In-append_right, All, All-append, Agrees, Covers, get_elem?-drop,
  get_elem?-take, apply_covered, apply_outside,
}

part-Agrees : (src : Bytes) (off len : ℕ) → All (Agrees src) (write_of off (part src off len))
part-Agrees src off len = go (part src off len) (λ j c h. get_elem?-take len j c (drop off src) h)
  where
    go :
        (d : Bytes)
        → ((j c : ℕ) → get_elem? d j ≡ some c → get_elem? (drop off src) j ≡ some c)
        → All (Agrees src) (write_of off d)
    go [] h = tt
    go (b ∷ d) h = ((λ j c e. sym (get_elem?-drop off j src) ∙ h j c e), tt)

-- A list of writes has one that covers the offset.
abbrev Reached : ℕ → List Write → Type 0
Reached k ws = (w : Write) × In w ws × Covers k w

write_of-Reached :
    (off : ℕ) (d : Bytes) (k : ℕ) → off ≤ k → k < off + length d → Reached k (write_of off d)
write_of-Reached off [] k lo hi = absurd (omega arith)
write_of-Reached off (b ∷ d) k lo hi = (record { offset = off; bytes = b ∷ d }, inl refl, (lo, hi))

-- Thread `i` of `n` is created, and all its calls transfer what they are asked for.
pub record Works (src : Bytes) (n i : ℕ) (m : Created) (c : ThreadCalls) : Type 0 where
  pub calloc : m.calloc ≡ true
  pub pthread_create : m.pthread_create ≡ true
  pub segment : Transfers (length src / n) c.segment
  pub remaining : Transfers (length src % n) c.remaining

no_rest : (i n r : ℕ) → (not (r == 0) && i + 1 == n) ≡ false → i + 1 ≡ n → r ≡ 0
no_rest i n r h e = ground arith

module _ (src : Bytes) (n : ℕ) (some_threads : 0 < n) (small : length src < 2 ^ 31) where
  abbrev q : ℕ
  q = length src / n

  abbrev r : ℕ
  r = length src % n

  split_size : n * q + r ≡ length src
  split_size = omega arith

  inside : (i : ℕ) → i < n → i * q + q ≤ n * q
  inside i h = grind arith

  -- One copy of `len` bytes at `off`.
  segment_done :
      (off len : ℕ) (c : Calls)
      → off + len ≤ length src
      → Transfers len c
      → (d : Copied) × (do_segment src c off len ≡ ok d)
        × (d.written ≡ write_of off (part src off len))
  segment_done off len c h t = do_segment_full src off len c h (omega (arith, small, h)) t

  segment_covers :
      (off len k : ℕ)
      → off + len ≤ length src
      → off ≤ k
      → k < off + len
      → Reached k (write_of off (part src off len))
  segment_covers off len k h lo hi =
      write_of-Reached off (part src off len) k lo (omega (arith, length-part src off len h))

  -- What one thread writes: it agrees with the source and covers the thread's segment, and that of
  -- the last thread covers the rest as well.
  worker_full :
      (i : ℕ) (c : ThreadCalls) (m : Created)
      → i < n
      → Works src n i m c
      → (ws : List Write) × (worker src c (parameters n (length src) i) ≡ ok ws)
        × All (Agrees src) ws
        × ((k : ℕ) → i * q ≤ k → k < i * q + q → Reached k ws)
        × ((k : ℕ) → i + 1 ≡ n → i * q + q ≤ k → k < length src → Reached k ws)
  unfolding worker
  worker_full i c m h w =
      let fits : i * q + q + r ≤ length src = omega (arith, inside i h, split_size) in
      let (first, run, w1) = segment_done (i * q) q c.segment (omega arith) w.segment in
      let (last, run', w2) = segment_done (i * q + q) r c.remaining fits w.remaining in
      let ws1 = write_of (i * q) (part src (i * q) q) in
      let ws2 = write_of (i * q + q) (part src (i * q + q) r) in
      elim (Bool-cases (not (r == 0) && i + 1 == n)) [
        | inl both ↦ (
          ws1 ++ ws2,
          ground (arith, run, run', w1, w2, both),
          All-append (Agrees src) ws1 ws2 (part-Agrees src (i * q) q)
              (part-Agrees src (i * q + q) r),
          λ k lo hi.
              let (v, at, covers) = segment_covers (i * q) q k (omega arith) lo hi in
              (v, In-append_left v ws1 ws2 at, covers),
          λ k e lo hi.
              let all = ap (λ (t : ℕ). t * q) e in
              let (v, at, covers) =
                segment_covers (i * q + q) r k fits lo (omega (arith, all, split_size, hi)) in
              (v, In-append_right v ws1 ws2 at, covers),
        )
        | inr first_only ↦ (
          ws1,
          ground (arith, run, w1, first_only),
          part-Agrees src (i * q) q,
          λ k lo hi. segment_covers (i * q) q k (omega arith) lo hi,
          λ k e lo hi. absurd (
              omega
                (arith, no_rest i n r first_only e, ap (λ (t : ℕ). t * q) e, split_size, lo, hi)),
        )
      ]

  create_loop_full :
      (made : ℕ → Created) (calls : ℕ → ThreadCalls) (left i : ℕ)
      → i + left ≡ n
      → n ≤ 5
      → ((j : ℕ) → j < n → Works src n j (made j) (calls j))
      → (ws : List Write) × (create_loop src made calls n (length src) left i ≡ ok ws)
        × All (Agrees src) ws
        × ((k : ℕ) → 0 < left → i * q ≤ k → k < length src → Reached k ws)
  unfolding create_loop
  create_loop_full made calls zero i e five works =
      ([], refl, tt, λ k h lo hi. absurd (omega arith))
  create_loop_full made calls (suc left) i e five works =
      let h : i < n = omega arith in
      let w = works i h in
      let (ws1, run, agree1, mine, rest) = worker_full i (calls i) (made i) h w in
      let (ws2, later, agree2, behind) =
        create_loop_full made calls left (i + 1) (omega arith) five works in
      (
        ws1 ++ ws2,
        ground (arith, run, later, w.calloc, w.pthread_create),
        All-append (Agrees src) ws1 ws2 agree1 agree2,
        λ k pos lo hi. elim (dec_lt k (i * q + q)) [
          | yes here ↦
              let (v, at, covers) = mine k lo here in (v, In-append_left v ws1 ws2 at, covers)
          | no above ↦ elim (dec_lt 0 left) [
            | yes more ↦
                let (v, at, covers) = behind k more (omega arith) hi in
                (v, In-append_right v ws1 ws2 at, covers)
            | no last ↦
                let (v, at, covers) = rest k (omega arith) (omega arith) hi in
                (v, In-append_left v ws1 ws2 at, covers)
          ]
        ],
      )

abbrev pub writes_of : Run (List Write) → List Write
writes_of (ok ws) = ws
writes_of fault = []
writes_of exits = []

-- Two lists hold the same writes, in whatever order.
pub record SameWrites (us vs : List Write) : Type 0 where
  pub sound : (w : Write) → In w us → In w vs
  pub complete : (w : Write) → In w vs → In w us

All-In : (P : Write → Type 0) (ws : List Write) → ((w : Write) → In w ws → P w) → All P ws
All-In P [] h = tt
All-In P (w ∷ ws) h = (h w (inl refl), All-In P ws (λ v at. h v (inr at)))

In-All : (P : Write → Type 0) (ws : List Write) (w : Write) → All P ws → In w ws → P w
In-All P [] w all at = absurd at
In-All P (v ∷ ws) w (p, all) (inl e) = subst P (sym e) p
In-All P (v ∷ ws) w (p, all) (inr at) = In-All P ws w all at

-- The files can be opened, and the size is that of the source.
abbrev pub opened : Bytes → Opened
opened src = record { source = true; stat = true; destination = true; st_size = length src }

-- mt_copy is started with 2 to 5 threads on a source below 2^31 bytes. The files open, all threads
-- are created, and every call transfers what it is asked for. Then the program ends normally, and
-- in whatever order the writes of the threads happen, the destination holds the source, byte by
-- byte; what it held behind the size of the source before is still there.
pub whole_file_copied :
    (src : Bytes) (argc n : ℕ) (made : ℕ → Created) (calls : ℕ → ThreadCalls) (ws : List Write)
    (old : File) (k : ℕ)
    → 4 ≤ argc
    → 2 ≤ n
    → n ≤ 5
    → length src < 2 ^ 31
    → ((i : ℕ) → i < n → Works src n i (made i) (calls i))
    → SameWrites ws (writes_of (mt_copy src argc (pos n) (opened src) made calls))
    → ((all : List Write) × (mt_copy src argc (pos n) (opened src) made calls ≡ ok all))
      × (apply ws old k ≡ (if ltb k (length src) then get_elem? src k else old k))
whole_file_copied src argc n made calls ws old k args two five small works same =
    let (all, run, agree, covered) =
      create_loop_full src n (omega arith) small made calls n 0 (omega arith) five works in
    let whole : mt_copy src argc (pos n) (opened src) made calls ≡ ok all =
      unfold mt_copy do_mt_copy in ground (arith, run) in
    let here = subst (λ m. SameWrites ws (writes_of m)) whole same in
    let agrees =
      All-In (Agrees src) ws (λ w at. In-All (Agrees src) all w agree (here.sound w at)) in
    (
      (all, whole),
      elim (dec_lt k (length src)) [
        | yes within ↦
            let (w, at, covers) = covered k (omega arith) (omega arith) within in
            rw (lt→ltb k (length src) within)
              (apply_covered src ws w old k agrees (here.complete w at) covers)
        | no beyond ↦
            let out : ltb k (length src) ≡ false = ground arith in
            rw out (apply_outside src ws old k agrees (omega arith))
      ],
    )
