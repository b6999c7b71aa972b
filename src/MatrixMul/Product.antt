-- ===== src/MatrixMul/Product.antt =====
-- thrd_matrixmul.c computes the product, as prcs_matrixmul.c does.
use native.Mathlib.Nat.{
  div-eq_of_lt-le, div-lt_iff_lt-mul, div-mul-le_self, le-div_iff_mul-le, lt-div-mul-add,
}
use mathlib.Core.Path.{subst}
use sp327_alonso_a.Common.{
  ℕ, zero, suc, ◌+◌, ◌*◌, ◌/◌, ◌≤◌, ◌<◌, ◌≡◌, refl, sym, ap, ◌∙◌, inl, inr, Bool-cases, List, [],
  ◌∷◌, ◌++◌, ltb, lt→ltb, ltb→lt, if◌then◌else◌, arith,
}
use sp327_alonso_a.MatrixMul.{
  Matrix, filled, Op, inner_loop, column_loop, row_loop, threadfun, prcs_matrixmul, Phase, ready,
  State, launched, Reach, Joined,
}
use sp327_alonso_a.MatrixMul.Sums.{sum, sum-nil, sum-append, dot, sum-row_loop, run_ops-sum}
use sp327_alonso_a.MatrixMul.Threads.{rest, Owned, Kept, AllKept, Reach-AllKept}

Owned-append : (r t : ℕ) (us vs : List Op) → Owned r t us → Owned r t vs → Owned r t (us ++ vs)
Owned-append r t [] vs h k = k
Owned-append r t (u ∷ us) vs (e, h) k = (e, Owned-append r t us vs h k)

Owned-inner_loop : (r t left k i j : ℕ) → i / r ≡ t → Owned r t (inner_loop left k i j)
unfolding inner_loop
Owned-inner_loop r t zero k i j h = tt
Owned-inner_loop r t (suc left) k i j h = (h, Owned-inner_loop r t left (k + 1) i j h)

Owned-column_loop : (r t left j i n : ℕ) → i / r ≡ t → Owned r t (column_loop left j i n)
unfolding column_loop
Owned-column_loop r t zero j i n h = tt
Owned-column_loop r t (suc left) j i n h =
    Owned-append r t (inner_loop n 0 i j) (column_loop left (j + 1) i n)
      (Owned-inner_loop r t n 0 i j h) (Owned-column_loop r t left (j + 1) i n h)

row_owner : (r t i : ℕ) → t * r ≤ i → i < t * r + r → i / r ≡ t
row_owner r t i h k = div-eq_of_lt-le r h (grind arith)

Owned-row_loop :
    (r t left i n : ℕ) → t * r ≤ i → i + left ≤ t * r + r → Owned r t (row_loop left i n)
unfolding row_loop
Owned-row_loop r t zero i n h k = tt
Owned-row_loop r t (suc left) i n h k =
    Owned-append r t (column_loop n 0 i n) (row_loop left (i + 1) n)
      (Owned-column_loop r t n 0 i n (row_owner r t i h (omega arith)))
      (Owned-row_loop r t left (i + 1) n (omega arith) (omega arith))

positive_quotient : (n cores : ℕ) → zero < cores → cores ≤ n → zero < n / cores
positive_quotient n cores h k = (le-div_iff_mul-le h).1 (omega (arith, k))

-- What each thread runs: nothing from thread `cores` on.
abbrev program_of : (n cores t : ℕ) → List Op
program_of n cores t = if ltb t cores then threadfun n cores t else []

module _ (a b : Matrix) where
  launched_thread :
      (n cores t : ℕ)
      → Kept a b (n / cores) (threadfun n cores t) t (λ x y. 0) (ready (threadfun n cores t))
  unfolding threadfun
  launched_thread n cores t = record {
    done = [];
    order = refl;
    cells = λ x y h. sym (sum-nil a b x y);
    owned =
        Owned-row_loop (n / cores) t (n / cores) (t * (n / cores)) n (omega arith) (omega arith);
    value = tt;
  }

  no_thread : (r t : ℕ) → Kept a b r [] t (λ x y. 0) (ready [])
  no_thread r t = record {
    done = [];
    order = refl;
    cells = λ x y h. sym (sum-nil a b x y);
    owned = tt;
    value = tt;
  }

  launched-AllKept : (n cores : ℕ) → AllKept a b (n / cores) (program_of n cores) (launched n cores)
  launched-AllKept n cores t = elim (Bool-cases (ltb t cores)) [
    | inl e ↦ rw e (launched_thread n cores t)
    | inr e ↦ rw e (no_thread (n / cores) t)
  ]

  cells_of :
      {r t : ℕ} {program : List Op} {c : Matrix} {p : Phase} (x y : ℕ)
      → Kept a b r program t c p
      → p ≡ ready []
      → x / r ≡ t
      → c x y ≡ sum a b program x y
  cells_of x y kept e h =
      kept.cells x y h
      ∙ omega (
        arith,
        sum-append a b kept.done (rest _) x y,
        ap (λ q. sum a b (rest q) x y) e,
        sum-nil a b x y,
        ap (λ ops. sum a b ops x y) kept.order,
      )

  cells_of_nobody :
      {r t : ℕ} {c : Matrix} {p : Phase} (x y : ℕ) → Kept a b r [] t c p → x / r ≡ t → c x y ≡ 0
  cells_of_nobody x y kept h =
      kept.cells x y h
      ∙ omega (
        arith,
        sum-append a b kept.done (rest _) x y,
        sum-nil a b x y,
        ap (λ ops. sum a b ops x y) kept.order,
      )

  row_done :
      (n cores x y : ℕ) (s : State)
      → zero < n / cores
      → Reach a b (launched n cores) s
      → Joined cores s
      → x < cores * (n / cores)
      → y < n
      → s.c x y ≡ dot a b n 0 x y
  unfolding Joined threadfun
  row_done n cores x y s k reach joined l m =
      let t = x / (n / cores) in
      let below = (div-lt_iff_lt-mul k).1 l in
      cells_of x y
        (Reach-AllKept a b (n / cores) (program_of n cores) (launched-AllKept n cores) reach t)
        (joined t below) refl
      ∙ rw (lt→ltb t cores below) (
          sum-row_loop a b (n / cores) (t * (n / cores)) n x y (div-mul-le_self x (n / cores))
            (lt-div-mul-add k) m)

  row_missed :
      (n cores x y : ℕ) (s : State)
      → zero < n / cores
      → Reach a b (launched n cores) s
      → cores * (n / cores) ≤ x
      → s.c x y ≡ 0
  row_missed n cores x y s k reach l =
      let t = x / (n / cores) in
      let nothing : program_of n cores t ≡ [] = elim (Bool-cases (ltb t cores)) [
        | inl e ↦ absurd (omega (arith, l, (div-lt_iff_lt-mul k).0 (ltb→lt t cores e)))
        | inr e ↦ ap (λ q. if q then threadfun n cores t else []) e
      ] in
      cells_of_nobody x y
        (subst (λ ops. Kept a b (n / cores) ops t s.c (s.phase t)) nothing
          (Reach-AllKept a b (n / cores) (program_of n cores) (launched-AllKept n cores) reach t))
        refl

  -- With at least one row for each thread, once the threads have been joined, in whatever order
  -- their reads and writes of `c` came: the rows below cores * (n / cores) are those of the product,
  -- as the program of one process computes it too, and any row behind them is 0. So the two programs
  -- agree if the number of cores divides N.
  pub product :
      (n cores x y : ℕ) (s : State)
      → zero < cores
      → cores ≤ n
      → x < n
      → y < n
      → Reach a b (launched n cores) s
      → Joined cores s
      → (prcs_matrixmul a b n x y ≡ dot a b n 0 x y)
        × (s.c x y ≡ (if ltb x (cores * (n / cores)) then dot a b n 0 x y else 0))
  unfolding prcs_matrixmul
  product n cores x y s h k l m reach joined =
      let some_row = positive_quotient n cores h k in
      (
        run_ops-sum a b (row_loop n 0 n) (λ i j. 0) x y
            ∙ omega (arith, sum-row_loop a b n 0 n x y (omega arith) (omega arith) m),
        elim (Bool-cases (ltb x (cores * (n / cores)))) [
          | inl e ↦
              rw e
                (row_done n cores x y s some_row reach joined (ltb→lt x (cores * (n / cores)) e) m)
          | inr e ↦ rw e (row_missed n cores x y s some_row reach (ground arith))
        ],
      )

-- The matrices of the two programs: every element of the product is below the range of an `int` at
-- N = 1024.
dot-filled : (left k x y : ℕ) → dot (filled 2) (filled 3) left k x y ≡ left * 6
unfolding dot
dot-filled zero k x y = refl
dot-filled (suc left) k x y = omega (arith, dot-filled left (k + 1) x y)
