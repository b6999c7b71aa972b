-- ===== src/MatrixMul/Sums.antt =====
-- What the operations of the loops add to an element of the product.
use native.Mathlib.Decide.{ℕ_discrete}
use sp327_alonso_a.Common.{
  ℕ, zero, suc, ◌+◌, ◌*◌, ◌≤◌, ◌<◌, ◌≡◌, ◌≢◌, refl, ap, ◌∙◌, ◌⊎◌, inl, inr, true, ◌&&◌, List, [],
  ◌∷◌, ◌++◌, ◌==◌, if◌then◌else◌, arith, Bool-cases,
}
use sp327_alonso_a.MatrixMul.{Matrix, Op, put, run_ops, inner_loop, column_loop, row_loop}

row_of : (op : Op) (x y : ℕ) → (op.i == x && op.j == y) ≡ true → op.i ≡ x
row_of op x y h = ground arith

column_of : (op : Op) (x y : ℕ) → (op.i == x && op.j == y) ≡ true → op.j ≡ y
column_of op x y h = ground arith

module _ (a b : Matrix) where
  -- The part of an operation at (x, y), and of several.
  abbrev pub term : Op → ℕ → ℕ → ℕ
  term op x y = if op.i == x && op.j == y then a op.i op.k * b op.k op.j else 0

  pub sum : List Op → ℕ → ℕ → ℕ
  sum [] x y = 0
  sum (op ∷ ops) x y = term op x y + sum ops x y

  pub sum-nil : (x y : ℕ) → sum [] x y ≡ 0
  unfolding sum
  sum-nil x y = refl

  pub sum-append : (us vs : List Op) (x y : ℕ) → sum (us ++ vs) x y ≡ sum us x y + sum vs x y
  unfolding sum
  sum-append [] vs x y = omega arith
  sum-append (u ∷ us) vs x y = omega (arith, sum-append us vs x y)

  pub sum_one : (op : Op) (x y : ℕ) → sum (op ∷ []) x y ≡ term op x y
  unfolding sum
  sum_one op x y = omega arith

  pub put-term :
      (c : Matrix) (op : Op) (x y : ℕ)
      → put c op.i op.j (c op.i op.j + a op.i op.k * b op.k op.j) x y ≡ c x y + term op x y
  put-term c op x y = elim (Bool-cases (op.i == x && op.j == y)) [
    | inl e ↦ rw e (
        ap (λ z. z + a op.i op.k * b op.k op.j)
          (ap (λ i. c i op.j) (row_of op x y e) ∙ ap (c x) (column_of op x y e)))
    | inr e ↦ rw e (omega arith)
  ]

  -- The loop of one process adds the same.
  pub run_ops-sum :
      (ops : List Op) (c : Matrix) (x y : ℕ) → run_ops a b ops c x y ≡ c x y + sum ops x y
  unfolding run_ops sum
  run_ops-sum [] c x y = omega arith
  run_ops-sum (op ∷ ops) c x y =
      run_ops-sum ops (put c op.i op.j (c op.i op.j + a op.i op.k * b op.k op.j)) x y
      ∙ omega (arith, put-term c op x y)

  -- The product of row `x` and column `y`, from `k` on.
  unfoldable pub dot : (left k x y : ℕ) → ℕ
  dot zero k x y = 0
  dot (suc left) k x y = a x k * b k y + dot left (k + 1) x y

  sum-inner_loop : (left k x y : ℕ) → sum (inner_loop left k x y) x y ≡ dot left k x y
  unfolding sum inner_loop dot
  sum-inner_loop zero k x y = refl
  sum-inner_loop (suc left) k x y = ground (arith, sum-inner_loop left (k + 1) x y)

  sum-inner_loop_other :
      (left k i j x y : ℕ) → (i ≢ x) ⊎ (j ≢ y) → sum (inner_loop left k i j) x y ≡ 0
  unfolding sum inner_loop
  sum-inner_loop_other zero k i j x y h = refl
  sum-inner_loop_other (suc left) k i j x y h =
      ground (arith, sum-inner_loop_other left (k + 1) i j x y h)

  sum-column_loop_other :
      (left j i n x y : ℕ) → (i ≢ x) ⊎ (y < j) → sum (column_loop left j i n) x y ≡ 0
  unfolding sum column_loop
  sum-column_loop_other zero j i n x y h = refl
  sum-column_loop_other (suc left) j i n x y (inl e) =
      sum-append (inner_loop n 0 i j) (column_loop left (j + 1) i n) x y
      ∙ omega (
        arith,
        sum-inner_loop_other n 0 i j x y (inl e),
        sum-column_loop_other left (j + 1) i n x y (inl e),
      )
  sum-column_loop_other (suc left) j i n x y (inr l) =
      sum-append (inner_loop n 0 i j) (column_loop left (j + 1) i n) x y
      ∙ omega (
        arith,
        sum-inner_loop_other n 0 i j x y (inr (λ e. absurd (omega arith))),
        sum-column_loop_other left (j + 1) i n x y (inr (omega arith)),
      )

  sum-column_loop :
      (left j n x y : ℕ) → j ≤ y → y < j + left → sum (column_loop left j x n) x y ≡ dot n 0 x y
  unfolding sum column_loop
  sum-column_loop zero j n x y h k = absurd (omega arith)
  sum-column_loop (suc left) j n x y h k =
      sum-append (inner_loop n 0 x j) (column_loop left (j + 1) x n) x y ∙ elim (ℕ_discrete j y) [
        | yes e ↦ omega (
          arith,
          ap (λ t. sum (inner_loop n 0 x t) x y) e,
          sum-inner_loop n 0 x y,
          sum-column_loop_other left (j + 1) x n x y (inr (omega arith)),
        )
        | no ne ↦ omega (
          arith,
          sum-inner_loop_other n 0 x j x y (inr ne),
          sum-column_loop left (j + 1) n x y (omega arith) (omega arith),
        )
      ]

  sum-row_loop_other : (left i n x y : ℕ) → x < i → sum (row_loop left i n) x y ≡ 0
  unfolding sum row_loop
  sum-row_loop_other zero i n x y h = refl
  sum-row_loop_other (suc left) i n x y h =
      sum-append (column_loop n 0 i n) (row_loop left (i + 1) n) x y
      ∙ omega (
        arith,
        sum-column_loop_other n 0 i n x y (inl (λ e. absurd (omega arith))),
        sum-row_loop_other left (i + 1) n x y (omega arith),
      )

  pub sum-row_loop :
      (left i n x y : ℕ) → i ≤ x → x < i + left → y < n → sum (row_loop left i n) x y ≡ dot n 0 x y
  unfolding sum row_loop
  sum-row_loop zero i n x y h k l = absurd (omega arith)
  sum-row_loop (suc left) i n x y h k l =
      sum-append (column_loop n 0 i n) (row_loop left (i + 1) n) x y ∙ elim (ℕ_discrete i x) [
        | yes e ↦ omega (
          arith,
          ap (λ t. sum (column_loop n 0 t n) x y) e,
          sum-column_loop n 0 n x y (omega arith) (omega arith),
          sum-row_loop_other left (i + 1) n x y (omega arith),
        )
        | no ne ↦ omega (
          arith,
          sum-column_loop_other n 0 i n x y (inl ne),
          sum-row_loop left (i + 1) n x y (omega arith) (omega arith) l,
        )
      ]
