-- ===== src/MatrixMul.antt =====
-- booksrc/ch14/speed_multiprcs_vs_multithrd_simple/matrixmul: thrd_matrixmul.c multiplies two square
-- matrices with a thread for each core, and prcs_matrixmul.c does so in one loop. A read and a write
-- of an element of `c` are steps of their own. The sizes N and NCORES and the matrices `a` and `b` are
-- arguments, and the elements are numbers without a bound: the programs fill `a` with 2 and `b` with
-- 3, so no `int` overflows at N = 1024. Every `pthread_create` succeeds.
pub mod Sums
pub mod Threads
pub mod Product
use sp327_alonso_a.Common.{
  ℕ, zero, suc, ◌+◌, ◌*◌, ◌/◌, ◌<◌, ◌≡◌, Bool, ◌&&◌, List, [], ◌∷◌, ◌++◌, ltb, ◌==◌, if◌then◌else◌,
}
use sp327_alonso_a.Pool.Family.{update}

abbrev pub Matrix : Type 0
Matrix = ℕ → ℕ → ℕ

-- What `main` makes of `a`, with 2, and of `b`, with 3.
abbrev pub filled : ℕ → Matrix
filled v i j = v

-- c[i][j] = c[i][j] + a[i][k] * b[k][j]
pub record Op : Type 0 where
  pub i : ℕ
  pub j : ℕ
  pub k : ℕ

-- The loops over `k`, `j` and `i`, each from its variable on with rounds left.
unfoldable pub inner_loop : (left k i j : ℕ) → List Op
inner_loop zero k i j = []
inner_loop (suc left) k i j = record { i = i; j = j; k = k } ∷ inner_loop left (k + 1) i j

unfoldable pub column_loop : (left j i n : ℕ) → List Op
column_loop zero j i n = []
column_loop (suc left) j i n = inner_loop n 0 i j ++ column_loop left (j + 1) i n

unfoldable pub row_loop : (left i n : ℕ) → List Op
row_loop zero i n = []
row_loop (suc left) i n = column_loop n 0 i n ++ row_loop left (i + 1) n

-- `threadfun` of thread `t`, with `n` for N
unfoldable pub threadfun : (n cores t : ℕ) → List Op
threadfun n cores t = row_loop (n / cores) (t * (n / cores)) n

abbrev pub put : Matrix → (i j v : ℕ) → Matrix
put c i j v x y = if i == x && j == y then v else c x y

module _ (a b : Matrix) where
  -- The loop of prcs_matrixmul.c.
  unfoldable pub run_ops : List Op → Matrix → Matrix
  run_ops [] c = c
  run_ops (op ∷ ops) c = run_ops ops (put c op.i op.j (c op.i op.j + a op.i op.k * b op.k op.j))

  unfoldable pub prcs_matrixmul : (n : ℕ) → Matrix
  unfolding run_ops
  prcs_matrixmul n = run_ops (row_loop n 0 n) (λ x y. 0)

-- A thread in front of its next operations, or with a value to store for the first of them.
pub data Phase : Type 0 where
  ready : List Op → Phase
  loaded : (v : ℕ) → Op → List Op → Phase

pub record State : Type 0 where
  pub c : Matrix
  pub phase : ℕ → Phase

-- A step of thread `t`.
pub data Step (a b : Matrix) (s : State) : State → Type 0 where
  load :
      (t : ℕ) (op : Op) (ops : List Op)
      → s.phase t ≡ ready (op ∷ ops)
      → Step a b s (record s {
        phase = update s.phase t (loaded (s.c op.i op.j + a op.i op.k * b op.k op.j) op ops);
      })
  store :
      (t v : ℕ) (op : Op) (ops : List Op)
      → s.phase t ≡ loaded v op ops
      → Step a b s (record { c = put s.c op.i op.j v; phase = update s.phase t (ready ops) })

-- `main` has created the threads; `c` is 0 at the start.
abbrev pub launched : (n cores : ℕ) → State
launched n cores = record {
  c = λ x y. 0;
  phase = λ t. if ltb t cores then ready (threadfun n cores t) else ready [];
}

pub data Reach (a b : Matrix) (start : State) : State → Type 0 where
  here : Reach a b start start
  next : {s t : State} → Reach a b start s → Step a b s t → Reach a b start t

-- The loop of `pthread_join` has ended.
unfoldable pub Joined : (cores : ℕ) → State → Type 0
Joined cores s = (t : ℕ) → t < cores → s.phase t ≡ ready []
