-- ===== src/Checks/MatrixRun.antt =====
-- thrd_matrixmul.c at concrete inputs: two threads that take turns on a product of 2 × 2.
use sp327_alonso_a.Common.{
  ℕ, zero, suc, ◌+◌, ◌*◌, ◌/◌, ◌≡◌, refl, arith, List, [], ◌∷◌, ltb, if◌then◌else◌,
}
use sp327_alonso_a.Pool.Family.{update}
use sp327_alonso_a.MatrixMul.{
  Matrix, inner_loop, column_loop, row_loop, threadfun, filled, put, Phase, ready, loaded, State,
  load, store, launched, Reach, here, next, Joined, prcs_matrixmul,
}
use sp327_alonso_a.MatrixMul.Sums.{dot}
use sp327_alonso_a.MatrixMul.Product.{product}

abbrev a : Matrix
a = filled 2

abbrev b : Matrix
b i j = i + 3

-- The next step of thread `t`, which is at `p`.
turn : (t : ℕ) → State → Phase → State
turn t s (ready []) = s
turn t s (ready (op ∷ ops)) = record s {
  phase = update s.phase t (loaded (s.c op.i op.j + a op.i op.k * b op.k op.j) op ops);
}
turn t s (loaded v op ops) = record {
  c = put s.c op.i op.j v;
  phase = update s.phase t (ready ops);
}

run : List ℕ → State → State
unfolding turn
run [] s = s
run (t ∷ ts) s = run ts (turn t s (s.phase t))

turn-Reach :
    {start s : State} (t : ℕ) (p : Phase)
    → s.phase t ≡ p
    → Reach a b start s
    → Reach a b start (turn t s p)
unfolding turn
turn-Reach t (ready []) e reach = reach
turn-Reach t (ready (op ∷ ops)) e reach = next reach (load t op ops e)
turn-Reach t (loaded v op ops) e reach = next reach (store t v op ops e)

run-Reach :
    {start : State} (ts : List ℕ) {s : State} → Reach a b start s → Reach a b start (run ts s)
unfolding run
run-Reach [] {s} reach = reach
run-Reach (t ∷ ts) {s} reach = run-Reach ts (turn-Reach t (s.phase t) refl reach)

abbrev turns : List ℕ
turns = 0 ∷ 1 ∷ 1 ∷ 0 ∷ 0 ∷ 0 ∷ 1 ∷ 0 ∷ 1 ∷ 0 ∷ 1 ∷ 1 ∷ 0 ∷ 1 ∷ 1 ∷ 0 ∷ []

ended : State
unfolding run
ended = run turns (launched 2 2)

both-Joined : Joined 2 ended
unfolding Joined run turn ended threadfun row_loop column_loop inner_loop
both-Joined zero h = refl
both-Joined (suc zero) h = refl
both-Joined (suc (suc t)) h = absurd (omega arith)

product_example :
    (prcs_matrixmul a b 2 1 0 ≡ dot a b 2 0 1 0)
    × (ended.c 1 0 ≡ (if ltb 1 (2 * (2 / 2)) then dot a b 2 0 1 0 else 0))
unfolding ended
product_example =
    product a b 2 2 1 0 ended (omega arith) (omega arith) (omega arith) (omega arith)
      (run-Reach turns here) both-Joined

dot_value : dot a b 2 0 1 0 ≡ 14
unfolding dot
dot_value = refl
