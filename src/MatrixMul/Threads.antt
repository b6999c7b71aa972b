-- ===== src/MatrixMul/Threads.antt =====
-- Threads that each work on rows of their own, in any interleaving.
use mathlib.Core.Path.{subst}
use mathlib.Core.List.{append_assoc}
use native.Mathlib.Decide.{ℕ_discrete}
use sp327_alonso_a.Common.{
  ℕ, ◌+◌, ◌*◌, ◌/◌, ◌≡◌, ◌≢◌, refl, sym, ap, ◌∙◌, List, [], ◌∷◌, ◌++◌, arith,
}
use sp327_alonso_a.Pool.Family.{update}
use sp327_alonso_a.MatrixMul.{
  Matrix, Op, put, Phase, ready, loaded, State, Step, load, store, Reach, here, next,
}
use sp327_alonso_a.MatrixMul.Sums.{sum, sum-append, sum_one, put-term}

update_same : (f : ℕ → Phase) (t j : ℕ) (p : Phase) → t ≡ j → update f t p j ≡ p
update_same f t j p h = ground arith

update_other : (f : ℕ → Phase) (t j : ℕ) (p : Phase) → t ≢ j → update f t p j ≡ f j
update_other f t j p h = ground arith

-- The operations that a thread has not completed.
abbrev pub rest : Phase → List Op
rest (ready ops) = ops
rest (loaded v op ops) = op ∷ ops

-- Their rows belong to thread `t`, when each thread has `r` rows.
abbrev pub Owned : (r t : ℕ) → List Op → Type 0
Owned r t [] = Unit {0}
Owned r t (op ∷ ops) = (op.i / r ≡ t) × Owned r t ops

put_other : (c : Matrix) (i j v x y : ℕ) → i ≢ x → put c i j v x y ≡ c x y
put_other c i j v x y h = ground arith

module _ (a b : Matrix) (r : ℕ) where
  abbrev Value : Matrix → Phase → Type 0
  Value c (ready ops) = Unit {0}
  Value c (loaded v op ops) = v ≡ c op.i op.j + a op.i op.k * b op.k op.j

  -- What thread `t`, whose program is `program`, has done to its rows.
  pub record Kept (program : List Op) (t : ℕ) (c : Matrix) (p : Phase) : Type 0 where
    pub done : List Op
    pub order : done ++ rest p ≡ program
    pub cells : (x y : ℕ) → x / r ≡ t → c x y ≡ sum a b done x y
    pub owned : Owned r t (rest p)
    pub value : Value c p

  stored_cell :
      (c : Matrix) (done : List Op) (op : Op) (v x y : ℕ)
      → v ≡ c op.i op.j + a op.i op.k * b op.k op.j
      → c x y ≡ sum a b done x y
      → put c op.i op.j v x y ≡ sum a b (done ++ op ∷ []) x y
  stored_cell c done op v x y h k =
      ap (λ w. put c op.i op.j w x y) h
      ∙ put-term a b c op x y
      ∙ omega (arith, k, sum-append a b done (op ∷ []) x y, sum_one a b op x y)

  loading :
      {program : List Op} {t : ℕ} {c : Matrix} {op : Op} {ops : List Op}
      → Kept program t c (ready (op ∷ ops))
      → Kept program t c (loaded (c op.i op.j + a op.i op.k * b op.k op.j) op ops)
  loading kept = record {
    done = kept.done;
    order = kept.order;
    cells = kept.cells;
    owned = kept.owned;
    value = refl;
  }

  storing :
      {program : List Op} {t v : ℕ} {c : Matrix} {op : Op} {ops : List Op}
      → Kept program t c (loaded v op ops)
      → Kept program t (put c op.i op.j v) (ready ops)
  storing {v = v} {c = c} {op = op} {ops = ops} kept = record {
    done = kept.done ++ op ∷ [];
    order = append_assoc kept.done (op ∷ []) ops ∙ kept.order;
    cells = λ x y h. stored_cell c kept.done op v x y kept.value (kept.cells x y h);
    owned = kept.owned.1;
    value = tt;
  }

  -- A store into a row of another thread.
  Value-put :
      (c : Matrix) (i j v t : ℕ) (p : Phase)
      → i / r ≢ t
      → Owned r t (rest p)
      → Value c p
      → Value (put c i j v) p
  Value-put c i j v t (ready ops) h o k = tt
  Value-put c i j v t (loaded w op ops) h o k =
      k
      ∙ ap (λ z. z + a op.i op.k * b op.k op.j)
          (sym (put_other c i j v op.i op.j (λ e. h (ap (λ z. z / r) e ∙ o.0))))

  Kept-put :
      {program : List Op} (c : Matrix) (i j v t : ℕ) (p : Phase)
      → i / r ≢ t
      → Kept program t c p
      → Kept program t (put c i j v) p
  Kept-put c i j v t p h kept = record {
    done = kept.done;
    order = kept.order;
    cells =
        λ x y e. put_other c i j v x y (λ same. h (ap (λ z. z / r) same ∙ e)) ∙ kept.cells x y e;
    owned = kept.owned;
    value = Value-put c i j v t p h kept.owned kept.value;
  }

  module _ (program : ℕ → List Op) where
    abbrev pub AllKept : State → Type 0
    AllKept s = (t : ℕ) → Kept (program t) t s.c (s.phase t)

    Step-AllKept : {s s' : State} → Step a b s s' → AllKept s → AllKept s'
    Step-AllKept {s} (load t op ops e) all = λ j.
        let p = loaded (s.c op.i op.j + a op.i op.k * b op.k op.j) op ops in
        elim (ℕ_discrete t j) [
          | yes same ↦
              subst (λ q. Kept (program j) j s.c q) (sym (update_same s.phase t j p same))
                (subst (λ i. Kept (program i) i s.c p) same
                  (loading (subst (λ q. Kept (program t) t s.c q) e (all t))))
          | no ne ↦
              subst (λ q. Kept (program j) j s.c q) (sym (update_other s.phase t j p ne)) (all j)
        ]
    Step-AllKept {s} (store t v op ops e) all = λ j.
        let kept = subst (λ q. Kept (program t) t s.c q) e (all t) in
        let c' = put s.c op.i op.j v in
        elim (ℕ_discrete t j) [
          | yes same ↦
              subst (λ q. Kept (program j) j c' q) (sym (update_same s.phase t j (ready ops) same))
                (subst (λ i. Kept (program i) i c' (ready ops)) same (storing kept))
          | no ne ↦
              subst (λ q. Kept (program j) j c' q) (sym (update_other s.phase t j (ready ops) ne))
                (Kept-put s.c op.i op.j v j (s.phase j) (λ x. ne (sym kept.owned.0 ∙ x)) (all j))
        ]

    pub Reach-AllKept : {start s : State} → AllKept start → Reach a b start s → AllKept s
    Reach-AllKept all here = all
    Reach-AllKept all (next reach step) = Step-AllKept step (Reach-AllKept all reach)
