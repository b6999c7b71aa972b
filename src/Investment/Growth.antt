-- ===== src/Investment/Growth.antt =====
-- The loop of `calculation`: every element of the three arrays is written, with its year's values.
use sp327_alonso_a.Common.{
  ℕ, zero, suc, ◌+◌, ◌-◌, ◌*◌, ◌/◌, ◌%◌, ◌^◌, ◌<◌, ◌≤◌, ◌≡◌, refl, sym, ap, ◌∙◌, inl, inr, Option,
  none, some, List, [], ◌∷◌, ◌==◌, length, get_elem?, set, replicate, arith, length-set,
  get_elem?-set_self, get_elem?-set_ne, length-replicate, lt→ltb, Bool-cases,
}
use mathlib.Core.Path.{subst}
use native.Mathlib.Decide.{ℕ_discrete}
use sp327_alonso_a.Common.Int.{pos, to_int, to_int-small}
use sp327_alonso_a.Investment.{
  Floating, ok, ◌>>=◌, write, State, year_end, grown, month, calculation_loop, calculation, empty,
  monthly_rate, read, cell, print_results, with_years,
}

module _ {D : Type 0} (F : Floating D) (money rate : D) where
  open F use {add, sub, from_long}

  -- The value and the deposits after `n` months.
  abbrev pub value : ℕ → D
  value zero = from_long 0
  value (suc n) = grown F money rate (value n)

  abbrev pub deposits : ℕ → D
  deposits zero = from_long 0
  deposits (suc n) = add (deposits n) money

  -- the interest at the end of the year with this index
  abbrev pub interest_of : ℕ → D
  interest_of j = sub (value (12 * (j + 1))) (deposits (12 * (j + 1)))

  abbrev pub value_of : ℕ → D
  value_of j = value (12 * (j + 1))

  abbrev pub year_of : ℕ → D
  year_of j = from_long (j + 1)

  -- The first `k` of the `n` elements are written, with the values of `g`.
  pub record Filled (a : List (Option D)) (n k : ℕ) (g : ℕ → D) : Type 0 where
    pub size : length a ≡ n
    pub elements : (j : ℕ) → j < k → get_elem? a j ≡ some (some (g j))

  Filled-write :
      (a : List (Option D)) (n k : ℕ) (g : ℕ → D)
      → Filled a n k g
      → k < n
      → (b : List (Option D)) × (write F a k (g k) ≡ ok b) × Filled b n (k + 1) g
  unfolding write
  Filled-write a n k g f lt = (
    set a k (some (g k)),
    rw (lt→ltb k (length a) (omega (arith, f.size))) refl,
    record {
      size = length-set a k (some (g k)) ∙ f.size;
      elements = λ j below. elim (ℕ_discrete j k) [
        | yes same ↦
            subst (λ i. get_elem? (set a k (some (g k))) i ≡ some (some (g i))) (sym same)
              (get_elem?-set_self a k (some (g k)) (omega (arith, f.size)))
        | no other ↦
            get_elem?-set_ne a (some (g k)) (λ e. other (sym e)) ∙ f.elements j (omega arith)
      ];
    },
  )

  -- After `m` months.
  pub record After (s : State F) (n m : ℕ) : Type 0 where
    pub future_value : s.future_value ≡ value m
    pub total_deposits : s.total_deposits ≡ deposits m
    pub years : Filled s.arr_years n (m / 12) year_of
    pub interests : Filled s.int_array n (m / 12) interest_of
    pub values : Filled s.fv n (m / 12) value_of

  year_end-After :
      (s : State F) (n k i : ℕ)
      → i ≡ 12 * (k + 1)
      → k < n
      → n ≤ 2 ^ 31
      → s.future_value ≡ value i
      → s.total_deposits ≡ deposits i
      → Filled s.arr_years n k year_of
      → Filled s.int_array n k interest_of
      → Filled s.fv n k value_of
      → (t : State F) × (year_end F i s ≡ ok t) × After t n i
  unfolding year_end
  year_end-After s n k i at lt small ev ed ys is vs =
      let (ys', ry, fy) = Filled-write s.arr_years n k year_of ys lt in
      let (is', ri, fi) = Filled-write s.int_array n k interest_of is lt in
      let (vs', rv, fv') = Filled-write s.fv n k value_of vs lt in
      let below : i / 12 - 1 ≡ k = omega (arith, at) in
      let index : to_int (i / 12 - 1) ≡ pos k =
        ap to_int below ∙ to_int-small k (omega (arith, small)) in
      let year : i / 12 ≡ k + 1 = omega (arith, at) in
      let future : s.future_value ≡ value_of k = ev ∙ ap value at in
      let total : s.total_deposits ≡ deposits (12 * (k + 1)) = ed ∙ ap deposits at in
      (
        record s { arr_years = ys'; int_array = is'; fv = vs' },
        rw (index, year, future, total, ry, ri, rv) refl,
        record {
          future_value = ev;
          total_deposits = ed;
          years = subst (λ y. Filled ys' n y year_of) (sym year) fy;
          interests = subst (λ y. Filled is' n y interest_of) (sym year) fi;
          values = subst (λ y. Filled vs' n y value_of) (sym year) fv';
        },
      )

  month-After :
      (s : State F) (n m : ℕ)
      → After s n m
      → m < 12 * n
      → n ≤ 2 ^ 31
      → (t : State F) × (month F money rate (m + 1) s ≡ ok t) × After t n (m + 1)
  unfolding month
  month-After s n m a lt small =
      let next : suc m ≡ m + 1 = omega arith in
      let s' : State F = record s {
        future_value = grown F money rate s.future_value;
        total_deposits = add s.total_deposits money;
      } in
      let ev : s'.future_value ≡ value (m + 1) =
        ap (grown F money rate) a.future_value ∙ ap value next in
      let ed : s'.total_deposits ≡ deposits (m + 1) =
        ap (λ d. add d money) a.total_deposits ∙ ap deposits next in
      elim (Bool-cases ((m + 1) % 12 == 0)) [
        | inl ends ↦
            let whole : (m + 1) % 12 ≡ 0 = ground (arith, ends) in
            let (t, run, after) =
              year_end-After s' n (m / 12) (m + 1) (omega (arith, whole)) (omega (arith, whole))
                small ev ed a.years a.interests a.values in
            (t, rw ends run, after)
        | inr within ↦
            let same : m / 12 ≡ (m + 1) / 12 = ground (arith, within) in
            (
              s',
              rw within refl,
              record {
                future_value = ev;
                total_deposits = ed;
                years = subst (λ y. Filled s.arr_years n y year_of) same a.years;
                interests = subst (λ y. Filled s.int_array n y interest_of) same a.interests;
                values = subst (λ y. Filled s.fv n y value_of) same a.values;
              },
            )
      ]

  loop-After :
      (k : ℕ) (s : State F) (n m : ℕ)
      → After s n m
      → m + k ≡ 12 * n
      → n ≤ 2 ^ 31
      → (t : State F) × (calculation_loop F k money rate (m + 1) s ≡ ok t) × After t n (12 * n)
  unfolding calculation_loop
  loop-After zero s n m a all small = (s, refl, subst (λ i. After s n i) (omega (arith, all)) a)
  loop-After (suc k) s n m a all small =
      let (t, run, after) = month-After s n m a (omega arith) small in
      let (u, rest, done) = loop-After k t n (m + 1) after (omega arith) small in
      (u, rw run rest, done)

  -- Lines `i` to `i + k - 1` of the table
  abbrev pub table : (k i : ℕ) → List (D × D × D)
  table zero i = []
  table (suc k) i = (year_of i, interest_of i, value_of i) ∷ table k (i + 1)

  read-Filled :
      (a : List (Option D)) (n k j : ℕ) (g : ℕ → D) → Filled a n k g → j < k → read F a j ≡ ok (g j)
  read-Filled a n k j g f lt = ap (cell F) (f.elements j lt)

  print_results-Filled :
      (k i : ℕ) (s : State F) (n : ℕ)
      → Filled s.arr_years n n year_of
      → Filled s.int_array n n interest_of
      → Filled s.fv n n value_of
      → i + k ≤ n
      → print_results F k i s ≡ ok (table k i)
  unfolding print_results
  print_results-Filled zero i s n ys is vs le = refl
  print_results-Filled (suc k) i s n ys is vs le =
      rw
        (
          read-Filled s.arr_years n n i year_of ys (omega arith),
          read-Filled s.int_array n n i interest_of is (omega arith),
          read-Filled s.fv n n i value_of vs (omega arith),
          print_results-Filled k (i + 1) s n ys is vs (omega arith),
        )
        refl

  Filled-none : (n : ℕ) (g : ℕ → D) → Filled (replicate n none) n 0 g
  Filled-none n g = record { size = length-replicate n none; elements = λ j lt. elim lt [ ] }

-- For `years` from 1 to 2^31, the numbers of years for which the index of a year is an `int`:
-- `calculation` stays inside its three arrays and writes every element
-- of them, and `printResults` prints one line for each year, in order: the year, the value after
-- twelve times as many months less the deposits so far, and that value. The value starts at 0, and
-- each month adds the deposit to it and then the interest of one month.
pub calculation-table :
    {D : Type 0} (F : Floating D) (money interest : D) (n : ℕ)
    → suc n ≤ 2 ^ 31
    → with_years F money interest (pos (suc n))
      ≡ ok (table F money (monthly_rate F interest) (suc n) 0)
unfolding calculation
calculation-table F money interest n small =
    let rate = monthly_rate F interest in
    let years = suc n in
    let start : After F money rate (empty F years) years 0 = record {
      future_value = refl;
      total_deposits = refl;
      years = Filled-none F money rate years (year_of F money rate);
      interests = Filled-none F money rate years (interest_of F money rate);
      values = Filled-none F money rate years (value_of F money rate);
    } in
    let (t, run, after) =
      loop-After F money rate (years * 12) (empty F years) years 0 start (omega arith) small in
    let full : 12 * years / 12 ≡ years = omega arith in
    let whole : calculation F money interest years ≡ ok t =
      rw (lt→ltb (years * 12) (2 ^ 63) (omega arith)) run in
    ap (λ r. r >>= λ s. print_results F years 0 s) whole
    ∙ print_results-Filled F money rate years 0 t years
        (subst (λ y. Filled F money rate t.arr_years years y (year_of F money rate)) full
          after.years)
        (subst (λ y. Filled F money rate t.int_array years y (interest_of F money rate)) full
          after.interests)
        (subst (λ y. Filled F money rate t.fv years y (value_of F money rate)) full after.values)
        (omega arith)
