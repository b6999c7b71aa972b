-- ===== src/Investment.antt =====
-- m2/future_value.c: the growth of a monthly investment. The numbers of type `double` and their
-- operations are an argument, as are `strtod` and `strtol`.
pub mod Growth
use sp327_alonso_a.Common.{
  ℕ, zero, suc, ◌+◌, ◌-◌, ◌*◌, ◌/◌, ◌%◌, ◌^◌, Bool, true, false, ◌||◌, Option, none, some, List, [],
  ◌∷◌, ltb, ◌==◌, if◌then◌else◌, length, get_elem?, set, replicate,
}
use sp327_alonso_a.Common.Bytes.{Bytes}
pub use sp327_alonso_a.Common.Run.{Run, ok, fault, exits, ◌>>=◌}
use sp327_alonso_a.Common.Int.{ℤ, pos, negsuc, to_int}

pub record Floating (D : Type 0) : Type 0 where
  pub add : D → D → D
  pub sub : D → D → D
  pub mul : D → D → D
  pub div : D → D → D
  pub from_long : ℕ → D

-- What `strtod` or `strtol` makes of an argument: the number, whether `errno` is set, and the
-- string from `endptr` on.
pub record Converted (A : Type 0) : Type 0 where
  pub value : A
  pub errno : Bool
  pub endptr : Bytes

abbrev pub is_end : Bytes → Bool
is_end [] = true
is_end (c ∷ s) = false

-- `convert_to_long` and `convert_to_doubles`: `FailPrint` exits.
unfoldable pub convert : {A : Type 0} → Converted A → Run A
convert c = if c.errno then exits else if is_end c.endptr then ok c.value else exits

module _ {D : Type 0} (F : Floating D) where
  open F use {add, sub, mul, div, from_long}

  -- An array of `double`, `none` where nothing has been written.
  abbrev pub Array : Type 0
  Array = List (Option D)

  unfoldable pub write : Array → ℕ → D → Run Array
  write a i v = if ltb i (length a) then ok (set a i (some v)) else fault

  abbrev pub write_at : Array → ℤ → D → Run Array
  write_at a (pos i) v = write a i v
  write_at a (negsuc i) v = fault

  -- the variables of `calculation`
  pub record State : Type 0 where
    pub future_value : D
    pub total_deposits : D
    pub arr_years : Array
    pub int_array : Array
    pub fv : Array

  -- the end of a year: one element of each array, at an index that is an `int`
  unfoldable pub year_end : (i : ℕ) → State → Run State
  unfolding write
  year_end i s =
      let year_index = to_int (i / 12 - 1) in
      write_at s.arr_years year_index (from_long (i / 12)) >>= λ years.
      write_at s.int_array year_index (sub s.future_value s.total_deposits) >>= λ interests.
      write_at s.fv year_index s.future_value >>= λ values.
      ok (record s { arr_years = years; int_array = interests; fv = values })

  abbrev pub grown : (money monthly_int : D) → D → D
  grown money monthly_int value = let more = add value money in add more (mul more monthly_int)

  unfoldable pub month : (money monthly_int : D) → (i : ℕ) → State → Run State
  unfolding year_end
  month money monthly_int i s =
      let s' : State = record s {
        future_value = grown money monthly_int s.future_value;
        total_deposits = add s.total_deposits money;
      } in
      if i % 12 == 0 then year_end i s' else ok s'

  -- `k` rounds of the loop, from month `i`
  unfoldable pub calculation_loop : (k : ℕ) → (money monthly_int : D) → (i : ℕ) → State → Run State
  unfolding month
  calculation_loop zero money monthly_int i s = ok s
  calculation_loop (suc k) money monthly_int i s =
      month money monthly_int i s >>= λ s'. calculation_loop k money monthly_int (i + 1) s'

  -- the variables at the start: the three arrays of `main`, which nothing has written yet
  abbrev pub empty : (years : ℕ) → State
  empty years = record {
    future_value = from_long 0;
    total_deposits = from_long 0;
    arr_years = replicate years none;
    int_array = replicate years none;
    fv = replicate years none;
  }

  abbrev pub monthly_rate : (interest : D) → D
  monthly_rate interest = div (div interest (from_long 12)) (from_long 100)

  -- The number of months is a `long`, whose overflow is undefined.
  unfoldable pub calculation : (money interest : D) → (years : ℕ) → Run State
  unfolding calculation_loop
  calculation money interest years =
      if ltb (years * 12) (2 ^ 63)
      then calculation_loop (years * 12) money (monthly_rate interest) 1 (empty years)
      else fault

  -- one element of an array that is printed
  abbrev pub cell : Option (Option D) → Run D
  cell none = fault
  cell (some none) = fault
  cell (some (some v)) = ok v

  abbrev pub read : Array → ℕ → Run D
  read a i = cell (get_elem? a i)

  -- `printResults`: `k` lines from index `i` on
  unfoldable pub print_results : (k i : ℕ) → State → Run (List (D × D × D))
  print_results zero i s = ok []
  print_results (suc k) i s = read s.arr_years i >>= λ year. read s.int_array i >>= λ interest.
      read s.fv i >>= λ value.
      print_results k (i + 1) s >>= λ rest. ok ((year, interest, value) ∷ rest)

  -- `main` with its three arguments. An array of no or a negative number of elements is undefined.
  abbrev pub with_years : (money interest : D) → ℤ → Run (List (D × D × D))
  with_years money interest (pos zero) = fault
  with_years money interest (pos (suc n)) =
      calculation money interest (suc n) >>= λ s. print_results (suc n) 0 s
  with_years money interest (negsuc n) = fault

  unfoldable pub main :
      (argc : ℕ) → Converted D → Converted D → Converted ℤ → Run (List (D × D × D))
  unfolding convert calculation print_results
  main argc money interest years =
      if ltb argc 4
      then exits
      else (convert money >>= λ m.
          convert interest >>= λ r. convert years >>= λ n. with_years m r n)
