-- ===== src/Common/Run.antt =====
-- How a call of C ends, where it changes no state that the model keeps.

-- A run: a result, undefined behaviour (an array out of bounds, a read of what was never written),
-- or `exit` of the process.
pub data Run (A : Type 0) : Type 0 where
  ok : A → Run A
  fault : Run A
  exits : Run A

infixl 5 ◌>>=◌
abbrev pub ◌>>=◌ : {A B : Type 0} → Run A → (A → Run B) → Run B
ok a >>= k = k a
fault >>= k = fault
exits >>= k = exits
