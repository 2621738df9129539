-- ===== src/Common/Floats.antt =====
-- The arithmetic of `float` and `double`, which the code only calls: its operations as a record, and the
-- facts on comparisons that IEEE 754 gives.
use mathlib.Core.Path.{◌≡◌}
use mathlib.Core.Bool.{Bool, true, false}
use Prim.Native.Nat.{ℕ}

-- `F` stands for `float`, `D` for `double`. `unit n` is (float)n / 16777216.0f, `exp` is `expf`.
pub record Floats (F D : Type 0) : Type 0 where
  pub nought : F
  pub one : F
  pub lt : F → F → Bool
  pub le : F → F → Bool
  pub add : F → F → F
  pub sub : F → F → F
  pub mul : F → F → F
  pub div : F → F → F
  pub exp : F → F
  pub is_finite : F → Bool
  pub unit : ℕ → F
  pub widen : F → D
  pub nought_d : D
  pub lt_d : D → D → Bool
  pub le_d : D → D → Bool
  pub add_d : D → D → D
  pub mul_d : D → D → D
  -- `(float)(1.0 / total)`
  pub inverse : D → F

-- How 0 and 1 compare.
pub record IsOrdered {F D : Type 0} (fl : Floats F D) : Type 0 where
  pub nought_le : fl.le fl.nought fl.nought ≡ true
  pub nought_lt : fl.lt fl.nought fl.nought ≡ false
  pub nought-lt-one : fl.lt fl.nought fl.one ≡ true
  pub one_lt : fl.lt fl.one fl.one ≡ false
  pub one-lt-nought : fl.lt fl.one fl.nought ≡ false
