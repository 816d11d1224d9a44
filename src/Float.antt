-- ===== src/Float.antt =====
-- float64, of which the components use only these operations.
pub mod Naturals
use finops_proxy.Prelude.{ℕ, Bool}

-- The float64 operations: `literal` gives the whole constants, `ratio a b` the constant a / b, `of_int64` converts a bit pattern,
-- `seconds` is `Duration.Seconds`, `trunc` is the conversion
-- of a positive float to an int, and `ceil` is `math.Ceil`.
pub record Float64 (F : Type 0) : Type 0 where
  pub literal : ℕ → F
  pub ratio : ℕ → ℕ → F
  pub of_int64 : ℕ → F
  pub seconds : ℕ → F
  pub quotient : F → F → F
  pub less : F → F → Bool
  pub less_eq : F → F → Bool
  pub trunc : F → ℕ
  pub ceil : F → F
