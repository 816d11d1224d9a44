-- ===== src/Float/Naturals.antt =====
-- The natural numbers as floats, for the tests: a ratio and a quotient are rounded down.
use finops_proxy.Prelude.{ℕ, ◌/◌, ltb, leb}
use finops_proxy.Detector.{second}
use finops_proxy.Float.{Float64}

instance abbrev pub naturals : Float64 ℕ
naturals = record {
  literal = λ n. n;
  ratio = λ a b. a / b;
  of_int64 = λ n. n;
  seconds = λ d. d / second;
  quotient = λ a b. a / b;
  less = ltb;
  less_eq = leb;
  trunc = λ n. n;
  ceil = λ n. n;
}
