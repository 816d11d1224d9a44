-- ===== src/Prelude/Int.antt =====
-- Go's signed integers: an `int` argument that may be negative is a ℤ, and an `int64` that may
-- overflow is its 64-bit pattern, a number below 2 ^ 64.
use Prim.Native.Nat.{ℕ, zero, suc, ◌+◌, ◌-◌, ◌*◌, ◌/◌, ◌%◌, ◌^◌, ◌<◌}
use mathlib.Core.Bool.{Bool}
use native.Mathlib.Omega.{arith}
use finops_proxy.Prelude.Tests.{ltb, if◌then◌else◌}

-- `negsuc n` is -(n + 1).
pub data ℤ : Type 0 where
  pos : ℕ → ℤ
  negsuc : ℕ → ℤ

-- `if x <= 0 { x = d }`
abbrev pub positive_or : ℕ → ℤ → ℕ
positive_or d (pos zero) = d
positive_or d (pos (suc n)) = suc n
positive_or d (negsuc n) = d

-- `if x < 2 { x = d }`
abbrev pub at_least_two_or : ℕ → ℤ → ℕ
at_least_two_or d (pos zero) = d
at_least_two_or d (pos (suc zero)) = d
at_least_two_or d (pos (suc (suc n))) = suc (suc n)
at_least_two_or d (negsuc n) = d

pub positive_or_pos : (d : ℕ) (x : ℤ) → 0 < d → 0 < positive_or d x
positive_or_pos d (pos zero) h = h
positive_or_pos d (pos (suc n)) h = omega arith
positive_or_pos d (negsuc n) h = h

-- x + y and x - y on bit patterns
abbrev pub add64 : ℕ → ℕ → ℕ
add64 a b = (a + b) % 2 ^ 64

abbrev pub sub64 : ℕ → ℕ → ℕ
sub64 a b = (a + 2 ^ 64 - b) % 2 ^ 64

-- the signed `a < b`: adding 2 ^ 63 turns the order of the integers into that of the patterns
abbrev pub slt64 : ℕ → ℕ → Bool
slt64 a b = ltb ((a + 2 ^ 63) % 2 ^ 64) ((b + 2 ^ 63) % 2 ^ 64)

-- x * y on bit patterns
abbrev pub mul64 : ℕ → ℕ → ℕ
mul64 a b = (a * b) % 2 ^ 64

-- the signed x / n by a positive n, which rounds towards zero
abbrev pub quotient64 : ℕ → ℕ → ℕ
quotient64 a n = if ltb a (2 ^ 63) then a / n else (2 ^ 64 - (2 ^ 64 - a) / n) % 2 ^ 64
