-- ===== src/Pricing/Costs.antt =====
-- The costs stay in range for the prices that a table may have.
use finops_proxy.Prelude.{ℕ, ◌+◌, ◌*◌, ◌/◌, ◌^◌, ◌≤◌, ◌≡◌, arith}
use native.Mathlib.Nat.{mul-le-mul_left, mul-le-mul_right}
use finops_proxy.Pricing.{ModelPrice, cost, micro_usd_per_usd}

-- a thousand dollars for a million tokens, the most that the loader accepts
abbrev pub max_price : ℕ
max_price = 1000000000

abbrev pub InRange : ModelPrice → Type 0
InRange mp = (mp.input_usd ≤ max_price) × (mp.output_usd ≤ max_price)

abbrev pub max_tokens : ℕ
max_tokens = 2 ^ 32

product-le : (n price : ℕ) → n ≤ max_tokens → price ≤ max_price → n * price ≤ max_tokens * max_price
product-le n price h k = omega (arith, mul-le-mul_right price h, mul-le-mul_left max_tokens k)

-- The cost of a call with up to 2^32 prompt tokens and as many completion tokens, at prices up to
-- a thousand dollars for a million tokens, is the exact sum of the products, divided by a million
-- and rounded down: neither the products nor the sum overflow.
pub cost_exact :
    (mp : ModelPrice) (prompt_tok completion_tok : ℕ)
    → InRange mp
    → prompt_tok ≤ max_tokens
    → completion_tok ≤ max_tokens
    → cost mp prompt_tok completion_tok
      ≡ (prompt_tok * mp.input_usd + completion_tok * mp.output_usd) / micro_usd_per_usd
unfolding cost
cost_exact mp prompt_tok completion_tok r hp hc =
    let a : prompt_tok * mp.input_usd ≤ max_tokens * max_price =
      product-le prompt_tok mp.input_usd hp r.0 in
    let b : completion_tok * mp.output_usd ≤ max_tokens * max_price =
      product-le completion_tok mp.output_usd hc r.1 in
    ground arith
