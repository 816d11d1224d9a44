-- ===== src/Pricing/Tests.antt =====
-- calculator.go and table.go on concrete inputs, with natural numbers for the floats.
use finops_proxy.Prelude.{
  ℕ, ◌+◌, ◌*◌, ◌/◌, ◌≡◌, refl, true, some, [], ◌∷◌, arith, Bytes, bytes, bytes_eq, bytes_discrete,
  ℕ_discrete, dec_lt, dec_le,
}
use finops_proxy.Float.Naturals.{naturals}
use finops_proxy.GoMap.{lookup}
use finops_proxy.Pricing.{
  ModelPrice, Pricing, has_prefix, longer_prefix, longest_from, price_for, cost, estimate_tokens,
  estimate_prompt_tokens, saved_cost, build, micro_usd_per_usd,
}
use finops_proxy.Pricing.Resolution
use finops_proxy.Pricing.Resolution.{Resolves}
use finops_proxy.Pricing.Costs

runs : Unit {0}
unfolding lookup has_prefix longer_prefix longest_from price_for cost estimate_tokens
    estimate_prompt_tokens saved_cost build bytes_discrete ℕ_discrete dec_lt dec_le
runs = tt

abbrev price : ℕ → ModelPrice
price n = record { input_usd = n; output_usd = 4 * n }

abbrev table : Pricing ℕ
table = record {
  assumed_completion_tokens = 500;
  chars_per_token = 4;
  models =
      (bytes "gpt", price 1)
      ∷ (bytes "gpt-4o", price 2500000)
      ∷ (bytes "gpt-4o-mini", price 150000)
      ∷ [];
  default_price = price 7;
}

-- the same table in another order
abbrev turned : Pricing ℕ
turned = record table {
  models =
      (bytes "gpt-4o-mini", price 150000)
      ∷ (bytes "gpt", price 1)
      ∷ (bytes "gpt-4o", price 2500000)
      ∷ [];
}

abbrev dated : Bytes
dated = bytes "gpt-4o-2024"

price_for-Resolves_example :
    Resolves dated table (price_for dated table).0 (price_for dated table).1
price_for-Resolves_example = Resolution.price_for-Resolves dated table

dated_price : price_for dated table ≡ (price 2500000, true)
unfolding runs
dated_price = refl

same_prices : (key : Bytes) → lookup key table.models ≡ lookup key turned.models
unfolding runs
same_prices key = ground arith

price_for_order_example : price_for dated table ≡ price_for dated turned
price_for_order_example = Resolution.price_for_order dated table turned same_prices refl

cost_exact_example :
    cost (price 2500000) 1000 200 ≡ (1000 * 2500000 + 200 * (4 * 2500000)) / micro_usd_per_usd
cost_exact_example =
    Costs.cost_exact (price 2500000) 1000 200 (omega arith, omega arith) (omega arith) (omega arith)

-- twelve bytes are three tokens
saved : saved_cost (λ body. some dated) (bytes "{\"a\":\"bcde\"}") table ≡ 5007
unfolding runs
saved = refl
