-- ===== src/Pricing.antt =====
-- pkg/pricing/calculator.go and table.go: the table of prices and the costs. Money is in
-- millionths of a dollar, an int64 kept as its 64-bit pattern, and so is a number of tokens.
pub mod Resolution
pub mod Costs
mod Tests
use finops_proxy.Prelude.{
  ℕ, ◌*◌, Bool, true, false, ◌&&◌, Option, none, some, List, [], ◌∷◌, Bytes, bytes_eq, ◌==◌,
  if◌then◌else◌, ltb, length, add64, mul64, quotient64,
}
use finops_proxy.Float.{Float64}
use finops_proxy.GoMap.{Map, lookup}

abbrev pub micro_usd_per_usd : ℕ
micro_usd_per_usd = 1000000

abbrev pub default_chars_per_token : ℕ
default_chars_per_token = 4

pub record ModelPrice : Type 0 where
  pub input_usd : ℕ
  pub output_usd : ℕ

-- the zero value of the struct
abbrev pub no_price : ModelPrice
no_price = record { input_usd = 0; output_usd = 0 }

pub record Pricing (F : Type 0) : Type 0 where
  pub assumed_completion_tokens : ℕ
  pub chars_per_token : F
  pub models : Map Bytes ModelPrice
  pub default_price : ModelPrice

-- `strings.HasPrefix(text, key)`
unfoldable pub has_prefix : Bytes → Bytes → Bool
has_prefix text [] = true
has_prefix [] (k ∷ key) = false
has_prefix (t ∷ text) (k ∷ key) = let rest = has_prefix text key in k == t && rest

-- `if len(key) > len(best) && strings.HasPrefix(model, key) { best = key }`
unfoldable pub longer_prefix : Bytes → Bytes → Bytes → Bytes
unfolding has_prefix
longer_prefix model best key =
    if ltb (length best) (length key) && has_prefix model key then key else best

-- the loop over the keys, with the best one so far
unfoldable pub longest_from : Bytes → Bytes → Map Bytes ModelPrice → Bytes
unfolding longer_prefix
longest_from model best [] = best
longest_from model best ((key, _) ∷ m) = longest_from model (longer_prefix model best key) m

-- `m[k]` of a key that may be missing
abbrev pub price_or_zero : Option ModelPrice → ModelPrice
price_or_zero none = no_price
price_or_zero (some mp) = mp

-- the part of `PriceFor` after the loop
abbrev pub price_of_best : {F : Type 0} → Pricing F → Bytes → ModelPrice × Bool
unfolding lookup
price_of_best p [] = (p.default_price, false)
price_of_best p (c ∷ best) = (price_or_zero (lookup (c ∷ best) p.models), true)

unfoldable pub price_for : {F : Type 0} → Bytes → Pricing F → ModelPrice × Bool
unfolding lookup longest_from
price_for model p = elim (lookup model p.models) [
  | some mp ↦ (mp, true)
  | none ↦ price_of_best p (longest_from model [] p.models)
]

-- `decode` is json.Unmarshal into a struct with the field "model".
abbrev pub extract_model : (Bytes → Option Bytes) → Bytes → Bytes
extract_model decode body = elim (decode body) [ none ↦ [] | some model ↦ model ]

unfoldable pub cost : ModelPrice → ℕ → ℕ → ℕ
cost mp prompt_tok completion_tok =
    quotient64 (add64 (mul64 prompt_tok mp.input_usd) (mul64 completion_tok mp.output_usd))
      micro_usd_per_usd

module _ {F : Type 0} ⦃fl : Float64 F⦄ where
  abbrev pub chars_or_default : F → F
  chars_or_default chars_per_token =
      if fl.less_eq chars_per_token (fl.literal 0)
      then fl.literal default_chars_per_token
      else chars_per_token

  -- a length is not negative, so `chars <= 0` is zero characters
  unfoldable pub estimate_tokens : ℕ → F → ℕ
  estimate_tokens chars chars_per_token =
      if ltb 0 chars
      then fl.trunc (fl.ceil (fl.quotient (fl.of_int64 chars) (chars_or_default chars_per_token)))
      else 0

  unfoldable pub estimate_prompt_tokens : Bytes → Pricing F → ℕ
  unfolding estimate_tokens
  estimate_prompt_tokens body p = estimate_tokens (length body) p.chars_per_token

  unfoldable pub build : Map Bytes ModelPrice → ModelPrice → ℕ → F → Pricing F
  build models default_price assumed_completion_tokens chars_per_token = record {
    assumed_completion_tokens = assumed_completion_tokens;
    chars_per_token = chars_or_default chars_per_token;
    models = models;
    default_price = default_price;
  }

  unfoldable pub saved_cost : (Bytes → Option Bytes) → Bytes → Pricing F → ℕ
  unfolding price_for cost estimate_prompt_tokens
  saved_cost decode body p =
      cost (price_for (extract_model decode body) p).0 (estimate_prompt_tokens body p)
        p.assumed_completion_tokens
