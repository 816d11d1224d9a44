-- ===== src/Registry/Merge.antt =====
-- The table that a refresh makes of the seed and the catalog.
use finops_proxy.Prelude.{
  ◌≡◌, refl, Option, none, some, [], ◌∷◌, arith, Bytes, bytes_eq, same, ap, ◌∙◌,
}
use finops_proxy.GoMap.{Map, IsMap, lookup, insert}
use finops_proxy.GoMap.Laws.{lookup-insert}
use finops_proxy.Pricing.{ModelPrice}
use finops_proxy.Registry.{Registry, overlay, merge}

-- the first of two prices that there is
abbrev pub first_price : Option ModelPrice → Option ModelPrice → Option ModelPrice
first_price none other = other
first_price (some mp) other = some mp

lookup-overlay :
    (key : Bytes) (merged models : Map Bytes ModelPrice)
    → IsMap models
    → lookup key (overlay merged models) ≡ first_price (lookup key models) (lookup key merged)
unfolding overlay lookup
lookup-overlay key merged [] h = refl
lookup-overlay key merged ((k, v) ∷ models) h = elim (same k key) [
  | yes e ↦
      ground
        (arith, lookup-overlay key (insert k v merged) models h.1, lookup-insert k key v merged)
  | no ne ↦
      ground
        (arith, lookup-overlay key (insert k v merged) models h.1, lookup-insert k key v merged)
]

first_price-none : (o : Option ModelPrice) → first_price o none ≡ o
first_price-none none = refl
first_price-none (some mp) = refl

-- In the merged table a model of the catalog has the catalog's price, every other key what the seed
-- has for it, and the default and the knobs of the estimates are the seed's.
pub lookup-merge :
    {F E : Type 0} (key : Bytes) (models : Map Bytes ModelPrice) (r : Registry F E)
    → IsMap models
    → IsMap r.base.models
    → (lookup key (merge models r).models
        ≡ first_price (lookup key models) (lookup key r.base.models))
      × ((merge models r).default_price ≡ r.base.default_price)
      × ((merge models r).chars_per_token ≡ r.base.chars_per_token)
      × ((merge models r).assumed_completion_tokens ≡ r.base.assumed_completion_tokens)
unfolding merge lookup
lookup-merge key models r h k =
    let seed : lookup key (overlay [] r.base.models) ≡ lookup key r.base.models =
      lookup-overlay key [] r.base.models k ∙ first_price-none (lookup key r.base.models) in
    (
      lookup-overlay key (overlay [] r.base.models) models h
          ∙ ap (first_price (lookup key models)) seed,
      refl,
      refl,
      refl,
    )
