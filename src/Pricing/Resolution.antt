-- ===== src/Pricing/Resolution.antt =====
-- Which price a model has: that of the model itself, of the longest key that it begins with, or the
-- default.
use finops_proxy.Prelude.{
  ◌≤◌, ◌≡◌, ◌≢◌, ◌⊎◌, inl, inr, refl, Bool, true, false, none, some, Option-cases, [], ◌∷◌, arith,
  Bytes, bytes_eq, length, same, sym, ◌∙◌,
}
use finops_proxy.GoMap.{Map, lookup}
use finops_proxy.Pricing.{
  ModelPrice, Pricing, has_prefix, longer_prefix, longest_from, price_for, price_of_best,
}

-- a key of the table that the model begins with
abbrev pub IsPrefixKey : Bytes → Map Bytes ModelPrice → Bytes → Type 0
IsPrefixKey model m key = (lookup key m ≢ none) × (has_prefix model key ≡ true)

longer_prefix-le : (model best key : Bytes) → length best ≤ length (longer_prefix model best key)
unfolding longer_prefix
longer_prefix-le model best key = ground arith

prefix-le :
    (model best key : Bytes)
    → has_prefix model key ≡ true
    → length key ≤ length (longer_prefix model best key)
unfolding longer_prefix
prefix-le model best key h = ground arith

longer_prefix-cases :
    (model best key : Bytes)
    → (longer_prefix model best key ≡ best)
      ⊎ ((longer_prefix model best key ≡ key) × (has_prefix model key ≡ true))
unfolding longer_prefix
longer_prefix-cases model best key = ground arith

longest_from-le :
    (model best : Bytes) (m : Map Bytes ModelPrice)
    → length best ≤ length (longest_from model best m)
unfolding longest_from
longest_from-le model best [] = omega arith
longest_from-le model best ((key, v) ∷ m) =
    omega (
      arith,
      longer_prefix-le model best key,
      longest_from-le model (longer_prefix model best key) m,
    )

prefix_key-le :
    (model best : Bytes) (m : Map Bytes ModelPrice) (key : Bytes)
    → IsPrefixKey model m key
    → length key ≤ length (longest_from model best m)
unfolding longest_from lookup
prefix_key-le model best [] key h = absurd (h.0 refl)
prefix_key-le model best ((k, v) ∷ m) key h = elim (same k key) [
  | yes e ↦
      let first : length key ≤ length (longer_prefix model best key) =
        prefix-le model best key h.1 in
      rw e (omega (arith, first, longest_from-le model (longer_prefix model best key) m))
  | no ne ↦ prefix_key-le model (longer_prefix model best k) m key (ground arith)
]

IsPrefixKey-head :
    (model key k : Bytes) (v : ModelPrice) (m : Map Bytes ModelPrice)
    → key ≡ k
    → has_prefix model k ≡ true
    → IsPrefixKey model ((key, v) ∷ m) k
unfolding lookup
IsPrefixKey-head model key k v m e h = (ground arith, h)

IsPrefixKey-tail :
    (model key k : Bytes) (v : ModelPrice) (m : Map Bytes ModelPrice)
    → IsPrefixKey model m k
    → IsPrefixKey model ((key, v) ∷ m) k
unfolding lookup
IsPrefixKey-tail model key k v m h = (ground arith, h.1)

longest_from-IsPrefixKey :
    (model best : Bytes) (m : Map Bytes ModelPrice)
    → (longest_from model best m ≡ best) ⊎ IsPrefixKey model m (longest_from model best m)
unfolding longest_from lookup
longest_from-IsPrefixKey model best [] = inl refl
longest_from-IsPrefixKey model best ((key, v) ∷ m) =
    elim (longest_from-IsPrefixKey model (longer_prefix model best key) m) [
      | inl same_best ↦ elim (longer_prefix-cases model best key) [
        | inl old ↦ inl (same_best ∙ old)
        | inr new ↦ inr (
            IsPrefixKey-head model key _ v m (sym (same_best ∙ new.0))
              (rw (same_best ∙ new.0) new.1))
      ]
      | inr found ↦ inr (IsPrefixKey-tail model key _ v m found)
    ]

-- how the price of a model is found
pub data Resolves {F : Type 0} (model : Bytes) (p : Pricing F) : ModelPrice → Bool → Type 0 where
  exact : {mp : ModelPrice} → lookup model p.models ≡ some mp → Resolves model p mp true
  longest :
      {mp : ModelPrice} (key : Bytes)
      → lookup model p.models ≡ none
      → key ≢ []
      → lookup key p.models ≡ some mp
      → has_prefix model key ≡ true
      → ((other : Bytes) → IsPrefixKey model p.models other → length other ≤ length key)
      → Resolves model p mp true
  default :
      lookup model p.models ≡ none
      → ((other : Bytes) → IsPrefixKey model p.models other → other ≡ [])
      → Resolves model p p.default_price false

length-none : (xs : Bytes) → length xs ≤ 0 → xs ≡ []
length-none [] h = refl
length-none (x ∷ xs) h = absurd (omega arith)

best-Resolves :
    {F : Type 0} (model best : Bytes) (p : Pricing F)
    → lookup model p.models ≡ none
    → (best ≡ []) ⊎ IsPrefixKey model p.models best
    → ((other : Bytes) → IsPrefixKey model p.models other → length other ≤ length best)
    → Resolves model p (price_of_best p best).0 (price_of_best p best).1
unfolding price_of_best
best-Resolves model [] p h found most =
    Resolves.default h (λ other k. length-none other (most other k))
best-Resolves model (c ∷ best) p h (inl e) most = absurd (ground arith)
best-Resolves model (c ∷ best) p h (inr k) most = elim (Option-cases (lookup (c ∷ best) p.models)) [
  | inl e ↦ absurd (k.0 e)
  | inr (mp, e) ↦ rw e (Resolves.longest (c ∷ best) h (ground arith) e k.1 most)
]

-- The price of a model is that of the model itself if the table has it, else that of the longest
-- key, not empty, that the model begins with, else the default, and the flag is false only for that.
pub price_for-Resolves :
    {F : Type 0} (model : Bytes) (p : Pricing F)
    → Resolves model p (price_for model p).0 (price_for model p).1
unfolding price_for
price_for-Resolves model p = elim (Option-cases (lookup model p.models)) [
  | inl e ↦
      rw (price_for, e)
        (best-Resolves model (longest_from model [] p.models) p e
          (longest_from-IsPrefixKey model [] p.models)
          (λ other k. prefix_key-le model [] p.models other k))
  | inr (mp, e) ↦ rw (price_for, e) (Resolves.exact e)
]

-- two beginnings of one text that are equally long are the same
prefixes_same :
    (text a b : Bytes)
    → has_prefix text a ≡ true
    → has_prefix text b ≡ true
    → length a ≡ length b
    → a ≡ b
unfolding has_prefix
prefixes_same text [] [] h k e = refl
prefixes_same text [] (y ∷ b) h k e = absurd (omega arith)
prefixes_same text (x ∷ a) [] h k e = absurd (omega arith)
prefixes_same [] (x ∷ a) (y ∷ b) h k e = absurd (ground arith)
prefixes_same (t ∷ text) (x ∷ a) (y ∷ b) h k e = ground (arith, prefixes_same text a b)

longest_from-has_prefix :
    (model : Bytes) (m : Map Bytes ModelPrice) → has_prefix model (longest_from model [] m) ≡ true
unfolding has_prefix
longest_from-has_prefix model m = elim (longest_from-IsPrefixKey model [] m) [
  | inl e ↦ rw e refl
  | inr k ↦ k.1
]

longest_from-longer :
    (model : Bytes) (m n : Map Bytes ModelPrice)
    → ((key : Bytes) → lookup key m ≡ lookup key n)
    → length (longest_from model [] m) ≤ length (longest_from model [] n)
longest_from-longer model m n same_map = elim (longest_from-IsPrefixKey model [] m) [
  | inl e ↦ rw e (omega arith)
  | inr k ↦
      let there : lookup (longest_from model [] m) n ≢ none =
        λ h. k.0 (same_map (longest_from model [] m) ∙ h) in
      prefix_key-le model [] n (longest_from model [] m) (there, k.1)
]

longest_from_order :
    (model : Bytes) (m n : Map Bytes ModelPrice)
    → ((key : Bytes) → lookup key m ≡ lookup key n)
    → longest_from model [] m ≡ longest_from model [] n
longest_from_order model m n same_map =
    prefixes_same model (longest_from model [] m) (longest_from model [] n)
      (longest_from-has_prefix model m) (longest_from-has_prefix model n)
      (omega (
        arith,
        longest_from-longer model m n same_map,
        longest_from-longer model n m (λ key. sym (same_map key)),
      ))

price_of_best_order :
    {F : Type 0} (best : Bytes) (p q : Pricing F)
    → ((key : Bytes) → lookup key p.models ≡ lookup key q.models)
    → p.default_price ≡ q.default_price
    → price_of_best p best ≡ price_of_best q best
unfolding price_of_best
price_of_best_order [] p q same_map same_default = rw same_default
price_of_best_order (c ∷ best) p q same_map same_default = rw (same_map (c ∷ best))

-- The price of a model does not depend on the order in which the loop visits the table: two tables
-- that have the same price for every key, and the same default, answer alike.
pub price_for_order :
    {F : Type 0} (model : Bytes) (p q : Pricing F)
    → ((key : Bytes) → lookup key p.models ≡ lookup key q.models)
    → p.default_price ≡ q.default_price
    → price_for model p ≡ price_for model q
unfolding price_for
price_for_order model p q same_map same_default =
    let found : lookup model p.models ≡ lookup model q.models = same_map model in
    elim (Option-cases (lookup model q.models)) [
      | inl e ↦
          let best : longest_from model [] p.models ≡ longest_from model [] q.models =
            longest_from_order model p.models q.models same_map in
          rw (price_for, found, e, best)
            (price_of_best_order (longest_from model [] q.models) p q same_map same_default)
      | inr (mp, e) ↦ rw (price_for, found, e) refl
    ]
