-- ===== src/GoMap.antt =====
-- Go's built-in `map`, as the programs of pkg/ and internal/ use it: an association list whose
-- order is the order in which a `range` visits the entries.
pub mod Laws
pub mod Evict
pub mod Admit
use finops_proxy.Prelude.{
  ℕ, zero, suc, ◌≡◌, Option, none, some, List, [], ◌∷◌, ite, dec_lt, dec_le, length, Eq, same, Bool,
  if◌then◌else◌,
}

abbrev pub Map {ℓ} : Type ℓ → Type ℓ → Type ℓ
Map K V = List (K × V)

module _ {ℓ} {K V : Type ℓ} ⦃e : Eq K⦄ where
  -- `v, ok := m[k]`
  unfoldable pub lookup : K → Map K V → Option V
  lookup k [] = none
  lookup k ((j, v) ∷ m) = ite (same j k) (some v) (lookup k m)

  -- `m[k] = v`
  unfoldable pub insert : K → V → Map K V → Map K V
  insert k v [] = (k, v) ∷ []
  insert k v ((j, w) ∷ m) = ite (same j k) ((k, v) ∷ m) ((j, w) ∷ insert k v m)

  -- `delete(m, k)`
  unfoldable pub delete : K → Map K V → Map K V
  delete k [] = []
  delete k ((j, w) ∷ m) = let rest = delete k m in ite (same j k) rest ((j, w) ∷ rest)

  -- No key stands twice.
  abbrev pub IsMap : Map K V → Type ℓ
  IsMap [] = Unit
  IsMap ((k, v) ∷ m) = (lookup k m ≡ none) × IsMap m

module _ {ℓ} {K V : Type ℓ} where
  -- `for k, e := range m { if !keep(k, e) { delete(m, k) } }`
  unfoldable pub sweep : (K → V → Bool) → Map K V → Map K V
  sweep keep [] = []
  sweep keep ((k, v) ∷ m) = let rest = sweep keep m in if keep k v then (k, v) ∷ rest else rest

  -- the loop that looks for the entry with the smallest time, with the best entry so far
  unfoldable pub oldest_from : (V → ℕ) → Option (K × ℕ) → Map K V → Option (K × ℕ)
  oldest_from time best [] = best
  oldest_from time none ((k, v) ∷ m) = oldest_from time (some (k, time v)) m
  oldest_from time (some (b, t)) ((k, v) ∷ m) =
      oldest_from time (some (ite (dec_lt (time v) t) (k, time v) (b, t))) m

module _ {ℓ} {K V : Type ℓ} ⦃e : Eq K⦄ where
  -- `for len(m) >= max { … delete(m, oldest) }`. Each round deletes, so `length m` rounds are
  -- enough fuel.
  unfoldable pub evict : ℕ → (V → ℕ) → ℕ → Map K V → Map K V
  evict zero time max m = m
  evict (suc fuel) time max m = elim (dec_le max (length m)) [
    | yes full ↦ elim (oldest_from time none m) [
      | none ↦ m
      | some (k, _) ↦ evict fuel time max (delete k m)
    ]
    | no room ↦ m
  ]
