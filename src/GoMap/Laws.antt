-- ===== src/GoMap/Laws.antt =====
-- What a map holds after an update, and how many entries it has.
use finops_proxy.Prelude.{
  ◌+◌, ◌≤◌, ◌≡◌, ◌≢◌, refl, Option, none, some, [], ◌∷◌, ite, arith, length, Eq, same, Bool,
  if◌then◌else◌,
}
use finops_proxy.GoMap.{Map, IsMap, lookup, insert, delete, sweep}

module _ {ℓ} {K V : Type ℓ} ⦃e : Eq K⦄ where
  pub lookup-insert :
      (k j : K) (v : V) (m : Map K V)
      → lookup j (insert k v m) ≡ ite (same k j) (some v) (lookup j m)
  unfolding lookup insert
  lookup-insert k j v [] = refl
  lookup-insert k j v ((i, w) ∷ m) = ground (arith, lookup-insert k j v m)

  pub lookup-insert_same :
      (k j : K) (v : V) (m : Map K V) → k ≡ j → lookup j (insert k v m) ≡ some v
  lookup-insert_same k j v m h = rw (lookup-insert k j v m) (ground arith)

  pub lookup-insert_ne :
      (k j : K) (v : V) (m : Map K V) → k ≢ j → lookup j (insert k v m) ≡ lookup j m
  lookup-insert_ne k j v m ne = rw (lookup-insert k j v m) (ground arith)

  pub lookup-delete :
      (k j : K) (m : Map K V) → lookup j (delete k m) ≡ ite (same k j) none (lookup j m)
  unfolding lookup delete
  lookup-delete k j [] = ground arith
  lookup-delete k j ((i, w) ∷ m) = ground (arith, lookup-delete k j m)

  pub insert-IsMap : (k : K) (v : V) (m : Map K V) → IsMap m → IsMap (insert k v m)
  unfolding insert lookup
  insert-IsMap k v [] h = ground arith
  insert-IsMap k v ((j, w) ∷ m) h = ground (arith, insert-IsMap k v m h.1, lookup-insert k j v m)

  pub delete-IsMap : (k : K) (m : Map K V) → IsMap m → IsMap (delete k m)
  unfolding delete
  delete-IsMap k [] h = h
  delete-IsMap k ((j, w) ∷ m) h = ground (arith, delete-IsMap k m h.1, lookup-delete k j m)

  pub length-insert_new :
      (k : K) (v : V) (m : Map K V) → lookup k m ≡ none → length (insert k v m) ≡ length m + 1
  unfolding insert lookup
  length-insert_new k v [] h = omega arith
  length-insert_new k v ((j, w) ∷ m) h = ground (arith, length-insert_new k v m)

  pub length-insert_old :
      (k : K) (v w : V) (m : Map K V) → lookup k m ≡ some w → length (insert k v m) ≡ length m
  unfolding insert lookup
  length-insert_old k v w [] h = ground arith
  length-insert_old k v w ((j, x) ∷ m) h = ground (arith, length-insert_old k v w m)

  pub length-insert-le : (k : K) (v : V) (m : Map K V) → length (insert k v m) ≤ length m + 1
  unfolding insert
  length-insert-le k v [] = omega arith
  length-insert-le k v ((j, w) ∷ m) = ground (arith, length-insert-le k v m)

  pub delete_absent : (k : K) (m : Map K V) → lookup k m ≡ none → delete k m ≡ m
  unfolding delete lookup
  delete_absent k [] h = refl
  delete_absent k ((j, w) ∷ m) h = ground (arith, delete_absent k m)

  pub length-delete :
      (k : K) (v : V) (m : Map K V)
      → IsMap m
      → lookup k m ≡ some v
      → length (delete k m) + 1 ≡ length m
  unfolding delete lookup
  length-delete k v [] d h = ground arith
  length-delete k v ((j, w) ∷ m) d h = ground (arith, length-delete k v m d.1, delete_absent k m)

  -- A sweep keeps exactly the entries that pass its test.
  abbrev pub kept : (K → V → Bool) → K → Option V → Option V
  kept keep k none = none
  kept keep k (some v) = if keep k v then some v else none

  pub lookup-sweep :
      (keep : K → V → Bool) (k : K) (m : Map K V)
      → IsMap m
      → lookup k (sweep keep m) ≡ kept keep k (lookup k m)
  unfolding lookup sweep
  lookup-sweep keep k [] h = refl
  lookup-sweep keep k ((j, v) ∷ m) h = elim (same j k) [
    | yes p ↦ ground (arith, lookup-sweep keep k m h.1)
    | no p ↦ ground (arith, lookup-sweep keep k m h.1)
  ]

  sweep-none :
      (keep : K → V → Bool) (k : K) (m : Map K V)
      → lookup k m ≡ none
      → lookup k (sweep keep m) ≡ none
  unfolding lookup sweep
  sweep-none keep k [] h = refl
  sweep-none keep k ((j, v) ∷ m) h = ground (arith, sweep-none keep k m)

  pub sweep-IsMap : (keep : K → V → Bool) (m : Map K V) → IsMap m → IsMap (sweep keep m)
  unfolding sweep
  sweep-IsMap keep [] h = h
  sweep-IsMap keep ((j, v) ∷ m) h = ground (arith, sweep-IsMap keep m h.1, sweep-none keep j m)

module _ {ℓ} {K V : Type ℓ} where
  pub length-sweep-le : (keep : K → V → Bool) (m : Map K V) → length (sweep keep m) ≤ length m
  unfolding sweep
  length-sweep-le keep [] = omega arith
  length-sweep-le keep ((j, v) ∷ m) = ground (arith, length-sweep-le keep m)
