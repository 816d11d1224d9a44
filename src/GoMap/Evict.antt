-- ===== src/GoMap/Evict.antt =====
-- The eviction loop: it drops the entries with the smallest times, and no more than it must.
use finops_proxy.Prelude.{
  ℕ, zero, suc, ◌-◌, ◌≤◌, ◌<◌, ◌≡◌, refl, none, some, [], ◌∷◌, arith, length, Eq, same, dec_le,
  dec_lt, min,
}
use finops_proxy.GoMap.{Map, IsMap, lookup, delete, oldest_from, evict}
use finops_proxy.GoMap.Laws.{lookup-delete, delete-IsMap, length-delete}

module _ {ℓ} {K V : Type ℓ} (time : V → ℕ) where
  -- The best entry so far only gets better.
  oldest_from-some :
      (b : K) (t : ℕ) (m : Map K V)
      → (k : K) × (u : ℕ) × (oldest_from time (some (b, t)) m ≡ some (k, u)) × (u ≤ t)
  unfolding oldest_from
  oldest_from-some b t [] = (b, t, refl, omega arith)
  oldest_from-some b t ((j, v) ∷ m) = elim (dec_lt (time v) t) [
    | yes p ↦
        let (k, u, found, le) = oldest_from-some j (time v) m in (k, u, ground arith, omega arith)
    | no p ↦ let (k, u, found, le) = oldest_from-some b t m in (k, u, ground arith, le)
  ]

  pub oldest_exists :
      (j : K) (v : V) (m : Map K V)
      → (k : K) × (u : ℕ) × (oldest_from time none ((j, v) ∷ m) ≡ some (k, u)) × (u ≤ time v)
  unfolding oldest_from
  oldest_exists j v m = oldest_from-some j (time v) m

module _ {ℓ} {K V : Type ℓ} ⦃e : Eq K⦄ (time : V → ℕ) where
  -- What the search returns is an entry of the map.
  oldest_from-lookup :
      (b : K) (v : V) (m : Map K V) (k : K) (u : ℕ)
      → IsMap ((b, v) ∷ m)
      → oldest_from time (some (b, time v)) m ≡ some (k, u)
      → (w : V) × (lookup k ((b, v) ∷ m) ≡ some w) × (time w ≡ u)
  unfolding oldest_from lookup
  oldest_from-lookup b v [] k u d h = (v, ground arith, ground arith)
  oldest_from-lookup b v ((j, x) ∷ m) k u d h = elim (dec_lt (time x) (time v)) [
    | yes p ↦
        let (w, found, at) = oldest_from-lookup j x m k u d.1 (ground arith) in
        (w, ground arith, at)
    | no p ↦
        let (w, found, at) = oldest_from-lookup b v m k u (ground arith) (ground arith) in
        (w, ground arith, at)
  ]

  -- Nothing in the map is older.
  oldest_from-least :
      (b : K) (t : ℕ) (m : Map K V) (k j : K) (u : ℕ) (w : V)
      → oldest_from time (some (b, t)) m ≡ some (k, u)
      → lookup j m ≡ some w
      → u ≤ time w
  unfolding oldest_from lookup
  oldest_from-least b t [] k j u w h l = ground arith
  oldest_from-least b t ((i, v) ∷ m) k j u w h l = ground (
    arith,
    oldest_from-least i (time v) m k j u w,
    oldest_from-least b t m k j u w,
    oldest_from-some time i (time v) m,
    oldest_from-some time b t m,
  )

  -- The search of a map with entries finds an entry that none is older than.
  pub victim :
      (i : K) (v : V) (m : Map K V)
      → IsMap ((i, v) ∷ m)
      → (k : K) × (w : V) × (oldest_from time none ((i, v) ∷ m) ≡ some (k, time w))
        × (lookup k ((i, v) ∷ m) ≡ some w)
        × ((j : K) (x : V) → lookup j ((i, v) ∷ m) ≡ some x → time w ≤ time x)
  unfolding lookup oldest_from
  victim i v m d =
      let (k, u, best, le) = oldest_exists time i v m in
      let (w, found, at) = oldest_from-lookup i v m k u d best in
      (
        k,
        w,
        ground arith,
        found,
        λ j x h. ground (arith, oldest_from-least i (time v) m k j u x best),
      )

  pub evict_room : (fuel max : ℕ) (m : Map K V) → length m < max → evict fuel time max m ≡ m
  unfolding evict
  evict_room zero max m h = refl
  evict_room (suc fuel) max m h = ground arith

  evict_full :
      (fuel max : ℕ) (m : Map K V) {k : K} {u : ℕ}
      → max ≤ length m
      → oldest_from time none m ≡ some (k, u)
      → evict (suc fuel) time max m ≡ evict fuel time max (delete k m)
  unfolding evict
  evict_full fuel max m h b = ground arith

  -- With fuel for its rounds the loop leaves room for one more entry, and deletes no more than
  -- that needs.
  pub length-evict :
      (fuel max : ℕ) (m : Map K V)
      → IsMap m
      → length m ≤ fuel
      → 0 < max
      → length (evict fuel time max m) ≡ min (length m) (max - 1)
  length-evict fuel max [] d f p = rw (evict_room fuel max [], p) (omega arith)
  length-evict zero max (x ∷ m) d f p = absurd (omega arith)
  length-evict (suc fuel) max ((i, v) ∷ m) d f p = elim (dec_le max (suc (length m))) [
    | no room ↦ rw (evict_room (suc fuel) max ((i, v) ∷ m) (omega arith)) (omega arith)
    | yes full ↦
        let (k, w, best, found, least) = victim i v m d in
        let shorter = length-delete k w ((i, v) ∷ m) d found in
        rw (evict_full fuel max ((i, v) ∷ m) full best) (
          omega (
            arith,
            length-evict fuel max (delete k ((i, v) ∷ m)) (delete-IsMap k ((i, v) ∷ m) d)
                (omega arith) p,
          ))
  ]

  evict_nil : (fuel max : ℕ) → evict {K = K} fuel time max [] ≡ []
  unfolding evict oldest_from
  evict_nil zero max = refl
  evict_nil (suc fuel) max = ground arith

  -- What the loop may do: delete, again and again, an entry that none is older than.
  pub data Evicts : Map K V → Map K V → Type ℓ where
    done : (m : Map K V) → Evicts m m
    drop :
        {m m' : Map K V} (k : K) (w : V)
        → lookup k m ≡ some w
        → ((j : K) (x : V) → lookup j m ≡ some x → time w ≤ time x)
        → Evicts (delete k m) m'
        → Evicts m m'

  pub evict-Evicts : (fuel max : ℕ) (m : Map K V) → IsMap m → Evicts m (evict fuel time max m)
  unfolding evict
  evict-Evicts zero max m d = done m
  evict-Evicts (suc fuel) max [] d = rw (evict_nil (suc fuel) max) (done [])
  evict-Evicts (suc fuel) max ((i, v) ∷ m) d = elim (dec_le max (suc (length m))) [
    | no room ↦ rw (evict_room (suc fuel) max ((i, v) ∷ m) (omega arith)) (done ((i, v) ∷ m))
    | yes full ↦
        let (k, w, best, found, least) = victim i v m d in
        rw (evict_full fuel max ((i, v) ∷ m) full best) (
          drop k w found least
            (evict-Evicts fuel max (delete k ((i, v) ∷ m)) (delete-IsMap k ((i, v) ∷ m) d)))
  ]

  pub Evicts-IsMap : {m m' : Map K V} → Evicts m m' → IsMap m → IsMap m'
  Evicts-IsMap (done m) d = d
  Evicts-IsMap {m} (drop k w found least r) d = Evicts-IsMap r (delete-IsMap k m d)

  -- What is left has not changed.
  pub Evicts-lookup :
      {m m' : Map K V} (j : K) (x : V) → Evicts m m' → lookup j m' ≡ some x → lookup j m ≡ some x
  Evicts-lookup j x (done m) h = h
  Evicts-lookup {m} j x (drop k w found least r) h =
      ground (arith, Evicts-lookup j x r h, lookup-delete k j m)

  -- What was deleted is no younger than what is left.
  pub Evicts-oldest :
      {m m' : Map K V} (i j : K) (v w : V)
      → Evicts m m'
      → lookup i m ≡ some v
      → lookup i m' ≡ none
      → lookup j m' ≡ some w
      → time v ≤ time w
  Evicts-oldest i j v w (done m) a b c = absurd (ground arith)
  Evicts-oldest {m} i j v w (drop k x found least r) a b c = elim (same k i) [
    | yes p ↦
        let kept = Evicts-lookup j w (drop k x found least r) c in ground (arith, least j w kept, p)
    | no p ↦ Evicts-oldest i j v w r (rw (lookup-delete k i m) (ground arith)) b c
  ]

  pub evict-IsMap : (fuel max : ℕ) (m : Map K V) → IsMap m → IsMap (evict fuel time max m)
  evict-IsMap fuel max m d = Evicts-IsMap (evict-Evicts fuel max m d) d

  pub evict-lookup :
      (fuel max : ℕ) (m : Map K V) (j : K) (x : V)
      → IsMap m
      → lookup j (evict fuel time max m) ≡ some x
      → lookup j m ≡ some x
  evict-lookup fuel max m j x d h = Evicts-lookup j x (evict-Evicts fuel max m d) h

  pub evict_oldest :
      (fuel max : ℕ) (m : Map K V) (i j : K) (v w : V)
      → IsMap m
      → lookup i m ≡ some v
      → lookup i (evict fuel time max m) ≡ none
      → lookup j (evict fuel time max m) ≡ some w
      → time v ≤ time w
  evict_oldest fuel max m i j v w d = Evicts-oldest i j v w (evict-Evicts fuel max m d)
