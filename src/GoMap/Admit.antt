-- ===== src/GoMap/Admit.antt =====
-- The maps that make room before they take a new key: what stands beside the key that is written.
use finops_proxy.Prelude.{
  ℕ, ◌≤◌, ◌<◌, ◌≡◌, ◌≢◌, ◌∙◌, sym, ap, Option, none, some, arith, length, inl, inr, Option-cases,
  dec_lt, Eq,
}
use finops_proxy.GoMap.{Map, IsMap, lookup, insert, evict}
use finops_proxy.GoMap.Laws.{lookup-insert, insert-IsMap, length-insert_old, length-insert-le}
use finops_proxy.GoMap.Evict.{length-evict, evict-IsMap, evict_room, evict-lookup, evict_oldest}

module _ {ℓ} {K V : Type ℓ} ⦃e : Eq K⦄ (time : V → ℕ) (max : ℕ) where
  unfoldable pub make_room : Option V → Map K V → Map K V
  make_room none m = evict (length m) time max m
  make_room (some _) m = m

  -- the map after an eviction, if the key is new
  unfoldable pub admit : K → Map K V → Map K V
  admit k m = make_room (lookup k m) m

  admit_new : (k : K) (m : Map K V) → lookup k m ≡ none → admit k m ≡ evict (length m) time max m
  unfolding admit make_room
  admit_new k m absent = ap (λ (o : Option V). make_room o m) absent

  admit_old : (k : K) (w : V) (m : Map K V) → lookup k m ≡ some w → admit k m ≡ m
  unfolding admit make_room
  admit_old k w m found = ap (λ (o : Option V). make_room o m) found

  -- A valid map of bounded size.
  pub record IsBounded (m : Map K V) : Type ℓ where
    pub positive : 0 < max
    pub bounded : length m ≤ max
    pub distinct : IsMap m

  module _ (k : K) (v : V) (m : Map K V) (h : IsBounded m) where
    pub admit-IsBounded : IsBounded (insert k v (admit k m))
    admit-IsBounded = elim (Option-cases (lookup k m)) [
      | inl absent ↦ rw (admit_new k m absent) (record {
        positive = h.positive;
        bounded = omega (
          arith,
          length-insert-le k v (evict (length m) time max m),
          length-evict time (length m) max m h.distinct (omega arith) h.positive,
          h.bounded,
          h.positive,
        );
        distinct =
            insert-IsMap k v (evict (length m) time max m)
              (evict-IsMap time (length m) max m h.distinct);
      })
      | inr (w, found) ↦ rw (admit_old k w m found) (record {
        positive = h.positive;
        bounded = omega (arith, length-insert_old k v w m found, h.bounded);
        distinct = insert-IsMap k v m h.distinct;
      })
    ]

    -- The eviction happens only if the map is full.
    evict_full :
        (j : K) (x : V)
        → lookup j m ≡ some x
        → lookup j (evict (length m) time max m) ≡ none
        → length m ≡ max
    evict_full j x found gone = elim (dec_lt (length m) max) [
      | yes room ↦ absurd (ground (arith, evict_room time (length m) max m room, found, gone))
      | no full ↦ omega (arith, h.bounded)
    ]

    lookup-write_ne : (j : K) (m' : Map K V) → j ≢ k → lookup j (insert k v m') ≡ lookup j m'
    lookup-write_ne j m' ne = rw (lookup-insert k j) (ground arith)

    -- Another key keeps its value, or the map was full and the key is the oldest.
    pub data Spared (j : K) (x : V) (m' : Map K V) : Type ℓ where
      kept : lookup j m' ≡ some x → Spared j x m'
      evicted :
          lookup j m' ≡ none
          → length m ≡ max
          → ((i : K) (y : V) → i ≢ k → lookup i m' ≡ some y → time x ≤ time y)
          → Spared j x m'

    pub admit-Spared :
        (j : K) (x : V) → j ≢ k → lookup j m ≡ some x → Spared j x (insert k v (admit k m))
    admit-Spared j x ne found = elim (Option-cases (lookup k m)) [
      | inr (w, here) ↦ rw (admit_old k w m here) (kept (lookup-write_ne j m ne ∙ found))
      | inl absent ↦
          let room = evict (length m) time max m in
          rw (admit_new k m absent) (elim (Option-cases (lookup j room)) [
            | inl gone ↦
                evicted (lookup-write_ne j room ne ∙ gone) (evict_full j x found gone)
                  (λ i y other left.
                    evict_oldest time (length m) max m j i x y h.distinct found gone
                      (sym (lookup-write_ne i room other) ∙ left))
            | inr (y, left) ↦ kept (
                lookup-write_ne j room ne
                ∙ cc (left, found, evict-lookup time (length m) max m j y h.distinct left))
          ])
    ]
