-- ===== src/HashDetector/Capacity.antt =====
-- The bound on the detector's map, and what its eviction may drop.
use finops_proxy.Prelude.{
  ℕ, ◌+◌, ◌-◌, ◌≤◌, ◌<◌, ◌≡◌, ◌≢◌, none, some, arith, length, ◌⊎◌, inl, inr, Option-cases, min,
  dec_lt,
}
use finops_proxy.GoMap.{IsMap, lookup}
use finops_proxy.GoMap.Laws.{lookup-insert, insert-IsMap, length-insert_old, length-insert-le}
use finops_proxy.GoMap.Evict.{length-evict, evict-IsMap, evict_room, evict-lookup, evict_oldest}
use finops_proxy.Detector.{AgentId, Fingerprint}
use finops_proxy.HashDetector.{
  Key, key_eq, Entry, HashDetector, evict_if_needed, open_window, repeat, check, count_repeat,
}
use finops_proxy.HashDetector.Steps.{key, check_cases, repeat_state}

pub record IsValid (d : HashDetector) : Type 0 where
  pub positive : 0 < d.max
  pub bounded : length d.seen ≤ d.max
  pub distinct : IsMap d.seen

module _ (d : HashDetector) (v : IsValid d) where
  length-evict_if_needed : length (evict_if_needed d) ≡ min (length d.seen) (d.max - 1)
  unfolding evict_if_needed
  length-evict_if_needed =
      length-evict (λ (e : Entry). e.expires) (length d.seen) d.max d.seen v.distinct (omega arith)
        v.positive

  evict_if_needed-IsMap : IsMap (evict_if_needed d)
  unfolding evict_if_needed
  evict_if_needed-IsMap =
      evict-IsMap (λ (e : Entry). e.expires) (length d.seen) d.max d.seen v.distinct

  open_window-IsValid : (k : Key) (now : ℕ) → IsValid (open_window d k now).0
  unfolding open_window
  open_window-IsValid k now = record {
    positive = v.positive;
    bounded = omega (
      arith,
      length-insert-le k
          (record { count = 1; expires = now + d.ttl; blocked_at = 0; last_block = 0 })
          (evict_if_needed d),
      length-evict_if_needed,
      v.bounded,
      v.positive,
    );
    distinct = insert-IsMap k _ (evict_if_needed d) evict_if_needed-IsMap;
  }

  repeat-IsValid :
      (k : Key) (e : Entry) (now : ℕ) → lookup k d.seen ≡ some e → IsValid (repeat d k e now).0
  repeat-IsValid k e now h = rw (repeat_state d k e now) (record {
    positive = v.positive;
    bounded =
        omega (arith, length-insert_old k (count_repeat d.limit e now).0 e d.seen h, v.bounded);
    distinct = insert-IsMap k (count_repeat d.limit e now).0 d.seen v.distinct;
  })

  -- From a valid detector, every check keeps the number of tracked entries at or below `max`,
  -- whatever it is asked, and no key is tracked twice.
  pub check-IsValid :
      (agent : AgentId) (fp : Fingerprint) (now : ℕ) → IsValid (check agent fp now d).0
  check-IsValid agent fp now = elim (check_cases d agent fp now) [
    | inl (opens, _) ↦ rw opens (open_window-IsValid (key agent fp) now)
    | inr (e, found, _, repeats) ↦ rw repeats (repeat-IsValid (key agent fp) e now found)
  ]

  -- Eviction happens only when the map is full.
  evict_if_needed_full :
      (j : Key) (x : Entry)
      → lookup j d.seen ≡ some x
      → lookup j (evict_if_needed d) ≡ none
      → length d.seen ≡ d.max
  unfolding evict_if_needed
  evict_if_needed_full j x h gone = elim (dec_lt (length d.seen) d.max) [
    | yes room ↦ absurd (
        ground
          (arith, evict_room (λ (e : Entry). e.expires) (length d.seen) d.max d.seen room, h, gone))
    | no full ↦ omega (arith, v.bounded)
  ]

  lookup-open_window_ne :
      (k j : Key) (now : ℕ)
      → j ≢ k
      → lookup j (open_window d k now).0.seen ≡ lookup j (evict_if_needed d)
  unfolding open_window
  lookup-open_window_ne k j now ne = rw (lookup-insert k j) (ground arith)

  -- From a valid detector, a check of one key leaves every other key as it was, unless the map is
  -- full and its entry is evicted: then no entry that is left, but the one just opened, had a window
  -- that ended before.
  pub lookup-check_ne :
      (agent : AgentId) (fp : Fingerprint) (now : ℕ) (j : Key) (x : Entry)
      → j ≢ key agent fp
      → lookup j d.seen ≡ some x
      → (lookup j (check agent fp now d).0.seen ≡ some x)
        ⊎ ((lookup j (check agent fp now d).0.seen ≡ none)
            × (length d.seen ≡ d.max)
            × ((i : Key) (y : Entry)
                → i ≢ key agent fp
                → lookup i (check agent fp now d).0.seen ≡ some y
                → x.expires ≤ y.expires))
  unfolding evict_if_needed
  lookup-check_ne agent fp now j x ne h = elim (check_cases d agent fp now) [
    | inl (opens, _) ↦ rw opens (elim (Option-cases (lookup j (evict_if_needed d))) [
      | inl gone ↦ inr (
        rw (lookup-open_window_ne (key agent fp) j now ne) gone,
        evict_if_needed_full j x h gone,
        λ i y other left.
            evict_oldest (λ (e : Entry). e.expires) (length d.seen) d.max d.seen j i x y v.distinct
              h gone (rw (lookup-open_window_ne (key agent fp) i now other) at left),
      )
      | inr (y, left) ↦ inl (
          rw (lookup-open_window_ne (key agent fp) j now ne) (
            cc (
              left,
              h,
              evict-lookup (λ (e : Entry). e.expires) (length d.seen) d.max d.seen j y v.distinct
                  left,
            )))
    ])
    | inr (e, found, _, repeats) ↦
        rw (repeats, repeat_state d (key agent fp) e now)
          (inl (
            rw (lookup-insert (key agent fp) j (count_repeat d.limit e now).0 d.seen)
              (ground arith)))
  ]
