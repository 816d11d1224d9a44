-- ===== src/StructuralHasher/Capacity.antt =====
-- The bounds on the memory of structural_hasher.go.
use finops_proxy.Prelude.{
  ℕ, ◌+◌, ◌≡◌, true, false, Bytes, arith, length, Option-cases, Bool-cases, inl, inr, bytes_eq, ltb,
  equals, none, if◌then◌else◌,
}
use finops_proxy.Float.{Float64}
use finops_proxy.GoMap.{IsMap, lookup, insert}
use finops_proxy.GoMap.Laws.{length-delete, lookup-delete}
use finops_proxy.GoMap.Admit.{admit, make_room, IsBounded, admit-IsBounded}
use finops_proxy.Detector.{AgentId, proceed}
use finops_proxy.StructuralHasher.{
  StructuralState, StructuralHasher, state, observe, check_payload, evict_if_needed, reset,
}
use finops_proxy.StructuralHasher.Normalize.{normalize_payload}
use finops_proxy.StructuralHasher.Sketch.{min_hash, shingle_size}

abbrev expiry : StructuralState → ℕ
expiry st = st.expires

abbrev pub IsValid : {F : Type 0} → StructuralHasher F → Type 0
IsValid s = IsBounded expiry s.cfg.max_entries s.seen

module _ {F : Type 0} (agent : AgentId) (now : ℕ) (s : StructuralHasher F) where
  state_admits : (state agent now s).0 ≡ admit expiry s.cfg.max_entries agent s.seen
  unfolding state admit make_room evict_if_needed
  state_admits = elim (Option-cases (lookup agent s.seen)) [
    | inl absent ↦ rw (state, absent)
    | inr (st, found) ↦ rw (state, found)
  ]

module _ {F : Type 0} ⦃fl : Float64 F⦄ (agent : AgentId) (body : Bytes) (now : ℕ)
    (s : StructuralHasher F) where
  pub passes_short :
      ltb (length (normalize_payload body)) shingle_size ≡ true
      → check_payload agent body now s ≡ (s, proceed)
  unfolding check_payload
  passes_short h = rw h

  pub records_form :
      ltb (length (normalize_payload body)) shingle_size ≡ false
      → check_payload agent body now s ≡ (
        record s {
          seen =
              insert agent
                (observe s.cfg (min_hash (normalize_payload body)) now (state agent now s).1).0
                (admit expiry s.cfg.max_entries agent s.seen);
        },
        (observe s.cfg (min_hash (normalize_payload body)) now (state agent now s).1).1,
      )
  unfolding check_payload
  records_form h = rw (h, ← state_admits agent now s)

  -- From a valid hasher, every request keeps the number of tracked agents at or below
  -- `max_entries`, and no agent is tracked twice.
  pub check_payload_bounded : IsValid s → IsValid (check_payload agent body now s).0
  check_payload_bounded h = elim (Bool-cases (ltb (length (normalize_payload body)) shingle_size)) [
    | inl short ↦ rw (passes_short short) h
    | inr long ↦ rw (records_form long) (
        admit-IsBounded expiry s.cfg.max_entries agent
          (observe s.cfg (min_hash (normalize_payload body)) now (state agent now s).1).0 s.seen h)
  ]

-- In a hasher that tracks no agent twice, a reset of an agent removes that agent's state and no
-- other, and counts what it removed.
pub lookup-reset_form :
    {F : Type 0} (agent j : AgentId) (s : StructuralHasher F)
    → IsMap s.seen
    → (lookup j (reset agent s).0.seen ≡ (if equals j agent then none else lookup j s.seen))
      × ((reset agent s).1 + length (reset agent s).0.seen ≡ length s.seen)
unfolding reset
lookup-reset_form agent j s v = elim (Option-cases (lookup agent s.seen)) [
  | inl absent ↦ rw (reset, absent) (ground (arith, absent), omega arith)
  | inr (st, found) ↦
      rw (reset, found)
        (
          ground (arith, lookup-delete agent j s.seen),
          omega (arith, length-delete agent st s.seen v found),
        )
]
