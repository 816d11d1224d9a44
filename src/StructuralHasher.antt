-- ===== src/StructuralHasher.antt =====
-- pkg/circuitbreaker/structural_hasher.go: requests that have the same structure once their numbers,
-- UUIDs, times and hex strings are taken out. The clock's reading is an argument; the pool of buffers
-- only saves allocations. `Normalize` has the structural form, `Sketch` the MinHash sketch.
pub mod Normalize
pub mod Sketch
pub mod Same
pub mod Requests
pub mod Capacity
mod Tests
use finops_proxy.Prelude.{
  ℕ, zero, suc, ◌+◌, ◌*◌, ℤ, Option, none, some, Bool, true, false, ◌||◌, List, [], ◌∷◌, ◌++◌,
  length, last, ltb, leb, if◌then◌else◌, Bytes, bytes_eq, positive_or, ◌-◌,
}
use finops_proxy.Float.{Float64}
use finops_proxy.GoMap.{Map, lookup, insert, delete, evict}
use finops_proxy.Detector.{
  AgentId, CheckResult, second, proceed, reason_structural, is_zero, ceil_seconds,
}
use finops_proxy.StructuralHasher.Normalize.{normalize_payload}
use finops_proxy.StructuralHasher.Sketch.{Signature, min_hash, agreeing, shingle_size}

pub record StructuralConfig (F : Type 0) : Type 0 where
  pub threshold : F
  pub window : ℕ
  pub limit : ℕ
  pub ttl : ℕ
  pub max_entries : ℕ

pub record StructuralState : Type 0 where
  pub sigs : List Signature
  pub expires : ℕ
  pub blocked_at : ℕ

pub record StructuralHasher (F : Type 0) : Type 0 where
  pub cfg : StructuralConfig F
  pub seen : Map AgentId StructuralState

unfoldable pub append_window : List Signature → Signature → ℕ → List Signature
append_window sigs sig cap =
    let all = sigs ++ (sig ∷ []) in if ltb cap (length all) then last cap all else all

abbrev pub fresh_state : ℕ → StructuralState
fresh_state expires = record { sigs = []; expires = expires; blocked_at = 0 }

unfoldable pub evict_if_needed : {F : Type 0} → StructuralHasher F → Map AgentId StructuralState
unfolding evict
evict_if_needed s = evict (length s.seen) (λ st. st.expires) s.cfg.max_entries s.seen

-- the agent's state, or a fresh one after the eviction; and the map beside it
unfoldable pub state :
    {F : Type 0} → AgentId → ℕ → StructuralHasher F → Map AgentId StructuralState × StructuralState
unfolding lookup evict_if_needed
state agent now s = elim (lookup agent s.seen) [
  | none ↦ (evict_if_needed s, fresh_state (now + s.cfg.ttl))
  | some st ↦ (s.seen, st)
]

-- `if !now.Before(st.expires) { … }`
unfoldable pub renew : ℕ → ℕ → StructuralState → StructuralState
renew ttl now st = if ltb now st.expires then st else fresh_state (now + ttl)

module _ {F : Type 0} ⦃fl : Float64 F⦄ where
  unfoldable pub new_structural_hasher : F → ℤ → ℤ → ℤ → ℤ → StructuralHasher F
  new_structural_hasher threshold window limit ttl max_entries = record {
    cfg = record {
      threshold =
          if fl.less_eq threshold (fl.literal 0) || fl.less (fl.literal 1) threshold
          then fl.ratio 85 100
          else threshold;
      window = positive_or 8 window;
      limit = positive_or 3 limit;
      ttl = positive_or (600 * second) ttl;
      max_entries = positive_or 10_000 max_entries;
    };
    seen = [];
  }

  unfoldable pub jaccard : Signature → Signature → F
  unfolding agreeing
  jaccard a b = fl.quotient (fl.of_int64 (agreeing a b)) (fl.literal 64)

  -- the retained signatures that are similar
  unfoldable pub matches : F → Signature → List Signature → ℕ
  unfolding jaccard
  matches threshold sig [] = 0
  matches threshold sig (e ∷ es) =
      let rest = matches threshold sig es in
      if fl.less_eq threshold (jaccard sig e) then rest + 1 else rest

  -- the part of `CheckPayload` that works on the agent's state
  unfoldable pub observe :
      StructuralConfig F → Signature → ℕ → StructuralState → StructuralState × CheckResult
  unfolding renew matches append_window
  observe cfg sig now st0 =
      let st = renew cfg.ttl now st0 in
      let sigs = append_window st.sigs sig cfg.window in
      if leb cfg.limit (matches cfg.threshold sig st.sigs)
      then (
        record {
          sigs = sigs;
          expires = st.expires;
          blocked_at = if is_zero st.blocked_at then now else st.blocked_at;
        },
        record {
          block = true;
          reason = reason_structural;
          retry_after = ceil_seconds (st.expires - now);
          first_block = is_zero st.blocked_at;
        },
      )
      else (record st { sigs = sigs }, proceed)

  unfoldable pub check_payload :
      AgentId → Bytes → ℕ → StructuralHasher F → StructuralHasher F × CheckResult
  unfolding normalize_payload min_hash state observe insert
  check_payload agent body now s =
      let form = normalize_payload body in
      let (seen, st) = state agent now s in
      let (st', result) = observe s.cfg (min_hash form) now st in
      if ltb (length form) shingle_size
      then (s, proceed)
      else (record s { seen = insert agent st' seen }, result)

unfoldable pub reset : {F : Type 0} → AgentId → StructuralHasher F → StructuralHasher F × ℕ
unfolding lookup delete
reset agent s = elim (lookup agent s.seen) [
  | none ↦ (s, 0)
  | some _ ↦ (record s { seen = delete agent s.seen }, 1)
]
