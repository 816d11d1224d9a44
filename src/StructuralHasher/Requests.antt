-- ===== src/StructuralHasher/Requests.antt =====
-- When `CheckPayload` of structural_hasher.go blocks an agent's requests of one structure.
use finops_proxy.Prelude.{
  ℕ, ◌+◌, ◌≤◌, ◌<◌, ◌≡◌, refl, ◌∙◌, ap, true, false, none, some, List, [], ◌∷◌, map, arith, length,
  length-map, ltb, All, Bytes, bytes_eq, le→ltb_false,
}
use finops_proxy.Float.{Float64}
use finops_proxy.GoMap.{lookup}
use finops_proxy.GoMap.Laws.{lookup-insert_same}
use finops_proxy.Detector.{AgentId}
use finops_proxy.StructuralHasher.{
  StructuralState, StructuralHasher, fresh_state, state, observe, check_payload,
}
use finops_proxy.StructuralHasher.Normalize.{normalize_payload}
use finops_proxy.StructuralHasher.Sketch.{min_hash, shingle_size}
use finops_proxy.StructuralHasher.Capacity.{records_form}
use finops_proxy.StructuralHasher.Same.{observe_all, observe_all_blocked}

module _ {F : Type 0} ⦃fl : Float64 F⦄ (agent : AgentId) where
  -- the hasher after requests of the agent, with their bodies and times
  unfoldable pub check_all : List (Bytes × ℕ) → StructuralHasher F → StructuralHasher F
  check_all [] s = s
  check_all ((body, now) ∷ requests) s = check_all requests (check_payload agent body now s).0

  state_fresh :
      (now : ℕ) (s : StructuralHasher F)
      → lookup agent s.seen ≡ none
      → (state agent now s).1 ≡ fresh_state (now + s.cfg.ttl)
  unfolding state
  state_fresh now s absent = rw (state, absent) refl

  state_found :
      (now : ℕ) (st : StructuralState) (s : StructuralHasher F)
      → lookup agent s.seen ≡ some st
      → (state agent now s).1 ≡ st
  unfolding state
  state_found now st s found = rw (state, found) refl

  module _ (form : Bytes) (long : shingle_size ≤ length form) where
    -- a request of the form is observed, and the agent's state and the configuration are kept
    check_payload-observe :
        (body : Bytes) (now : ℕ) (s : StructuralHasher F)
        → normalize_payload body ≡ form
        → ((check_payload agent body now s).1
            ≡ (observe s.cfg (min_hash form) now (state agent now s).1).1)
          × (lookup agent (check_payload agent body now s).0.seen
              ≡ some (observe s.cfg (min_hash form) now (state agent now s).1).0)
          × ((check_payload agent body now s).0.cfg ≡ s.cfg)
    check_payload-observe body now s e =
        let sig = min_hash (normalize_payload body) in
        let enough : ltb (length (normalize_payload body)) shingle_size ≡ false =
          ap (λ (b : Bytes). ltb (length b) shingle_size) e
          ∙ le→ltb_false shingle_size (length form) long in
        rw (records_form agent body now s enough, ← e)
          (refl, lookup-insert_same agent agent _ _ refl, refl)

    -- after the requests, the agent's state is what the observations of the signature make of it
    check_all-observe_all :
        (requests : List (Bytes × ℕ)) (st : StructuralState) (s : StructuralHasher F)
        → All (λ r. normalize_payload r.0 ≡ form) requests
        → lookup agent s.seen ≡ some st
        → (lookup agent (check_all requests s).seen
            ≡ some (observe_all s.cfg (min_hash form) (map (λ r. r.1) requests) st))
          × ((check_all requests s).cfg ≡ s.cfg)
    unfolding check_all observe_all
    check_all-observe_all [] st s h found = (found, refl)
    check_all-observe_all ((body, now) ∷ requests) st s (e, h) found =
        let (_, kept, same) = check_payload-observe body now s e in
        let next = (observe s.cfg (min_hash form) now st).0 in
        let kept' =
          kept
          ∙ ap (λ x. some (observe s.cfg (min_hash form) now x).0) (state_found now st s found) in
        let (later, config) =
          check_all-observe_all requests next (check_payload agent body now s).0 h kept' in
        (
          later
              ∙ ap (λ c. some (observe_all c (min_hash form) (map (λ r. r.1) requests) next)) same,
          config ∙ same,
        )

    -- Requests of one agent that is not tracked yet, all of one structural form of at least
    -- `shingle_size` bytes and within the window that the first of them opens: if 64 / 64 is at least
    -- the threshold and the limit is no more than the window, any of them after the first `limit` is
    -- blocked.
    pub same_form_blocked :
        (first body : Bytes) (start now : ℕ) (requests : List (Bytes × ℕ)) (s : StructuralHasher F)
        → fl.less_eq s.cfg.threshold (fl.quotient (fl.of_int64 64) (fl.literal 64)) ≡ true
        → s.cfg.limit ≤ s.cfg.window
        → lookup agent s.seen ≡ none
        → All (λ r. normalize_payload r.0 ≡ form) ((first, start) ∷ requests)
        → normalize_payload body ≡ form
        → All (λ t. t < start + s.cfg.ttl) (map (λ r. r.1) ((first, start) ∷ requests))
        → now < start + s.cfg.ttl
        → s.cfg.limit ≤ length ((first, start) ∷ requests)
        → (check_payload agent body now (check_all ((first, start) ∷ requests) s)).1.block ≡ true
    unfolding check_all observe_all
    same_form_blocked first body start now requests s enough fits absent (e, same) e' live last
          more =
        let sig = min_hash form in
        let fresh = fresh_state (start + s.cfg.ttl) in
        let (_, kept, config) = check_payload-observe first start s e in
        let s1 = (check_payload agent first start s).0 in
        let st1 = (observe s.cfg sig start fresh).0 in
        let kept' =
          kept ∙ ap (λ x. some (observe s.cfg sig start x).0) (state_fresh start s absent) in
        let (found, config') = check_all-observe_all requests st1 s1 same kept' in
        let s2 = check_all requests s1 in
        let times = map (λ r. r.1) requests in
        let (verdict, _, _) = check_payload-observe body now s2 e' in
        ap (λ r. r.block)
          (verdict
            ∙ ap (λ x. (observe s2.cfg sig now x).1)
                (state_found now (observe_all s1.cfg sig times st1) s2 found)
            ∙ ap (λ c. (observe c sig now (observe_all s1.cfg sig times st1)).1) (config' ∙ config)
            ∙ ap (λ c. (observe s.cfg sig now (observe_all c sig times st1)).1) config)
        ∙ observe_all_blocked s.cfg form (start + s.cfg.ttl) (start ∷ times) now enough fits live
            last (omega (arith, more, length-map (λ (r : Bytes × ℕ). r.1) requests))
