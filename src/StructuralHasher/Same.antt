-- ===== src/StructuralHasher/Same.antt =====
-- When structural_hasher.go blocks: requests of one structure, and a limit beyond the window.
use finops_proxy.Prelude.{
  ℕ, zero, suc, ◌+◌, ◌-◌, ◌≤◌, ◌<◌, ◌≡◌, refl, ◌∙◌, sym, ap, true, false, List, [], ◌∷◌, ◌++◌,
  arith, length, drop, ltb, leb, if◌then◌else◌, Bool-cases, inl, inr, All, length-append,
  length-last, min, le→leb, lt→ltb, gt→leb, Bytes, subst,
}
use finops_proxy.Float.{Float64}
use finops_proxy.StructuralHasher.{
  StructuralConfig, StructuralState, append_window, fresh_state, renew, jaccard, matches, observe,
}
use finops_proxy.StructuralHasher.Sketch.{Signature, min_hash, agreeing-min_hash}

length-append_window :
    (sigs : List Signature) (sig : Signature) (cap : ℕ)
    → length (append_window sigs sig cap) ≡ min (length sigs + 1) cap
unfolding append_window
length-append_window sigs sig cap =
    let all = sigs ++ (sig ∷ []) in
    let len : length all ≡ length sigs + 1 = omega (arith, length-append sigs (sig ∷ [])) in
    elim (Bool-cases (ltb cap (length all))) [
      | inl long ↦ rw long (ground (arith, length-last cap all, len))
      | inr fits ↦ rw fits (ground (arith, len))
    ]

module _ {F : Type 0} ⦃fl : Float64 F⦄ where
  matches-le :
      (threshold : F) (sig : Signature) (es : List Signature) → matches threshold sig es ≤ length es
  unfolding matches
  matches-le threshold sig [] = omega arith
  matches-le threshold sig (e ∷ es) = ground (arith, matches-le threshold sig es)

  module _ (cfg : StructuralConfig F) where
    observe_cases :
        (sig : Signature) (now : ℕ) (st : StructuralState)
        → ((observe cfg sig now st).0.sigs
            ≡ append_window (renew cfg.ttl now st).sigs sig cfg.window)
          × ((observe cfg sig now st).0.expires ≡ (renew cfg.ttl now st).expires)
          × ((observe cfg sig now st).1.block
              ≡ leb cfg.limit (matches cfg.threshold sig (renew cfg.ttl now st).sigs))
    unfolding observe
    observe_cases sig now st =
        elim (Bool-cases (leb cfg.limit (matches cfg.threshold sig (renew cfg.ttl now st).sigs))) [
          | inl reached ↦ rw reached (refl, refl, refl)
          | inr free ↦ rw free (refl, refl, refl)
        ]

    length-renew-le :
        (now : ℕ) (st : StructuralState)
        → length st.sigs ≤ cfg.window
        → length (renew cfg.ttl now st).sigs ≤ cfg.window
    unfolding renew
    length-renew-le now st h = elim (Bool-cases (ltb now st.expires)) [
      | inl live ↦ rw live h
      | inr over ↦ rw over (omega arith)
    ]

    -- how many of an agent's requests, with their signatures and times, are blocked
    unfoldable pub blocks : List (Signature × ℕ) → StructuralState → ℕ
    blocks [] st = 0
    blocks ((sig, now) ∷ rest) st =
        let (st', result) = observe cfg sig now st in
        (if result.block then 1 else 0) + blocks rest st'

    -- If the limit is beyond the window, no request of an agent is ever blocked, whatever the
    -- requests are and from any state with at most `window` signatures.
    pub blocks_none :
        (requests : List (Signature × ℕ)) (st : StructuralState)
        → cfg.window < cfg.limit
        → length st.sigs ≤ cfg.window
        → blocks requests st ≡ 0
    unfolding blocks
    blocks_none [] st beyond h = refl
    blocks_none ((sig, now) ∷ rest) st beyond h =
        let (sigs, _, block) = observe_cases sig now st in
        let kept = (renew cfg.ttl now st).sigs in
        let short = length-renew-le now st h in
        let passes : (observe cfg sig now st).1.block ≡ false =
          block
          ∙ gt→leb cfg.limit (matches cfg.threshold sig kept)
              (omega (arith, matches-le cfg.threshold sig kept)) in
        let shorter : length (observe cfg sig now st).0.sigs ≤ cfg.window = omega (
          arith,
          ap (λ (y : List Signature). length y) sigs,
          length-append_window kept sig cfg.window,
        ) in
        let later = blocks_none rest (observe cfg sig now st).0 beyond shorter in
        rw passes (omega (arith, later))

module _ {F : Type 0} ⦃fl : Float64 F⦄ (cfg : StructuralConfig F) (sig : Signature) where
  -- the agent's state after requests with the same signature at the times
  unfoldable pub observe_all : List ℕ → StructuralState → StructuralState
  observe_all [] st = st
  observe_all (now ∷ times) st = observe_all times (observe cfg sig now st).0

  -- After `n` requests of one structure in one window.
  record Repeated (expires n : ℕ) (st : StructuralState) : Type 0 where
    ends : st.expires ≡ expires
    count : length st.sigs ≡ min n cfg.window
    same : All (λ e. e ≡ sig) st.sigs

  All-drop : (n : ℕ) (es : List Signature) → All (λ e. e ≡ sig) es → All (λ e. e ≡ sig) (drop n es)
  All-drop zero es h = h
  All-drop (suc n) [] h = h
  All-drop (suc n) (e ∷ es) h = All-drop n es h.1

  All-snoc : (es : List Signature) → All (λ e. e ≡ sig) es → All (λ e. e ≡ sig) (es ++ (sig ∷ []))
  All-snoc [] h = (refl, tt)
  All-snoc (e ∷ es) h = (h.0, All-snoc es h.1)

  append_window-All :
      (es : List Signature) (cap : ℕ)
      → All (λ e. e ≡ sig) es
      → All (λ e. e ≡ sig) (append_window es sig cap)
  unfolding append_window
  append_window-All es cap h =
      let all = es ++ (sig ∷ []) in
      elim (Bool-cases (ltb cap (length all))) [
        | inl long ↦ rw long (All-drop (length all - cap) all (All-snoc es h))
        | inr fits ↦ rw fits (All-snoc es h)
      ]

  renew_live : (now : ℕ) (st : StructuralState) → now < st.expires → renew cfg.ttl now st ≡ st
  unfolding renew
  renew_live now st h = rw (lt→ltb now st.expires h)

  observe-Repeated :
      (expires n now : ℕ) (st : StructuralState)
      → now < expires
      → Repeated expires n st
      → Repeated expires (n + 1) (observe cfg sig now st).0
  observe-Repeated expires n now st live h =
      let (sigs, ends, _) = observe_cases cfg sig now st in
      let kept = renew_live now st (omega (arith, h.ends)) in
      record {
        ends = ends ∙ ap (λ (s : StructuralState). s.expires) kept ∙ h.ends;
        count = omega (
          arith,
          h.count,
          ap (λ (y : List Signature). length y) sigs,
          ap (λ (s : StructuralState). length s.sigs) kept,
          length-append_window (renew cfg.ttl now st).sigs sig cfg.window,
        );
        same =
            subst (All (λ e. e ≡ sig))
              (sym (sigs ∙ ap (λ (s : StructuralState). append_window s.sigs sig cfg.window) kept))
              (append_window-All st.sigs cfg.window h.same);
      }

  observe_all-Repeated :
      (times : List ℕ) (expires n : ℕ) (st : StructuralState)
      → All (λ t. t < expires) times
      → Repeated expires n st
      → Repeated expires (n + length times) (observe_all times st)
  unfolding observe_all
  observe_all-Repeated [] expires n st live h = let e : n ≡ n + 0 = omega arith in rw (← e) h
  observe_all-Repeated (now ∷ times) expires n st live h =
      let e : n + 1 + length times ≡ n + suc (length times) = omega arith in
      subst (λ (k : ℕ). Repeated expires k (observe_all times (observe cfg sig now st).0)) e
        (observe_all-Repeated times expires (n + 1) (observe cfg sig now st).0 live.1
          (observe-Repeated expires n now st live.0 h))

  -- Equal signatures all match, if the similarity of a signature with itself is enough.
  matches_all :
      (es : List Signature)
      → fl.less_eq cfg.threshold (jaccard sig sig) ≡ true
      → All (λ e. e ≡ sig) es
      → matches cfg.threshold sig es ≡ length es
  unfolding matches
  matches_all [] enough h = refl
  matches_all (e ∷ es) enough h = rw (h.0, enough) (omega (arith, matches_all es enough h.1))

  start-Repeated : (expires : ℕ) → Repeated expires 0 (fresh_state expires)
  start-Repeated expires = record { ends = refl; count = omega arith; same = tt }

module _ {F : Type 0} ⦃fl : Float64 F⦄ (cfg : StructuralConfig F) (form : Bytes) where
  jaccard_self :
      jaccard (min_hash form) (min_hash form) ≡ fl.quotient (fl.of_int64 64) (fl.literal 64)
  unfolding jaccard
  jaccard_self =
      ap (λ (n : ℕ). fl.quotient (fl.of_int64 n) (fl.literal 64)) (agreeing-min_hash form)

  -- After at least `limit` observations of a signature in one fresh window, the next one of it blocks,
  -- if 64 / 64 is at least the threshold and the limit is no more than the window.
  pub observe_all_blocked :
      (expires : ℕ) (times : List ℕ) (now : ℕ)
      → fl.less_eq cfg.threshold (fl.quotient (fl.of_int64 64) (fl.literal 64)) ≡ true
      → cfg.limit ≤ cfg.window
      → All (λ t. t < expires) times
      → now < expires
      → cfg.limit ≤ length times
      → (observe cfg
          (min_hash form)
          now
          (observe_all cfg (min_hash form) times (fresh_state expires))).1.block
        ≡ true
  observe_all_blocked expires times now enough fits live_times live more =
      let sig = min_hash form in
      let st = observe_all cfg sig times (fresh_state expires) in
      let h =
        observe_all-Repeated cfg sig times expires 0 (fresh_state expires) live_times
          (start-Repeated cfg sig expires) in
      let (_, _, block) = observe_cases cfg sig now st in
      let kept = renew_live cfg sig now st (omega (arith, h.ends)) in
      let all =
        matches_all cfg sig st.sigs
          (ap (λ (x : F). fl.less_eq cfg.threshold x) jaccard_self ∙ enough) h.same in
      block
      ∙ le→leb cfg.limit (matches cfg.threshold sig (renew cfg.ttl now st).sigs)
          (rw kept (omega (arith, all, h.count)))
