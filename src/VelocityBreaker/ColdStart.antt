-- ===== src/VelocityBreaker/ColdStart.antt =====
-- velocity_breaker.go before the first long window has passed.
use finops_proxy.Prelude.{
  ℕ, ◌+◌, ◌^◌, ◌≤◌, ◌<◌, ◌≡◌, refl, ◌∙◌, ap, List, [], ◌∷◌, ◌++◌, arith, length, ltb, slt64,
}
use finops_proxy.Float.{Float64}
use finops_proxy.VelocityBreaker.{
  TokenEvent, VelocityState, VelocityConfig, append, empty_state, decide, observe,
}
use finops_proxy.VelocityBreaker.Ring.{Ordered, observation, All-back}
use finops_proxy.VelocityBreaker.Sums.{total, InRange}
use finops_proxy.VelocityBreaker.Window.{append_all, append_all-total, still_live-All, All-front}
use finops_proxy.VelocityBreaker.Check.{
  settle, settle-observe_all, observe_all, report_block, length-still_live-le, total-InRange,
  Ordered-IsLive, append_first_at, append_all_first_at, decide_cold, slt64_small,
}

-- the first observation dates the state
append_first :
    (now tokens window short_window : ℕ)
    → (append now tokens window short_window empty_state).first_at ≡ now
unfolding append
append_first now tokens window short_window = refl

module _ {F : Type 0} ⦃fl : Float64 F⦄ (cfg : VelocityConfig F) where
  -- An observation is decided on the rings, whatever the incident.
  observe_block :
      (now tokens : ℕ) (st : VelocityState)
      → (observe cfg now tokens st).1.block
        ≡ decide cfg now (append now tokens cfg.window cfg.short_window (settle st))
  unfolding observe decide append
  observe_block now tokens st =
      let st' = append now tokens cfg.window cfg.short_window st in
      report_block (decide cfg now st') now cfg.short_window
        (fl.trunc (fl.seconds cfg.short_window) + 1) st'

  module _ (now tokens : ℕ) (first : TokenEvent) (rest : List TokenEvent) where
    -- the observations, with the one now at the end
    abbrev pub observed : List TokenEvent
    observed = first ∷ (rest ++ (observation now tokens ∷ []))

    last_tokens : InRange observed → tokens < 2 ^ 64
    last_tokens h = (All-back (λ e. e.n < 2 ^ 64) (first ∷ rest) (observation now tokens ∷ []) h).0

    dated :
        0 < first.t
        → (append now tokens cfg.window cfg.short_window
            (append_all cfg.window cfg.short_window (first ∷ rest) empty_state)).first_at
          ≡ first.t
    unfolding append_all
    dated after_zero =
        let start = append first.t first.n cfg.window cfg.short_window empty_state in
        let dated_first = append_first first.t first.n cfg.window cfg.short_window in
        let dated_rest =
          append_all_first_at cfg.window cfg.short_window rest start (omega (arith, dated_first)) in
        append_first_at cfg.window cfg.short_window now tokens
          (append_all cfg.window cfg.short_window rest start)
          (omega (arith, dated_first, dated_rest))
        ∙ dated_rest
        ∙ dated_first

    -- The first observations of an agent, at times that do not decrease, at most 1024 and all
    -- within one long window: the last one is blocked exactly if all their tokens add up to more
    -- than the burst cap, if the sum and the cap are below 2^63.
    pub observe_all_cold :
        0 < first.t
        → now < first.t + cfg.window
        → Ordered now observed
        → length observed ≤ 1024
        → total observed < 2 ^ 63
        → cfg.burst_tokens < 2 ^ 63
        → (observe cfg now tokens (observe_all cfg (first ∷ rest) empty_state)).1.block
          ≡ ltb cfg.burst_tokens (total observed)
    observe_all_cold after_zero cold ordered few small small_cap =
        let before = append_all cfg.window cfg.short_window (first ∷ rest) empty_state in
        let st = append now tokens cfg.window cfg.short_window before in
        let in_range = total-InRange observed (omega arith) in
        let live =
          still_live-All cfg.window now observed
            (Ordered-IsLive cfg.window now first.t observed cold (omega arith, ordered.1)) in
        let (sum, _) =
          append_all-total cfg.window cfg.short_window now tokens (first ∷ rest)
            (last_tokens in_range)
            (All-front (λ e. e.n < 2 ^ 64) (first ∷ rest) (observation now tokens ∷ []) in_range)
            ordered (omega (arith, length-still_live-le cfg.window now observed))
            (omega (arith, length-still_live-le cfg.short_window now observed)) in
        let exact : st.sum_long ≡ total observed =
          sum ∙ omega (arith, ap (λ (es : List TokenEvent). total es) live) in
        observe_block now tokens (observe_all cfg (first ∷ rest) empty_state)
        ∙ ap
            (λ (s : VelocityState).
              decide cfg now (append now tokens cfg.window cfg.short_window s))
            (settle-observe_all cfg (first ∷ rest) empty_state)
        ∙ decide_cold cfg now st (rw (dated after_zero) cold)
        ∙ ap (slt64 cfg.burst_tokens) exact
        ∙ slt64_small cfg.burst_tokens (total observed) small_cap small
