-- ===== src/VelocityBreaker/Incident.antt =====
-- The incidents of velocity_breaker.go: how often the first block of one is reported.
use finops_proxy.Prelude.{
  ℕ, ◌+◌, ◌≤◌, ◌<◌, ◌≡◌, refl, Bool, true, false, not, ◌&&◌, List, [], ◌∷◌, arith, leb,
  if◌then◌else◌, Bool-cases, inl, inr, All,
}
use finops_proxy.Detector.{is_zero}
use finops_proxy.Float.{Float64}
use finops_proxy.VelocityBreaker.{
  TokenEvent, VelocityState, VelocityConfig, append, report, decide, observe,
}

report_quiet :
    (block : Bool) (now short_window retry_after : ℕ) (st : VelocityState)
    → 0 < st.blocked_at
    → now < st.blocked_at + short_window
    → ((report block now short_window retry_after st).0.blocked_at ≡ st.blocked_at)
      × ((report block now short_window retry_after st).1.first_block ≡ false)
unfolding report
report_quiet true now short_window retry_after st h k = ground arith
report_quiet false now short_window retry_after st h k =
    let still : (not (is_zero st.blocked_at) && leb (st.blocked_at + short_window) now) ≡ false =
      ground arith in
    rw still (refl, refl)

report_first :
    (block : Bool) (now short_window retry_after : ℕ) (st : VelocityState)
    → (report block now short_window retry_after st).1.first_block ≡ true
    → (report block now short_window retry_after st).0.blocked_at ≡ now
unfolding report
report_first true now short_window retry_after st h = ground arith
report_first false now short_window retry_after st h =
    elim (Bool-cases (not (is_zero st.blocked_at) && leb (st.blocked_at + short_window) now)) [
      | inl over ↦ absurd (ground (arith, over))
      | inr still ↦ absurd (ground (arith, still))
    ]

module _ {F : Type 0} ⦃fl : Float64 F⦄ (cfg : VelocityConfig F) where
  -- how many of the observations report the first block of an incident
  unfoldable pub first_blocks : List TokenEvent → VelocityState → ℕ
  first_blocks [] st = 0
  first_blocks (e ∷ es) st =
      let (st', result) = observe cfg e.t e.n st in
      (if result.first_block then 1 else 0) + first_blocks es st'

  observe_quiet :
      (now tokens : ℕ) (st : VelocityState)
      → 0 < st.blocked_at
      → now < st.blocked_at + cfg.short_window
      → ((observe cfg now tokens st).0.blocked_at ≡ st.blocked_at)
        × ((observe cfg now tokens st).1.first_block ≡ false)
  unfolding observe append
  observe_quiet now tokens st =
      let st' = append now tokens cfg.window cfg.short_window st in
      report_quiet (decide cfg now st') now cfg.short_window
        (fl.trunc (fl.seconds cfg.short_window) + 1) st'

  observe_first :
      (now tokens : ℕ) (st : VelocityState)
      → (observe cfg now tokens st).1.first_block ≡ true
      → (observe cfg now tokens st).0.blocked_at ≡ now
  unfolding observe
  observe_first now tokens st =
      let st' = append now tokens cfg.window cfg.short_window st in
      report_first (decide cfg now st') now cfg.short_window
        (fl.trunc (fl.seconds cfg.short_window) + 1) st'

  first_blocks_none :
      (start : ℕ) (es : List TokenEvent) (st : VelocityState)
      → 0 < start
      → start ≤ st.blocked_at
      → All (λ e. e.t < start + cfg.short_window) es
      → first_blocks es st ≡ 0
  unfolding first_blocks
  first_blocks_none start [] st positive since soon = refl
  first_blocks_none start (e ∷ es) st positive since soon =
      let (same, quiet) = observe_quiet e.t e.n st (omega arith) (omega (arith, soon.0)) in
      rw quiet (
        omega (
          arith,
          first_blocks_none start es (observe cfg e.t e.n st).0 positive (omega (arith, same))
              soon.1,
        ))

  -- Of the observations of an agent within less than one short window, at most one reports the
  -- first block of an incident, whatever the agent's state was.
  pub first_blocks-velocity :
      (start : ℕ) (es : List TokenEvent) (st : VelocityState)
      → 0 < start
      → All (λ e. start ≤ e.t) es
      → All (λ e. e.t < start + cfg.short_window) es
      → first_blocks es st ≤ 1
  unfolding first_blocks
  first_blocks-velocity start [] st positive late soon = omega arith
  first_blocks-velocity start (e ∷ es) st positive late soon =
      let next = (observe cfg e.t e.n st).0 in
      elim (Bool-cases (observe cfg e.t e.n st).1.first_block) [
        | inl fires ↦
            let none_later =
              first_blocks_none start es next positive
                (omega (arith, observe_first e.t e.n st fires, late.0)) soon.1 in
            rw (fires, none_later) (omega arith)
        | inr quiet ↦
            rw quiet (omega (arith, first_blocks-velocity start es next positive late.1 soon.1))
      ]
