-- ===== src/VelocityBreaker/Check.antt =====
-- `CheckVelocity` of velocity_breaker.go: the decision, and the incident that it opens and closes.
use finops_proxy.Prelude.{
  ℕ, ◌+◌, ◌^◌, ◌≤◌, ◌<◌, ◌≡◌, refl, ◌∙◌, ap, Bool, true, false, not, ◌&&◌, List, [], ◌∷◌, arith,
  length, ltb, leb, Bool-cases, inl, inr, All, slt64,
}
use finops_proxy.Detector.{is_zero}
use finops_proxy.Float.{Float64}
use finops_proxy.VelocityBreaker.{
  TokenEvent, VelocityState, VelocityConfig, append, report, decide, observe,
}
use finops_proxy.VelocityBreaker.Ring.{IsLive}
use finops_proxy.VelocityBreaker.Sums.{total, InRange}
use finops_proxy.VelocityBreaker.Window.{still_live, append_all}

pub slt64_small : (a b : ℕ) → a < 2 ^ 63 → b < 2 ^ 63 → slt64 a b ≡ ltb a b
slt64_small a b h k = ground arith

-- the state without its incident
abbrev pub settle : VelocityState → VelocityState
settle st = record st { blocked_at = 0 }

settle-append :
    (now tokens window short_window : ℕ) (st : VelocityState)
    → settle (append now tokens window short_window st)
      ≡ append now tokens window short_window (settle st)
unfolding append
settle-append now tokens window short_window st = refl

settle-report :
    (block : Bool) (now short_window retry_after : ℕ) (st : VelocityState)
    → settle (report block now short_window retry_after st).0 ≡ settle st
unfolding report
settle-report true now short_window retry_after st = refl
settle-report false now short_window retry_after st =
    elim (Bool-cases (not (is_zero st.blocked_at) && leb (st.blocked_at + short_window) now)) [
      | inl over ↦ rw over
      | inr still ↦ rw still
    ]

pub report_block :
    (block : Bool) (now short_window retry_after : ℕ) (st : VelocityState)
    → (report block now short_window retry_after st).1.block ≡ block
unfolding report
report_block true now short_window retry_after st = refl
report_block false now short_window retry_after st =
    elim (Bool-cases (not (is_zero st.blocked_at) && leb (st.blocked_at + short_window) now)) [
      | inl over ↦ rw over
      | inr still ↦ rw still
    ]

pub length-still_live-le :
    (window now : ℕ) (es : List TokenEvent) → length (still_live window now es) ≤ length es
unfolding still_live
length-still_live-le window now [] = omega arith
length-still_live-le window now (e ∷ es) = ground (arith, length-still_live-le window now es)

pub total-InRange : (es : List TokenEvent) → total es < 2 ^ 64 → InRange es
unfolding total
total-InRange [] h = tt
total-InRange (e ∷ es) h = (omega arith, total-InRange es (omega arith))

-- observations that start within a window before now are all live
pub Ordered-IsLive :
    (window now start : ℕ) (es : List TokenEvent)
    → now < start + window
    → All (λ e. start ≤ e.t) es
    → All (IsLive window now) es
Ordered-IsLive window now start [] h all = tt
Ordered-IsLive window now start (e ∷ es) h all =
    (omega (arith, all.0), Ordered-IsLive window now start es h all.1)

module _ (window short_window : ℕ) where
  pub append_first_at :
      (now tokens : ℕ) (st : VelocityState)
      → 0 < st.first_at
      → (append now tokens window short_window st).first_at ≡ st.first_at
  unfolding append
  append_first_at now tokens st h = ground arith

  pub append_all_first_at :
      (es : List TokenEvent) (st : VelocityState)
      → 0 < st.first_at
      → (append_all window short_window es st).first_at ≡ st.first_at
  unfolding append_all
  append_all_first_at [] st h = refl
  append_all_first_at (e ∷ es) st h =
      let same = append_first_at e.t e.n st h in
      append_all_first_at es (append e.t e.n window short_window st) (omega (arith, same)) ∙ same

module _ {F : Type 0} ⦃fl : Float64 F⦄ (cfg : VelocityConfig F) where
  -- one agent's observations
  unfoldable pub observe_all : List TokenEvent → VelocityState → VelocityState
  observe_all [] st = st
  observe_all (e ∷ es) st = observe_all es (observe cfg e.t e.n st).0

  settle-observe :
      (now tokens : ℕ) (st : VelocityState)
      → settle (observe cfg now tokens st).0
        ≡ append now tokens cfg.window cfg.short_window (settle st)
  unfolding observe
  settle-observe now tokens st =
      let st' = append now tokens cfg.window cfg.short_window st in
      settle-report (decide cfg now st') now cfg.short_window
        (fl.trunc (fl.seconds cfg.short_window) + 1) st'
      ∙ settle-append now tokens cfg.window cfg.short_window st

  pub settle-observe_all :
      (es : List TokenEvent) (st : VelocityState)
      → settle (observe_all es st) ≡ append_all cfg.window cfg.short_window es (settle st)
  unfolding observe_all append_all
  settle-observe_all [] st = refl
  settle-observe_all (e ∷ es) st =
      settle-observe_all es (observe cfg e.t e.n st).0
      ∙ ap (append_all cfg.window cfg.short_window es) (settle-observe e.t e.n st)

  -- Before the long window has filled, only the burst cap decides.
  pub decide_cold :
      (now : ℕ) (st : VelocityState)
      → now < st.first_at + cfg.window
      → decide cfg now st ≡ slt64 cfg.burst_tokens st.sum_long
  unfolding decide
  decide_cold now st h = ground arith
