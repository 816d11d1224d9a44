-- ===== src/ToolMatcher/SameTools.antt =====
-- The limit of tool_matcher.go, for an agent whose requests list the same tools each time.
use finops_proxy.Prelude.{
  ℕ, ◌*◌, ◌≤◌, ◌<◌, ◌≡◌, refl, ◌∙◌, sym, Option, none, some, true, false, List, [], ◌∷◌, ◌++◌,
  arith, length, leb, ltb, Bytes, Bool-cases, Option-cases, inl, inr, le→ltb_false, le→leb, ◌==◌,
  All,
}
use finops_proxy.Detector.{CheckResult}
use finops_proxy.ToolMatcher.{
  ToolConfig, ToolState, detect_cycle, push, confirm, reset_state, renew, judge, observe,
}
use finops_proxy.ToolMatcher.Cycle.{detect_cycle_complete}
use finops_proxy.ToolMatcher.Repeats.{
  Repeating, judge-Repeating, renew_live, observe_all, observe_all_counted,
}

-- A result is blocked exactly if the confirmations have reached the limit.
module _ (cfg : ToolConfig) where
  abbrev pub Reported : ToolState × CheckResult → Type 0
  Reported r = r.1.block ≡ leb cfg.limit r.0.confirms

  pub judge-Reported : (now : ℕ) (st : ToolState) → Reported (judge cfg now st)
  unfolding judge
  judge-Reported now st = elim (Bool-cases (leb cfg.limit st.confirms)) [
    | inl reached ↦ rw reached (sym reached)
    | inr free ↦ rw free (sym free)
  ]

  observe-Reported :
      (names : List Bytes) (now : ℕ) (st : ToolState) → Reported (observe cfg names now st)
  unfolding observe
  observe-Reported names now st =
      let pushed = push names cfg.max_seq (renew cfg now st) in
      judge-Reported now (confirm (detect_cycle pushed.seq cfg.max_period) pushed)

  observe_all-Reported :
      (names : List Bytes) (times : List ℕ) (r : ToolState × CheckResult)
      → Reported r
      → Reported (observe_all cfg names times r)
  unfolding observe_all
  observe_all-Reported names [] r h = h
  observe_all-Reported names (now ∷ times) r h =
      observe_all-Reported names times (observe cfg names now r.0) (observe-Reported names now r.0)

module _ (cfg : ToolConfig) (names : List Bytes) (expires q : ℕ) where
  confirm-start :
      (o : Option ℕ) (st : ToolState)
      → Repeating cfg names expires q 0 st
      → Repeating cfg names expires q 0 (confirm o st)
  unfolding confirm
  confirm-start none st r = record {
    ends = r.ends;
    window = r.window;
    counted = omega arith;
    settled = λ h. absurd (omega arith);
  }
  confirm-start (some p) st r = elim (Bool-cases (p == st.period)) [
    | inl again ↦ rw again (record {
      ends = r.ends;
      window = r.window;
      counted = omega arith;
      settled = λ h. absurd (omega arith);
    })
    | inr new ↦ rw new (record {
      ends = r.ends;
      window = r.window;
      counted = omega arith;
      settled = λ h. absurd (omega arith);
    })
  ]

  push-start :
      length names ≤ cfg.max_seq
      → Repeating cfg names expires q 0 (push names cfg.max_seq (reset_state expires))
  unfolding push reset_state
  push-start fits =
      let short : ltb cfg.max_seq (length names) ≡ false =
        le→ltb_false (length names) cfg.max_seq fits in
      rw short (record {
        ends = ([], refl);
        window = refl;
        counted = omega arith;
        settled = λ h. absurd (omega arith);
      })

  -- The first request of the window.
  observe-start :
      (now : ℕ)
      → now < expires
      → length names ≤ cfg.max_seq
      → Repeating cfg names expires q 0 (observe cfg names now (reset_state expires)).0
  unfolding observe reset_state
  observe-start now live fits =
      let same_state = renew_live cfg now (reset_state expires) live in
      let st' = push names cfg.max_seq (reset_state expires) in
      rw same_state (
        judge-Repeating cfg names expires q 0 now
          (confirm (detect_cycle st'.seq cfg.max_period) st')
          (confirm-start (detect_cycle st'.seq cfg.max_period) st' (push-start fits)))

names_detected :
    (names : List Bytes) (max_period : ℕ)
    → 2 ≤ length names
    → length names ≤ max_period
    → (q : ℕ) × (detect_cycle (names ++ names) max_period ≡ some q)
names_detected names max_period low high =
    elim (Option-cases (detect_cycle (names ++ names) max_period)) [
      | inl miss ↦ absurd (
          detect_cycle_complete (names ++ names) max_period (length names) miss low high
            ([], names, refl, refl))
      | inr found ↦ found
    ]

-- Requests of one agent that each list the same two or more names, at most `max_period` of them and
-- twice them at most `max_seq`, within one fresh window: if they are more than the limit, the last
-- one is blocked.
pub same_tools_blocked :
    (cfg : ToolConfig) (names : List Bytes) (expires : ℕ) (times : List ℕ) (result : CheckResult)
    → 2 ≤ length names
    → length names ≤ cfg.max_period
    → 2 * length names ≤ cfg.max_seq
    → All (λ t. t < expires) times
    → cfg.limit < length times
    → (observe_all cfg names times (reset_state expires, result)).1.block ≡ true
unfolding observe_all
same_tools_blocked cfg names expires [] result low high fits live more = absurd (omega arith)
same_tools_blocked cfg names expires (now ∷ times) result low high fits live more =
    let (q, found) = names_detected names cfg.max_period low high in
    let first = observe cfg names now (reset_state expires) in
    let start = observe-start cfg names expires q now live.0 (omega arith) in
    let r = observe_all_counted cfg names expires q found fits times 0 first live.1 start in
    observe_all-Reported cfg names times first
      (observe-Reported cfg names now (reset_state expires))
    ∙ le→leb cfg.limit (observe_all cfg names times first).0.confirms (omega (arith, r.counted))
