-- ===== src/ToolMatcher/Blocks.antt =====
-- What a block of tool_matcher.go says about the names that were seen.
use finops_proxy.Prelude.{
  ℕ, ◌≤◌, ◌<◌, ◌≡◌, refl, ◌∙◌, sym, Option, none, some, true, List, arith, Bytes, Option-cases, inl,
  inr, leb, subst, leb→le, Bool-cases,
}
use finops_proxy.ToolMatcher.{
  ToolConfig, ToolState, detect_cycle, push, confirm, renew, judge, observe,
}
use finops_proxy.ToolMatcher.Cycle.{EndsTwice, detect_cycle_sound}
use finops_proxy.ToolMatcher.SameTools.{judge-Reported}
use finops_proxy.ToolMatcher.Capacity.{confirm_seq, judge_seq}

none_confirms : (st : ToolState) (found : Option ℕ) → found ≡ none → (confirm found st).confirms ≡ 0
unfolding confirm
none_confirms st none h = refl
none_confirms st (some p) h = absurd (ground arith)

judge_confirms :
    (cfg : ToolConfig) (now : ℕ) (st : ToolState) → (judge cfg now st).0.confirms ≡ st.confirms
unfolding judge
judge_confirms cfg now st = elim (Bool-cases (leb cfg.limit st.confirms)) [
  | inl reached ↦ rw reached
  | inr free ↦ rw free
]

-- If the limit is positive, a blocked request leaves a sequence that ends in a block of 2 to
-- `max_period` names that stands twice in a row.
pub observe-EndsTwice :
    (cfg : ToolConfig) (names : List Bytes) (now : ℕ) (st : ToolState)
    → 0 < cfg.limit
    → (observe cfg names now st).1.block ≡ true
    → (p : ℕ) × (2 ≤ p) × (p ≤ cfg.max_period) × EndsTwice p (observe cfg names now st).0.seq
unfolding observe
observe-EndsTwice cfg names now st positive blocked =
    let pushed = push names cfg.max_seq (renew cfg now st) in
    let found = detect_cycle pushed.seq cfg.max_period in
    let st' = confirm found pushed in
    elim (Option-cases found) [
      | inl miss ↦
          let reached =
            leb→le cfg.limit (judge cfg now st').0.confirms
              (sym (judge-Reported cfg now st') ∙ blocked) in
          absurd
            (omega (arith, reached, judge_confirms cfg now st', none_confirms pushed found miss))
      | inr (p, hit) ↦
          let (low, high, twice, _) = detect_cycle_sound pushed.seq cfg.max_period p hit in
          (
            p,
            low,
            high,
            subst (EndsTwice p) (sym (judge_seq cfg now st' ∙ confirm_seq found pushed)) twice,
          )
    ]
