-- ===== src/Pipeline.antt =====
-- pkg/circuitbreaker/pipeline.go: the four detectors behind one check. A stage that is not wired is
-- `none`. Each detector reads its own clock. `decode` stands for `json.Unmarshal`, and the token
-- estimator is a function that may be absent.
pub mod Order
pub mod Reset
mod Tests
use finops_proxy.Prelude.{ℕ, ◌+◌, ◌/◌, Option, none, some, Bool, length, Bytes, if◌then◌else◌}
use finops_proxy.Float.{Float64}
use finops_proxy.Detector.{AgentId, Fingerprint, CheckResult, proceed}
use finops_proxy.HashDetector
use finops_proxy.HashDetector.{HashDetector}
use finops_proxy.StructuralHasher
use finops_proxy.StructuralHasher.{StructuralHasher}
use finops_proxy.ToolMatcher
use finops_proxy.ToolMatcher.{ToolMatcher, Envelope}
use finops_proxy.VelocityBreaker
use finops_proxy.VelocityBreaker.{VelocityBreaker, check_velocity}

pub record Pipeline (F : Type 0) : Type 0 where
  pub exact : HashDetector
  pub structural : Option (StructuralHasher F)
  pub tools : Option ToolMatcher
  pub velocity : Option (VelocityBreaker F)
  pub estimate : Option (Bytes → ℕ)

-- what the four clocks say
pub record Readings : Type 0 where
  pub exact : ℕ
  pub structural : ℕ
  pub tools : ℕ
  pub velocity : ℕ

-- `if p.stage != nil { res := p.stage.… }`
abbrev pub stage : {S : Type 0} → (S → S × CheckResult) → Option S → Option S × CheckResult
stage check none = (none, proceed)
stage check (some s) = let (s', result) = check s in (some s', result)

unfoldable pub estimate_tokens : {F : Type 0} → Pipeline F → Bytes → ℕ
estimate_tokens p body = elim p.estimate [ none ↦ (length body + 3) / 4 | some f ↦ f body ]

-- `Check`: the exact hash only
unfoldable pub check :
    {F : Type 0} → AgentId → Fingerprint → Readings → Pipeline F → Pipeline F × CheckResult
unfolding HashDetector.check
check agent fp now p =
    let (exact, result) = HashDetector.check agent fp now.exact p.exact in
    (record p { exact = exact }, result)

module _ {F : Type 0} ⦃fl : Float64 F⦄ (decode : Bytes → Option Envelope) where
  unfoldable pub check_payload :
      AgentId → Fingerprint → Bytes → Readings → Pipeline F → Pipeline F × CheckResult
  unfolding HashDetector.check StructuralHasher.check_payload ToolMatcher.check_payload
      check_velocity estimate_tokens
  check_payload agent fp body now p =
      let (exact, by_hash) = HashDetector.check agent fp now.exact p.exact in
      let (structural, by_form) =
        stage (StructuralHasher.check_payload agent body now.structural) p.structural in
      let (tools, by_tools) =
        stage (ToolMatcher.check_payload decode agent body now.tools) p.tools in
      let (velocity, by_rate) =
        stage (check_velocity agent (estimate_tokens p body) now.velocity) p.velocity in
      if by_hash.block
      then (record p { exact = exact }, by_hash)
      else if by_form.block
      then (record p { exact = exact; structural = structural }, by_form)
      else if by_tools.block
      then (record p { exact = exact; structural = structural; tools = tools }, by_tools)
      else (
        record p { exact = exact; structural = structural; tools = tools; velocity = velocity },
        if by_rate.block then by_rate else proceed,
      )

-- one stage's part of `Reset`
abbrev pub reset_stage : {S : Type 0} → (S → S × ℕ) → Option S → Option S × ℕ
reset_stage reset none = (none, 0)
reset_stage reset (some s) = let (s', n) = reset s in (some s', n)

unfoldable pub reset : {F : Type 0} → AgentId → Pipeline F → Pipeline F × ℕ
unfolding HashDetector.reset StructuralHasher.reset ToolMatcher.reset VelocityBreaker.reset
reset agent p =
    let (exact, n) = HashDetector.reset agent p.exact in
    let (structural, n_structural) = reset_stage (StructuralHasher.reset agent) p.structural in
    let (tools, n_tools) = reset_stage (ToolMatcher.reset agent) p.tools in
    let (velocity, n_velocity) = reset_stage (VelocityBreaker.reset agent) p.velocity in
    (
      record p { exact = exact; structural = structural; tools = tools; velocity = velocity },
      n + n_structural + n_tools + n_velocity,
    )
