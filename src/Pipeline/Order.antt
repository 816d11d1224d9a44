-- ===== src/Pipeline/Order.antt =====
-- `CheckPayload` of pipeline.go: which stage answers, and which stages see the request.
use finops_proxy.Prelude.{
  ◌≡◌, refl, Option, ◌||◌, List, [], ◌∷◌, Bytes, if◌then◌else◌, Bool-cases, inl, inr,
}
use finops_proxy.Float.{Float64}
use finops_proxy.Detector.{AgentId, Fingerprint, CheckResult, proceed}
use finops_proxy.HashDetector
use finops_proxy.StructuralHasher
use finops_proxy.ToolMatcher
use finops_proxy.ToolMatcher.{Envelope}
use finops_proxy.VelocityBreaker
use finops_proxy.VelocityBreaker.{check_velocity}
use finops_proxy.Pipeline.{Pipeline, Readings, stage, estimate_tokens, check_payload}

-- the first of the results that blocks
unfoldable pub first_blocked : List CheckResult → CheckResult
first_blocked [] = proceed
first_blocked (r ∷ rs) = let rest = first_blocked rs in if r.block then r else rest

module _ {F : Type 0} ⦃fl : Float64 F⦄ (decode : Bytes → Option Envelope) (agent : AgentId)
    (fp : Fingerprint) (body : Bytes) (now : Readings) (p : Pipeline F) where
  -- what each stage would answer, and its state then
  abbrev pub by_hash : HashDetector.HashDetector × CheckResult
  by_hash = HashDetector.check agent fp now.exact p.exact

  abbrev pub by_form : Option (StructuralHasher.StructuralHasher F) × CheckResult
  by_form = stage (StructuralHasher.check_payload agent body now.structural) p.structural

  abbrev pub by_tools : Option ToolMatcher.ToolMatcher × CheckResult
  by_tools = stage (ToolMatcher.check_payload decode agent body now.tools) p.tools

  abbrev pub by_rate : Option (VelocityBreaker.VelocityBreaker F) × CheckResult
  by_rate = stage (check_velocity agent (estimate_tokens p body) now.velocity) p.velocity

  -- The answer is that of the first stage that blocks, in the order exact, structural, tools,
  -- velocity, and a stage's state changes only if no stage before it blocks.
  pub check_payload-first_blocked :
      ((check_payload decode agent fp body now p).1
        ≡ first_blocked (by_hash.1 ∷ by_form.1 ∷ by_tools.1 ∷ by_rate.1 ∷ []))
      × ((check_payload decode agent fp body now p).0.exact ≡ by_hash.0)
      × ((check_payload decode agent fp body now p).0.structural
          ≡ (if by_hash.1.block then p.structural else by_form.0))
      × ((check_payload decode agent fp body now p).0.tools
          ≡ (if by_hash.1.block || by_form.1.block then p.tools else by_tools.0))
      × ((check_payload decode agent fp body now p).0.velocity ≡ (
          if by_hash.1.block || by_form.1.block || by_tools.1.block then p.velocity else by_rate.0))
  unfolding check_payload first_blocked
  check_payload-first_blocked = elim (Bool-cases by_hash.1.block) [
    | inl hash ↦ rw hash (refl, refl, refl, refl, refl)
    | inr no_hash ↦ elim (Bool-cases by_form.1.block) [
      | inl by_structure ↦ rw (no_hash, by_structure) (refl, refl, refl, refl, refl)
      | inr no_form ↦ elim (Bool-cases by_tools.1.block) [
        | inl cycle ↦ rw (no_hash, no_form, cycle) (refl, refl, refl, refl, refl)
        | inr no_cycle ↦ rw (no_hash, no_form, no_cycle) (refl, refl, refl, refl, refl)
      ]
    ]
  ]
