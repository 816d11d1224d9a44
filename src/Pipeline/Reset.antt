-- ===== src/Pipeline/Reset.antt =====
-- `Reset` of pipeline.go: the entries that it removes.
use finops_proxy.Prelude.{
  ℕ, ◌+◌, ◌≡◌, Option, none, some, length, arith, bytes_eq, equals, if◌then◌else◌,
}
use finops_proxy.GoMap.{Map, IsMap, lookup}
use finops_proxy.Detector.{AgentId}
use finops_proxy.HashDetector.Reset.{reset_count, lookup-reset}
use finops_proxy.HashDetector.{Key, key_eq}
use finops_proxy.StructuralHasher
use finops_proxy.StructuralHasher.Capacity.{lookup-reset_form}
use finops_proxy.ToolMatcher
use finops_proxy.ToolMatcher.Capacity.{lookup-reset_agent}
use finops_proxy.VelocityBreaker
use finops_proxy.VelocityBreaker.Capacity.{lookup-reset_velocity}
use finops_proxy.Pipeline.{Pipeline, reset, reset_stage}

-- the size of a stage, and that it tracks no key twice
abbrev pub entries : {S : Type 0} → (S → ℕ) → Option S → ℕ
entries size none = 0
entries size (some s) = size s

abbrev pub Holds : {S : Type 0} → (S → Type 0) → Option S → Type 0
Holds P none = Unit
Holds P (some s) = P s

-- the state that a stage has of an agent
abbrev pub state_of : {S A : Type 0} → (S → Map AgentId A) → AgentId → Option S → Option A
state_of states j none = none
state_of states j (some s) = lookup j (states s)

-- what a reset of one stage does, to the state of any agent `j` and to the number of entries
abbrev pub Clears :
    {S A : Type 0} → (S → S × ℕ) → (S → Map AgentId A) → AgentId → AgentId → S → Type 0
Clears reset_one states agent j s =
    (lookup j (states (reset_one s).0) ≡ (if equals j agent then none else lookup j (states s)))
    × ((reset_one s).1 + length (states (reset_one s).0) ≡ length (states s))

module _ {S A : Type 0} (reset_one : S → S × ℕ) (states : S → Map AgentId A) (agent j : AgentId)
    (clears : (s : S) → IsMap (states s) → Clears reset_one states agent j s) where
  reset_stage-state_of :
      (o : Option S)
      → Holds (λ s. IsMap (states s)) o
      → state_of states j (reset_stage reset_one o).0
        ≡ (if equals j agent then none else state_of states j o)
  reset_stage-state_of none h = ground arith
  reset_stage-state_of (some s) h = (clears s h).0

  reset_stage_count :
      (o : Option S)
      → Holds (λ s. IsMap (states s)) o
      → (reset_stage reset_one o).1 + entries (λ s. length (states s)) (reset_stage reset_one o).0
        ≡ entries (λ s. length (states s)) o
  reset_stage_count none h = omega arith
  reset_stage_count (some s) h = (clears s h).1

module _ {F : Type 0} where
  -- all tracked entries
  unfoldable pub tracked : Pipeline F → ℕ
  tracked p =
      length p.exact.seen
      + entries (λ s. length s.seen) p.structural
      + entries (λ m. length m.states) p.tools
      + entries (λ v. length v.states) p.velocity

  -- No stage tracks a key twice.
  pub record IsValid (p : Pipeline F) : Type 0 where
    pub exact : IsMap p.exact.seen
    pub structural : Holds (λ s. IsMap s.seen) p.structural
    pub tools : Holds (λ m. IsMap m.states) p.tools
    pub velocity : Holds (λ v. IsMap v.states) p.velocity

  -- What a reset of an agent makes of a pipeline: what each stage has of the agent is gone, what it
  -- has of another one is as it was, and the number returned is that of the entries removed.
  pub record IsReset (agent : AgentId) (p : Pipeline F) (p' : Pipeline F) (n : ℕ) : Type 0 where
    pub exact :
        (k : Key)
        → lookup k p'.exact.seen ≡ (if equals k.agent agent then none else lookup k p.exact.seen)
    pub structural :
        (j : AgentId)
        → state_of (λ s. s.seen) j p'.structural
          ≡ (if equals j agent then none else state_of (λ s. s.seen) j p.structural)
    pub tools :
        (j : AgentId)
        → state_of (λ m. m.states) j p'.tools
          ≡ (if equals j agent then none else state_of (λ m. m.states) j p.tools)
    pub velocity :
        (j : AgentId)
        → state_of (λ v. v.states) j p'.velocity
          ≡ (if equals j agent then none else state_of (λ v. v.states) j p.velocity)
    pub counted : n + tracked p' ≡ tracked p

  -- In a pipeline of which no stage tracks a key twice, a reset of an agent removes all that any stage
  -- has of it, leaves what the stages have of the other agents, and returns the number of entries
  -- that it removes from all stages together.
  pub reset-IsReset :
      (agent : AgentId) (p : Pipeline F)
      → IsValid p
      → IsReset agent p (reset agent p).0 (reset agent p).1
  unfolding reset tracked
  reset-IsReset agent p v =
      let by_form = lookup-reset_form {F = F} agent in
      let by_tools = lookup-reset_agent agent in
      let by_rate = lookup-reset_velocity {F = F} agent in
      record {
        exact = λ k. lookup-reset agent p.exact k v.exact;
        structural = λ j.
            reset_stage-state_of (StructuralHasher.reset agent) (λ s. s.seen) agent j (by_form j)
              p.structural v.structural;
        tools = λ j.
            reset_stage-state_of (ToolMatcher.reset agent) (λ m. m.states) agent j (by_tools j)
              p.tools v.tools;
        velocity = λ j.
            reset_stage-state_of (VelocityBreaker.reset agent) (λ s. s.states) agent j (by_rate j)
              p.velocity v.velocity;
        counted = omega (
          arith,
          reset_count agent p.exact,
          reset_stage_count (StructuralHasher.reset agent) (λ s. s.seen) agent agent (by_form agent)
              p.structural v.structural,
          reset_stage_count (ToolMatcher.reset agent) (λ m. m.states) agent agent (by_tools agent)
              p.tools v.tools,
          reset_stage_count (VelocityBreaker.reset agent) (λ s. s.states) agent agent
              (by_rate agent) p.velocity v.velocity,
        );
      }
