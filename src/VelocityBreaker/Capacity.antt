-- ===== src/VelocityBreaker/Capacity.antt =====
-- The bound on the breaker's map, and what a request of one agent does to the others.
use finops_proxy.Prelude.{
  ℕ, ◌+◌, ◌≤◌, ◌≡◌, ◌≢◌, refl, none, some, arith, length, Option-cases, inl, inr, ◌⊎◌, bytes_eq,
  if◌then◌else◌, equals,
}
use finops_proxy.GoMap.{IsMap, lookup, insert}
use finops_proxy.GoMap.Laws.{lookup-delete, length-delete}
use finops_proxy.GoMap.Admit.{
  admit, make_room, IsBounded, admit-IsBounded, kept, evicted, admit-Spared,
}
use finops_proxy.Detector.{AgentId}
use finops_proxy.Float.{Float64}
use finops_proxy.VelocityBreaker.{
  VelocityState, VelocityBreaker, state, observe, check_velocity, reset,
}

abbrev last_seen : VelocityState → ℕ
last_seen st = st.last_at

module _ {F : Type 0} where
  state_admits :
      (agent : AgentId) (v : VelocityBreaker F)
      → (state agent v).0 ≡ admit last_seen v.cfg.max_entries agent v.states
  unfolding state admit make_room
  state_admits agent v = elim (Option-cases (lookup agent v.states)) [
    | inl absent ↦ rw (state, absent)
    | inr (st, found) ↦ rw (state, found)
  ]

  module _ (v : VelocityBreaker F) where
    abbrev pub IsValid : Type 0
    IsValid = IsBounded last_seen v.cfg.max_entries v.states

    -- What is left of another agent's state.
    abbrev pub Others : AgentId → AgentId → VelocityState → VelocityBreaker F → Type 0
    Others agent other st v' =
        (lookup other v'.states ≡ some st)
        ⊎ ((lookup other v'.states ≡ none)
            × (length v.states ≡ v.cfg.max_entries)
            × ((i : AgentId) (y : VelocityState)
                → i ≢ agent
                → lookup i v'.states ≡ some y
                → st.last_at ≤ y.last_at))

  -- In a breaker that tracks no agent twice, a reset of an agent removes that agent's state and no
  -- other, and counts what it removed.
  pub lookup-reset_velocity :
      (agent j : AgentId) (v : VelocityBreaker F)
      → IsMap v.states
      → (lookup j (reset agent v).0.states ≡ (if equals j agent then none else lookup j v.states))
        × ((reset agent v).1 + length (reset agent v).0.states ≡ length v.states)
  unfolding reset
  lookup-reset_velocity agent j v h = elim (Option-cases (lookup agent v.states)) [
    | inl absent ↦ rw (reset, absent) (ground (arith, absent), omega arith)
    | inr (st, found) ↦
        rw (reset, found)
          (
            ground (arith, lookup-delete agent j v.states),
            omega (arith, length-delete agent st v.states h found),
          )
  ]

module _ {F : Type 0} ⦃fl : Float64 F⦄ (agent : AgentId) (tokens now : ℕ)
    (v : VelocityBreaker F) where
  check_velocity_step :
      (check_velocity agent tokens now v).0.states
      ≡ insert agent
          (observe v.cfg now tokens (state agent v).1).0
          (admit last_seen v.cfg.max_entries agent v.states)
  unfolding check_velocity
  check_velocity_step = rw (← state_admits agent v)

  check_velocity_cfg : (check_velocity agent tokens now v).0.cfg ≡ v.cfg
  unfolding check_velocity
  check_velocity_cfg = refl

  -- From a valid breaker, every check keeps the number of tracked agents at or below
  -- `max_entries`, and no agent is tracked twice.
  pub check_velocity-IsValid : IsValid v → IsValid (check_velocity agent tokens now v).0
  check_velocity-IsValid h =
      rw (check_velocity_cfg, check_velocity_step)
        (admit-IsBounded last_seen v.cfg.max_entries agent
          (observe v.cfg now tokens (state agent v).1).0 v.states h)

  -- From a valid breaker, a check of one agent leaves the state of every other agent as it was,
  -- unless the map is full and that state is evicted: then no state that is left, but the checked
  -- agent's, was seen before it.
  pub check_velocity-Others :
      (other : AgentId) (st : VelocityState)
      → IsValid v
      → other ≢ agent
      → lookup other v.states ≡ some st
      → Others v agent other st (check_velocity agent tokens now v).0
  check_velocity-Others other st h ne found =
      rw check_velocity_step
        (elim (admit-Spared last_seen v.cfg.max_entries agent
          (observe v.cfg now tokens (state agent v).1).0 v.states h other st ne found) [
            | kept same ↦ inl same
            | evicted gone full oldest ↦ inr (gone, full, oldest)
          ])
