-- ===== src/VelocityBreaker.antt =====
-- pkg/circuitbreaker/velocity_breaker.go: the token rate of each agent over two sliding windows.
-- The clock's reading is an argument, int64 sums are 64-bit patterns, and float64 is a parameter
-- with the operations that the rates use.
pub mod Ring
pub mod Sums
pub mod Window
pub mod Check
pub mod ColdStart
pub mod Incident
pub mod Capacity
mod Tests
use finops_proxy.Prelude.{
  ℕ, zero, suc, ◌+◌, ◌*◌, ℤ, pos, negsuc, Option, none, some, Bool, true, false, not, ◌&&◌, List,
  [], ◌∷◌, ◌++◌, length, ltb, leb, if◌then◌else◌, bytes_eq, positive_or, add64, sub64, slt64,
}
use finops_proxy.Float.{Float64}
use finops_proxy.GoMap.{Map, lookup, insert, delete, evict}
use finops_proxy.Detector.{AgentId, CheckResult, second, proceed, reason_velocity, is_zero}

pub record TokenEvent : Type 0 where
  pub t : ℕ
  pub n : ℕ

pub record VelocityState : Type 0 where
  pub events : List TokenEvent
  pub sum_long : ℕ
  pub short : List TokenEvent
  pub sum_short : ℕ
  pub first_at : ℕ
  pub last_at : ℕ
  pub blocked_at : ℕ

abbrev pub max_velocity_events : ℕ
max_velocity_events = 1024

-- `for i < len(events) && !events[i].t.After(now - window) { sum -= …; i++ }`
unfoldable pub expire : ℕ → ℕ → List TokenEvent → ℕ → List TokenEvent × ℕ
expire window now [] sum = ([], sum)
expire window now (e ∷ es) sum =
    let rest = expire window now es (sub64 sum e.n) in
    if ltb now (e.t + window) then (e ∷ es, sum) else rest

-- `for len(events) > maxVelocityEvents { sum -= …; events = events[1:] }`
unfoldable pub trim : List TokenEvent → ℕ → List TokenEvent × ℕ
trim [] sum = ([], sum)
trim (e ∷ es) sum =
    let rest = trim es (sub64 sum e.n) in
    if ltb max_velocity_events (length (e ∷ es)) then rest else (e ∷ es, sum)

-- what `append` does to one ring
unfoldable pub append_ring : ℕ → ℕ → ℕ → List TokenEvent → ℕ → List TokenEvent × ℕ
unfolding expire trim
append_ring window now tokens events sum =
    let event : TokenEvent = record { t = now; n = tokens } in
    let (live, left) = expire window now (events ++ (event ∷ [])) (add64 sum tokens) in
    trim live left

unfoldable pub append : ℕ → ℕ → ℕ → ℕ → VelocityState → VelocityState
append now tokens window short_window st =
    let (events, sum_long) = append_ring window now tokens st.events st.sum_long in
    let (short, sum_short) = append_ring short_window now tokens st.short st.sum_short in
    record {
      events = events;
      sum_long = sum_long;
      short = short;
      sum_short = sum_short;
      first_at = if is_zero st.first_at then now else st.first_at;
      last_at = now;
      blocked_at = st.blocked_at;
    }

abbrev pub empty_state : VelocityState
empty_state = record {
  events = [];
  sum_long = 0;
  short = [];
  sum_short = 0;
  first_at = 0;
  last_at = 0;
  blocked_at = 0;
}

pub record VelocityConfig (F : Type 0) : Type 0 where
  pub window : ℕ
  pub short_window : ℕ
  pub burst_tokens : ℕ
  pub spike_factor : F
  pub max_entries : ℕ

pub record VelocityBreaker (F : Type 0) : Type 0 where
  pub cfg : VelocityConfig F
  pub states : Map AgentId VelocityState

-- `if x <= 0 || x > window { x = 5s }`
unfoldable pub short_window_or : ℕ → ℤ → ℕ
short_window_or window (pos zero) = 5 * second
short_window_or window (pos (suc x)) = if ltb window (suc x) then 5 * second else suc x
short_window_or window (negsuc x) = 5 * second

-- the agent's state, or an empty one after the eviction; and the map beside it
unfoldable pub state :
    {F : Type 0} → AgentId → VelocityBreaker F → Map AgentId VelocityState × VelocityState
unfolding lookup evict
state agent v = elim (lookup agent v.states) [
  | none ↦ (
    evict (length v.states) (λ (st : VelocityState). st.last_at) v.cfg.max_entries v.states,
    empty_state,
  )
  | some st ↦ (v.states, st)
]

-- the part of `CheckVelocity` after the decision
unfoldable pub report : Bool → ℕ → ℕ → ℕ → VelocityState → VelocityState × CheckResult
report true now short_window retry_after st = (
  record st { blocked_at = if is_zero st.blocked_at then now else st.blocked_at },
  record {
    block = true;
    reason = reason_velocity;
    retry_after = retry_after;
    first_block = is_zero st.blocked_at;
  },
)
report false now short_window retry_after st =
    if not (is_zero st.blocked_at) && leb (st.blocked_at + short_window) now
    then (record st { blocked_at = 0 }, proceed)
    else (st, proceed)

module _ {F : Type 0} ⦃fl : Float64 F⦄ where
  unfoldable pub new_velocity_breaker : ℤ → ℤ → ℤ → F → ℤ → VelocityBreaker F
  unfolding short_window_or
  new_velocity_breaker window short_window burst_tokens spike_factor max_entries =
      let long = positive_or (30 * second) window in
      record {
        cfg = record {
          window = long;
          short_window = short_window_or long short_window;
          burst_tokens = positive_or 200_000 burst_tokens;
          spike_factor =
              if fl.less_eq spike_factor (fl.literal 0) then fl.literal 5 else spike_factor;
          max_entries = positive_or 10_000 max_entries;
        };
        states = [];
      }

  -- `longRate > 0 && shortRate/longRate > SpikeFactor`
  unfoldable pub spikes : VelocityConfig F → VelocityState → Bool
  spikes cfg st =
      let long_rate = fl.quotient (fl.of_int64 st.sum_long) (fl.seconds cfg.window) in
      let short_rate = fl.quotient (fl.of_int64 st.sum_short) (fl.seconds cfg.short_window) in
      fl.less (fl.literal 0) long_rate
      && fl.less cfg.spike_factor (fl.quotient short_rate long_rate)

  unfoldable pub decide : VelocityConfig F → ℕ → VelocityState → Bool
  unfolding spikes
  decide cfg now st =
      if slt64 cfg.burst_tokens st.sum_long
      then true
      else leb (st.first_at + cfg.window) now && spikes cfg st

  -- the part of `CheckVelocity` that works on the agent's state
  unfoldable pub observe : VelocityConfig F → ℕ → ℕ → VelocityState → VelocityState × CheckResult
  unfolding append decide report
  observe cfg now tokens st =
      let st' = append now tokens cfg.window cfg.short_window st in
      report (decide cfg now st') now cfg.short_window (fl.trunc (fl.seconds cfg.short_window) + 1)
        st'

  unfoldable pub check_velocity :
      AgentId → ℕ → ℕ → VelocityBreaker F → VelocityBreaker F × CheckResult
  unfolding state observe insert
  check_velocity agent tokens now v =
      let (states, st) = state agent v in
      let (st', result) = observe v.cfg now tokens st in
      (record v { states = insert agent st' states }, result)

unfoldable pub reset : {F : Type 0} → AgentId → VelocityBreaker F → VelocityBreaker F × ℕ
unfolding lookup delete
reset agent v = elim (lookup agent v.states) [
  | none ↦ (v, 0)
  | some _ ↦ (record v { states = delete agent v.states }, 1)
]
