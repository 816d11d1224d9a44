-- ===== src/Pipeline/Tests.antt =====
-- pipeline.go on concrete inputs, with natural numbers for the floats.
use finops_proxy.Prelude.{
  ℕ, bytes_discrete, ℕ_discrete, ◌*◌, ◌≡◌, refl, Option, none, some, ◌||◌, [], ◌∷◌, Bytes, pos,
  if◌then◌else◌,
}
use finops_proxy.Float.Naturals.{naturals}
use finops_proxy.GoMap.{lookup}
use finops_proxy.Detector.{AgentId, second}
use finops_proxy.HashDetector.{key_discrete, key_eq, Entry, new_hash_detector}
use finops_proxy.StructuralHasher.{new_structural_hasher}
use finops_proxy.ToolMatcher.{Envelope, ToolState, new_tool_matcher}
use finops_proxy.VelocityBreaker.{new_velocity_breaker, short_window_or}
use finops_proxy.Pipeline.{Pipeline, Readings, check_payload, reset}
use finops_proxy.Pipeline.Order
use finops_proxy.Pipeline.Order.{first_blocked, by_hash, by_form, by_tools, by_rate}
use finops_proxy.Pipeline.Reset
use finops_proxy.Pipeline.Reset.{IsReset, IsValid}

-- all four stages with their defaults, and an agent that the last two know
abbrev a : AgentId
a = b'a' ∷ []

abbrev pipeline : Pipeline ℕ
unfolding new_hash_detector new_structural_hasher new_tool_matcher new_velocity_breaker
    short_window_or
pipeline = record {
  exact = new_hash_detector (600 * second) (pos 2);
  structural = some (new_structural_hasher 1 (pos 0) (pos 0) (pos 0) (pos 0));
  tools = some (record (new_tool_matcher (pos 0) (pos 0) (pos 0) (pos 0) (pos 0)) {
    states = (a, record { seq = []; period = 0; confirms = 0; expires = 9; blocked_at = 0 }) ∷ [];
  });
  velocity = some (new_velocity_breaker (pos 0) (pos 0) (pos 0) 0 (pos 0));
  estimate = none;
}

abbrev decode : Bytes → Option Envelope
decode body = none

abbrev body : Bytes
body = b'{' ∷ b'1' ∷ b'}' ∷ []

abbrev now : Readings
now = record { exact = 5; structural = 6; tools = 7; velocity = 8 }

check_payload-first_blocked_example :
    ((check_payload decode a body body now pipeline).1
      ≡ first_blocked (
          (by_hash decode a body body now pipeline).1
          ∷ (by_form decode a body body now pipeline).1
          ∷ (by_tools decode a body body now pipeline).1
          ∷ (by_rate decode a body body now pipeline).1
          ∷ []))
    × ((check_payload decode a body body now pipeline).0.exact
        ≡ (by_hash decode a body body now pipeline).0)
    × ((check_payload decode a body body now pipeline).0.structural ≡ (
        if (by_hash decode a body body now pipeline).1.block
        then pipeline.structural
        else (by_form decode a body body now pipeline).0))
    × ((check_payload decode a body body now pipeline).0.tools ≡ (
        if (by_hash decode a body body now pipeline).1.block
          || (by_form decode a body body now pipeline).1.block
        then pipeline.tools
        else (by_tools decode a body body now pipeline).0))
    × ((check_payload decode a body body now pipeline).0.velocity ≡ (
        if (by_hash decode a body body now pipeline).1.block
          || (by_form decode a body body now pipeline).1.block
          || (by_tools decode a body body now pipeline).1.block
        then pipeline.velocity
        else (by_rate decode a body body now pipeline).0))
check_payload-first_blocked_example =
    Order.check_payload-first_blocked decode a body body now pipeline

-- the exact detector and the one of tools know two agents
abbrev b : AgentId
b = b'b' ∷ []

abbrev entry : Entry
entry = record { count = 1; expires = 9; last_block = 0; blocked_at = 0 }

abbrev idle : ToolState
idle = record { seq = []; period = 0; confirms = 0; expires = 9; blocked_at = 0 }

abbrev busy : Pipeline ℕ
busy = record pipeline {
  exact = record pipeline.exact {
    seen = (record { agent = a; fp = body }, entry) ∷ (record { agent = b; fp = body }, entry) ∷ [];
  };
  tools = some (record (new_tool_matcher (pos 0) (pos 0) (pos 0) (pos 0) (pos 0)) {
    states = (b, idle) ∷ (a, idle) ∷ [];
  });
}

busy-IsValid : IsValid busy
unfolding pipeline lookup bytes_discrete ℕ_discrete key_discrete
busy-IsValid = record {
  exact = (refl, (refl, tt));
  structural = tt;
  tools = (refl, (refl, tt));
  velocity = tt;
}

reset-IsReset_example : IsReset a busy (reset a busy).0 (reset a busy).1
reset-IsReset_example = Reset.reset-IsReset a busy busy-IsValid

two_removed : (reset a busy).1 ≡ 2
unfolding reset pipeline lookup bytes_discrete ℕ_discrete
two_removed = refl
