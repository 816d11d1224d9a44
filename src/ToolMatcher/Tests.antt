-- ===== src/ToolMatcher/Tests.antt =====
-- tool_matcher.go on concrete inputs.
use finops_proxy.Prelude.{
  ℕ, ◌*◌, ◌≤◌, ◌≡◌, refl, Option, some, true, List, [], ◌∷◌, ◌++◌, arith, Bytes, bytes_eq,
  bytes_discrete, ℕ_discrete, dec_le, dec_lt,
}
use finops_proxy.GoMap.{lookup}
use finops_proxy.Detector.{AgentId, proceed, second}
use finops_proxy.ToolMatcher.{
  ToolConfig, ToolState, ToolMatcher, Envelope, detect_cycle, observe, reset_state, push, confirm,
  judge, renew, detect_from, repeats_at, equal_strings,
}
use finops_proxy.ToolMatcher.Cycle
use finops_proxy.ToolMatcher.Cycle.{EndsTwice}
use finops_proxy.ToolMatcher.SameTools
use finops_proxy.ToolMatcher.Repeats.{observe_all}
use finops_proxy.ToolMatcher.Blocks
use finops_proxy.ToolMatcher.Capacity.{IsValid}

abbrev read : Bytes
read = 114 ∷ []

abbrev write : Bytes
write = 119 ∷ []

-- read, write, read, write: a period of 2
abbrev pair : List Bytes
pair = read ∷ write ∷ []

runs : Unit {0}
unfolding detect_cycle detect_from repeats_at equal_strings observe push confirm judge renew
    bytes_discrete ℕ_discrete dec_le dec_lt lookup reset_state
runs = tt

detect_cycle_sound_example :
    (2 ≤ 2)
    × (2 ≤ 8)
    × EndsTwice 2 (write ∷ (pair ++ pair))
    × ((q : ℕ) → 2 ≤ q → EndsTwice q (write ∷ (pair ++ pair)) → 2 ≤ q)
unfolding runs
detect_cycle_sound_example = Cycle.detect_cycle_sound (write ∷ (pair ++ pair)) 8 2 refl

detect_cycle_complete_example : ¬ EndsTwice 2 (read ∷ read ∷ pair)
unfolding runs
detect_cycle_complete_example =
    Cycle.detect_cycle_complete (read ∷ read ∷ pair) 8 2 refl (omega arith) (omega arith)

abbrev cfg : ToolConfig
cfg = record { max_seq = 64; max_period = 8; limit = 2; ttl = 600 * second; max_entries = 2 }

same_tools_blocked_example :
    (observe_all cfg pair (1 ∷ 2 ∷ 3 ∷ []) (reset_state 900, proceed)).1.block ≡ true
same_tools_blocked_example =
    SameTools.same_tools_blocked cfg pair 900 (1 ∷ 2 ∷ 3 ∷ []) proceed (omega arith) (omega arith)
      (omega arith) (omega arith, (omega arith, (omega arith, tt))) (omega arith)

-- seen "read write" twice
abbrev seen : ToolState
seen = record { seq = pair ++ pair; period = 2; confirms = 1; expires = 900; blocked_at = 0 }

observe-EndsTwice_example :
    (p : ℕ) × (2 ≤ p) × (p ≤ 8) × EndsTwice p (observe cfg pair 5 seen).0.seq
unfolding runs
observe-EndsTwice_example = Blocks.observe-EndsTwice cfg pair 5 seen (omega arith) refl

abbrev a : AgentId
a = 97 ∷ []

abbrev b : AgentId
b = 98 ∷ []

abbrev fresh : ToolState
fresh = record seen { seq = []; period = 0; confirms = 0; expires = 950 }

abbrev full : ToolMatcher
full = record { cfg = cfg; states = (a, seen) ∷ (b, fresh) ∷ [] }

-- a decoder that finds the pair in every body
abbrev decode : Bytes → Option Envelope
decode body = some (record { messages = pair ∷ []; functions = []; tools = [] })

full-IsValid : IsValid full
unfolding runs
full-IsValid = record {
  positive = omega arith;
  bounded = omega arith;
  distinct = (refl, (refl, tt));
}
