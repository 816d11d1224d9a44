-- ===== src/ToolMatcher.antt =====
-- pkg/circuitbreaker/tool_matcher.go: cycles in the tool names that an agent's requests mention. The
-- clock's reading is an argument, and so is `decode`, which stands for `json.Unmarshal` into the
-- envelope (`none` is an error). The pool of name slices only saves allocations.
pub mod Cycle
pub mod Repeats
pub mod SameTools
pub mod Capacity
pub mod Blocks
mod Tests
use finops_proxy.Prelude.{
  ℕ, zero, suc, ◌+◌, ◌-◌, ◌*◌, ℤ, Option, none, some, Bool, true, false, ◌&&◌, List, [], ◌∷◌, ◌++◌,
  length, take, drop, last, ltb, leb, ◌==◌, equals, if◌then◌else◌, Bytes, bytes_eq, positive_or,
  at_least_two_or,
}
use finops_proxy.GoMap.{Map, lookup, insert, delete, evict}
use finops_proxy.Detector.{
  AgentId, CheckResult, second, proceed, reason_tool_cycle, is_zero, ceil_seconds,
}

pub record ToolConfig : Type 0 where
  pub max_seq : ℕ
  pub max_period : ℕ
  pub limit : ℕ
  pub ttl : ℕ
  pub max_entries : ℕ

pub record ToolState : Type 0 where
  pub seq : List Bytes
  pub period : ℕ
  pub confirms : ℕ
  pub expires : ℕ
  pub blocked_at : ℕ

pub record ToolMatcher : Type 0 where
  pub cfg : ToolConfig
  pub states : Map AgentId ToolState

-- the zero or invalid fields of the given configuration are replaced
unfoldable pub new_tool_matcher : ℤ → ℤ → ℤ → ℤ → ℤ → ToolMatcher
new_tool_matcher max_seq max_period limit ttl max_entries = record {
  cfg = record {
    max_seq = positive_or 64 max_seq;
    max_period = at_least_two_or 8 max_period;
    limit = positive_or 2 limit;
    ttl = positive_or (600 * second) ttl;
    max_entries = positive_or 10_000 max_entries;
  };
  states = [];
}

-- The names that the decoder finds: by message, of its tool calls; of the legacy functions; and of
-- the tools, the top-level name and the function's.
pub record Envelope : Type 0 where
  pub messages : List (List Bytes)
  pub functions : List Bytes
  pub tools : List (Bytes × Bytes)

unfoldable pub named : List Bytes → List Bytes
named [] = []
named ([] ∷ ns) = named ns
named ((c ∷ n) ∷ ns) = (c ∷ n) ∷ named ns

unfoldable pub call_names : List (List Bytes) → List Bytes
unfolding named
call_names [] = []
call_names (calls ∷ ms) = named calls ++ call_names ms

unfoldable pub tool_names : List (Bytes × Bytes) → List Bytes
tool_names [] = []
tool_names ((name, []) ∷ ts) = named (name ∷ []) ++ tool_names ts
tool_names ((name, c ∷ function) ∷ ts) = (c ∷ function) ∷ tool_names ts

unfoldable pub extract_tool_names : (Bytes → Option Envelope) → Bytes → List Bytes
unfolding call_names tool_names
extract_tool_names decode body = elim (decode body) [
  | none ↦ []
  | some env ↦ call_names env.messages ++ (named env.functions ++ tool_names env.tools)
]

unfoldable pub equal_strings : List Bytes → List Bytes → Bool
equal_strings [] [] = true
equal_strings [] (y ∷ ys) = false
equal_strings (x ∷ xs) [] = false
equal_strings (x ∷ xs) (y ∷ ys) =
    let rest = equal_strings xs ys in if equals x y then rest else false

-- `xs[lo:hi]`, in range
abbrev pub slice : ℕ → ℕ → List Bytes → List Bytes
slice lo hi xs = take (hi - lo) (drop lo xs)

-- the test of one round: the last `p` names against the `p` before them
unfoldable pub repeats_at : ℕ → List Bytes → Bool
unfolding equal_strings
repeats_at p seq =
    let n = length seq in equal_strings (slice (n - 2 * p) (n - p) seq) (slice (n - p) n seq)

-- `for p := …; p <= maxPeriod && 2*p <= n; p++`, with the rounds that `maxPeriod` leaves
unfoldable pub detect_from : ℕ → ℕ → List Bytes → Option ℕ
unfolding repeats_at
detect_from zero p seq = none
detect_from (suc rounds) p seq =
    let rest = detect_from rounds (p + 1) seq in
    if leb (2 * p) (length seq) then (if repeats_at p seq then some p else rest) else none

-- `p` runs from 2; `none` is the result (0, false)
unfoldable pub detect_cycle : List Bytes → ℕ → Option ℕ
unfolding detect_from
detect_cycle seq max_period = detect_from (max_period - 1) 2 seq

unfoldable pub push : List Bytes → ℕ → ToolState → ToolState
push names cap st =
    let seq = st.seq ++ names in
    record st { seq = if ltb cap (length seq) then last cap seq else seq }

unfoldable pub reset_state : ℕ → ToolState
reset_state expires = record {
  seq = [];
  period = 0;
  confirms = 0;
  expires = expires;
  blocked_at = 0;
}

unfoldable pub confirm : Option ℕ → ToolState → ToolState
confirm none st = record st { period = 0; confirms = 0 }
confirm (some p) st =
    if p == st.period
    then record st { confirms = st.confirms + 1 }
    else record st { period = p; confirms = 1 }

unfoldable pub evict_if_needed : ToolMatcher → Map AgentId ToolState
unfolding evict
evict_if_needed m = evict (length m.states) (λ st. st.expires) m.cfg.max_entries m.states

-- `state`: the agent's state, or a fresh one after the eviction; and the map beside it
unfoldable pub state : AgentId → ℕ → ToolMatcher → Map AgentId ToolState × ToolState
unfolding lookup evict_if_needed reset_state
state agent now m = elim (lookup agent m.states) [
  | none ↦ (evict_if_needed m, reset_state (now + m.cfg.ttl))
  | some st ↦ (m.states, st)
]

-- `if !now.Before(st.expires) { st.reset(…) }`
unfoldable pub renew : ToolConfig → ℕ → ToolState → ToolState
renew cfg now st = if ltb now st.expires then st else reset_state (now + cfg.ttl)

-- the verdict on the confirmed state
unfoldable pub judge : ToolConfig → ℕ → ToolState → ToolState × CheckResult
judge cfg now st =
    if leb cfg.limit st.confirms
    then (
      record st { blocked_at = if is_zero st.blocked_at then now else st.blocked_at },
      record {
        block = true;
        reason = reason_tool_cycle;
        retry_after = ceil_seconds (st.expires - now);
        first_block = is_zero st.blocked_at;
      },
    )
    else (st, proceed)

-- the part of `CheckPayload` that works on the agent's state
unfoldable pub observe : ToolConfig → List Bytes → ℕ → ToolState → ToolState × CheckResult
observe cfg names now st =
    let pushed = push names cfg.max_seq (renew cfg now st) in
    judge cfg now (confirm (detect_cycle pushed.seq cfg.max_period) pushed)

unfoldable pub check_names : AgentId → List Bytes → ℕ → ToolMatcher → ToolMatcher × CheckResult
unfolding state observe insert
check_names agent [] now m = (m, proceed)
check_names agent (n ∷ names) now m =
    let (states, st) = state agent now m in
    let (st', result) = observe m.cfg (n ∷ names) now st in
    (record m { states = insert agent st' states }, result)

unfoldable pub check_payload :
    (Bytes → Option Envelope) → AgentId → Bytes → ℕ → ToolMatcher → ToolMatcher × CheckResult
unfolding extract_tool_names check_names
check_payload decode agent body now m = check_names agent (extract_tool_names decode body) now m

unfoldable pub reset : AgentId → ToolMatcher → ToolMatcher × ℕ
unfolding lookup delete
reset agent m = elim (lookup agent m.states) [
  | none ↦ (m, 0)
  | some _ ↦ (record m { states = delete agent m.states }, 1)
]
