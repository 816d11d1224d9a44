-- ===== src/Detector.antt =====
-- pkg/circuitbreaker/detector.go and status.go: what the detectors exchange with the handler.
-- Times are nanoseconds since Go's zero `time.Time`, which is 0; durations are nanoseconds.
use finops_proxy.Prelude.{
  ℕ, ◌+◌, ◌-◌, ◌/◌, ◌==◌, Bool, false, Bytes, String, bytes_eq, if◌then◌else◌,
}

abbrev pub second : ℕ
second = 1_000_000_000

-- `type AgentID string` and `type Fingerprint string`
abbrev pub AgentId : Type 0
AgentId = Bytes

abbrev pub Fingerprint : Type 0
Fingerprint = Bytes

pub record CheckResult : Type 0 where
  pub block : Bool
  pub reason : String
  pub retry_after : ℕ
  pub first_block : Bool

-- `CheckResult{}`: proceed.
abbrev pub proceed : CheckResult
proceed = record { block = false; reason = ""; retry_after = 0; first_block = false }

abbrev pub reason_exact_hash : String
reason_exact_hash =
    "identical request fingerprint observed within TTL window (possible infinite loop)"

abbrev pub reason_structural : String
reason_structural =
    "structurally identical request observed within TTL window (possible loop with dynamic values)"

abbrev pub reason_tool_cycle : String
reason_tool_cycle = "repeating tool-call cycle detected (possible A->B->A->B agent loop)"

abbrev pub reason_velocity : String
reason_velocity = "abnormal token consumption velocity (possible unbounded consumption loop)"

pub record AgentStatus : Type 0 where
  pub agent : AgentId
  pub blocked : Bool
  pub fingerprints : ℕ
  pub blocked_fp : ℕ
  pub first_blocked : ℕ
  pub last_blocked : ℕ

-- `t.IsZero()`
abbrev pub is_zero : ℕ → Bool
is_zero t = t == 0

-- `(d + time.Second - 1) / time.Second`
unfoldable pub ceil_div_second : ℕ → ℕ
ceil_div_second d = (d + second - 1) / second

-- `ceilSeconds` of structural_hasher.go: at least 1
unfoldable pub ceil_seconds : ℕ → ℕ
unfolding ceil_div_second
ceil_seconds d = if is_zero d then 1 else ceil_div_second d
