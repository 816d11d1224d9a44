-- ===== src/Events.antt =====
-- What the handler hands to its sinks: the events of pkg/logstream/hub.go, pkg/proxy/notifier.go and
-- emitter.go, and the incidents of pkg/proxy/store.go. An int64 is its 64-bit pattern.
use finops_proxy.Prelude.{ℕ, Bool, false, Bytes, [], String}

-- `LogEvent`, without the count of dropped events that the hub sets
pub record LogEvent : Type 0 where
  pub event_type : String
  pub level : String
  pub timestamp : ℕ
  pub tenant_id : Bytes
  pub tenant_name : Bytes
  pub agent_id : Bytes
  pub model : Bytes
  pub project_name : Bytes
  pub prompt_tokens : ℕ
  pub completion_tokens : ℕ
  pub cost_micro_usd : ℕ
  pub saved_cost_micro_usd : ℕ
  pub budget_micro_usd : ℕ
  pub spent_micro_usd : ℕ
  pub monthly_budget_micro : ℕ
  pub status_code : ℕ
  pub first_block : Bool
  pub reason : String
  pub retry_after : ℕ
  pub threshold_pct : ℕ

-- an event of which only these fields are set
abbrev pub log_event : String → String → ℕ → LogEvent
log_event event_type level timestamp = record {
  event_type = event_type;
  level = level;
  timestamp = timestamp;
  tenant_id = [];
  tenant_name = [];
  agent_id = [];
  model = [];
  project_name = [];
  prompt_tokens = 0;
  completion_tokens = 0;
  cost_micro_usd = 0;
  saved_cost_micro_usd = 0;
  budget_micro_usd = 0;
  spent_micro_usd = 0;
  monthly_budget_micro = 0;
  status_code = 0;
  first_block = false;
  reason = "";
  retry_after = 0;
  threshold_pct = 0;
}

-- `Event` of notifier.go, with the fields that the request path sets
pub record Event : Type 0 where
  pub event_type : String
  pub timestamp : ℕ
  pub agent_id : Bytes
  pub project : Bytes
  pub model : Bytes
  pub saved_cost_micro : ℕ
  pub reason : String
  pub retry_after : ℕ
  pub budget_micro_usd : ℕ
  pub spent_micro_usd : ℕ
  pub threshold_pct : ℕ

pub record PayloadEvent : Type 0 where
  pub agent_id : Bytes
  pub key_id : Bytes
  pub project : Bytes
  pub model : Bytes
  pub fingerprint : Bytes
  pub body : Bytes
  pub timestamp : ℕ

pub record IncidentInput : Type 0 where
  pub agent_id : Bytes
  pub key_id : Bytes
  pub project_name : Bytes
  pub model : Bytes
  pub fingerprint : Bytes
  pub cost_micro : ℕ

-- the calls of the sinks, in their order
pub data Output : Type 0 where
  published : LogEvent → Output
  notified : Event → Output
  emitted : PayloadEvent → Output
  recorded : IncidentInput → Output
