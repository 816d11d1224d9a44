-- ===== src/Handler.antt =====
-- pkg/proxy/handler.go: the flow of a request. The parts that are wired in are interfaces: records of
-- the operations that the handler calls. All readings of the clock for one request are one.
pub mod Serve
pub mod Costs
pub mod Flow
pub mod Spending
pub mod Bills
pub mod Stops
pub mod InFlight
mod Tests
use finops_proxy.Prelude.{
  ℕ, zero, suc, ◌+◌, ◌-◌, max, ◌==◌, Option, none, some, Bool, true, false, not, ◌&&◌, ◌||◌, List,
  [], ◌∷◌, ◌++◌, Bytes, String, if◌then◌else◌, ltb, length, ℤ, pos, negsuc, slt64,
}
use finops_proxy.Detector.{AgentId, Fingerprint, CheckResult}
use finops_proxy.Pricing.{ModelPrice}
use finops_proxy.MemoryStore.{RequestRecord}
use finops_proxy.Metrics.{
  Metrics, TriggerEvent, mark_start, mark_done, mark_loop_blocked, record_trigger,
}
use finops_proxy.Budget.{BudgetMonitor, utc_day_start, next_day_start}
use finops_proxy.Caller.{Caller}
use finops_proxy.Events.{LogEvent, log_event, Event, PayloadEvent, IncidentInput, Output}

-- `Detector`, with the capability `PayloadChecker` if it has it
pub record Detecting (D : Type 0) : Type 0 where
  pub check : AgentId → Fingerprint → ℕ → D → D × CheckResult
  pub check_payload : Option (AgentId → Fingerprint → Bytes → ℕ → D → D × CheckResult)
  pub reset : AgentId → D → D × ℕ

-- `PriceSource` of pkg/pricing/price_source.go
pub record PriceSource : Type 0 where
  pub price_for : Bytes → ModelPrice × Bool
  pub estimate_prompt_tokens : Bytes → ℕ
  pub saved_cost : Bytes → ℕ
  pub assumed_completion_tokens : ℕ

-- `RequestLogStore` and `BudgetLedger`: a sum is none if it cannot be read, and the error of a
-- write is dropped by the handler
pub record Ledger (S : Type 0) : Type 0 where
  pub log_request : RequestRecord → S → S
  pub sum_actual_cost_since : ℕ → S → Option ℕ
  pub sum_actual_cost_for_key_since : Bytes → ℕ → S → Option ℕ

-- how the handler is built; `loop_gate` is the flag of a notifier that is a LoopAlertGate
pub record Wiring (D S : Type 0) : Type 0 where
  pub detecting : Detecting D
  pub ledger : Ledger S
  pub price : Option PriceSource
  pub has_store : Bool
  pub has_ledger : Bool
  pub has_incidents : Bool
  pub has_notifier : Bool
  pub loop_gate : Option Bool
  pub has_hub : Bool
  pub has_emitter : Bool
  pub cost_threshold : Option ℕ
  pub max_body_bytes : ℕ
  pub fingerprint : Bytes → Fingerprint
  pub extract_model : Bytes → Bytes
  pub utc_month_start : ℕ → ℕ
  pub next_month_start : ℕ → ℕ
  pub day_of : ℕ → Bytes

pub record State (D S : Type 0) : Type 0 where
  pub detector : D
  pub store : S
  pub metrics : Option Metrics
  pub budget : Option BudgetMonitor
  pub outputs : List Output

-- A length of -1 is unknown. The body is what its reader gives, none if it fails.
pub record Request : Type 0 where
  pub is_post : Bool
  pub content_length : ℤ
  pub agent : AgentId
  pub project : Bytes
  pub caller : Option Caller
  pub body : Option Bytes

-- `reqMeta` of cost_tracking.go
pub record RequestMeta : Type 0 where
  pub model : Bytes
  pub prompt_tok : ℕ
  pub agent : AgentId
  pub fp : Fingerprint
  pub project_name : Bytes
  pub caller_id : Bytes
  pub start : ℕ

-- `untouched` is forwarded as it came, `rewound` with the body that was read, and the rest answered
pub data Response : Type 0 where
  untouched : Response
  rewound : Bytes → Option RequestMeta → Response
  too_large : Response
  budget_exceeded : (reason : String) (retry_after : ℕ) → Response
  loop_blocked : (reason : String) (retry_after : ℕ) → Response

-- the monthly or the daily budget that is used up
pub record Exceeded : Type 0 where
  pub spent : ℕ
  pub retry_after : ℕ
  pub reason : String

abbrev pub caller_id : Option Caller → Bytes
caller_id none = []
caller_id (some c) = c.id

abbrev pub saved_or_zero : Option PriceSource → Bytes → ℕ
saved_or_zero none body = 0
saved_or_zero (some p) body = p.saved_cost body

abbrev pub prompt_or_zero : Option PriceSource → Bytes → ℕ
prompt_or_zero none body = 0
prompt_or_zero (some p) body = p.estimate_prompt_tokens body

abbrev pub on_metrics : (Metrics → Metrics) → Option Metrics → Option Metrics
on_metrics f none = none
on_metrics f (some m) = some (f m)

-- `if spent >= budget` of a budget that is not 0, where a sum that cannot be read passes
unfoldable pub over_budget : ℕ → Option ℕ → ℕ → String → Option Exceeded
over_budget budget none retry_after reason = none
over_budget budget (some spent) retry_after reason =
    if slt64 0 budget && not (slt64 spent budget)
    then some record { spent = spent; retry_after = retry_after; reason = reason }
    else none

-- `http.MaxBytesReader` and `io.ReadAll`
abbrev pub read_body : ℕ → Option Bytes → Option Bytes
read_body limit none = none
read_body limit (some body) = if ltb limit (length body) then none else some body

-- `r.ContentLength == 0` and `r.ContentLength > MaxBodyBytes`
abbrev pub is_empty : ℤ → Bool
is_empty (pos n) = n == 0
is_empty (negsuc n) = false

abbrev pub is_above : ℕ → ℤ → Bool
is_above limit (pos n) = ltb limit n
is_above limit (negsuc n) = false

module _ {D S : Type 0} (w : Wiring D S) where
  abbrev pub put : Bool → Output → List Output → List Output
  put wired o outputs = if wired then outputs ++ (o ∷ []) else outputs

  unfoldable pub loop_alerts_enabled : Bool
  loop_alerts_enabled =
      if not w.has_notifier then false else elim w.loop_gate [ none ↦ true | some on ↦ on ]

  -- the gate (a') of `ServeHTTP`: the monthly budget, then the daily one
  unfoldable pub budget_gate : ℕ → Option Caller → S → Option Exceeded
  unfolding over_budget
  budget_gate now none s = none
  budget_gate now (some c) s =
      let monthly =
        over_budget c.monthly_budget_micro
          (w.ledger.sum_actual_cost_for_key_since c.id (w.utc_month_start now) s)
          (w.next_month_start now - now) "Monthly budget exceeded" in
      let daily =
        over_budget c.daily_budget_micro
          (w.ledger.sum_actual_cost_for_key_since c.id (utc_day_start now) s)
          (next_day_start now - now) "Daily budget exceeded" in
      if not w.has_ledger then none else elim monthly [ none ↦ daily | some e ↦ some e ]

  abbrev pub budget_event : ℕ → Caller → Exceeded → LogEvent
  budget_event now c e = record (log_event "budget_exceeded" "error" now) {
    tenant_id = c.id;
    tenant_name = c.name;
    spent_micro_usd = e.spent;
    monthly_budget_micro = c.monthly_budget_micro;
    reason = e.reason;
    retry_after = max 1 e.retry_after;
    status_code = 429;
  }

  -- `writeBudgetExceeded`
  unfoldable pub write_budget_exceeded :
      ℕ → Option Caller → Exceeded → State D S → State D S × Response
  write_budget_exceeded now none e st = (st, budget_exceeded e.reason (max 1 e.retry_after))
  write_budget_exceeded now (some c) e st = (
    record st { outputs = put w.has_hub (Output.published (budget_event now c e)) st.outputs },
    budget_exceeded e.reason (max 1 e.retry_after),
  )

  -- `det.CheckPayload` if the detector has it, else `det.Check`
  unfoldable pub consult : AgentId → Fingerprint → Bytes → ℕ → D → D × CheckResult
  consult agent fp body now d = elim w.detecting.check_payload [
    | none ↦ w.detecting.check agent fp now d
    | some check ↦ check agent fp body now d
  ]
