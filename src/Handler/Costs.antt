-- ===== src/Handler/Costs.antt =====
-- pkg/proxy/cost_tracking.go and alerting.go: the hook `onCost`, which records the cost of a call that
-- was forwarded, and the check of the daily budget after it.
use finops_proxy.Prelude.{
  ℕ, Option, none, some, Bool, true, false, not, ◌&&◌, ◌||◌, List, [], ◌∷◌, ◌++◌, if◌then◌else◌,
  slt64,
}
use finops_proxy.Pricing.{cost}
use finops_proxy.MemoryStore.{RequestRecord}
use finops_proxy.Metrics.{mark_forwarded}
use finops_proxy.Budget.{BudgetMonitor, BudgetEvent, spend, utc_day_start}
use finops_proxy.UsageObserver.{Usage}
use finops_proxy.Events.{LogEvent, log_event, Event, Output}
use finops_proxy.Handler.{PriceSource, Wiring, State, RequestMeta, on_metrics, put}

-- the notification and the live event of a threshold
abbrev pub level_notification : BudgetEvent → Event
level_notification ev = record {
  event_type = "budget_level";
  timestamp = ev.timestamp;
  agent_id = [];
  project = [];
  model = [];
  saved_cost_micro = 0;
  reason = "";
  retry_after = 0;
  budget_micro_usd = ev.budget_micro_usd;
  spent_micro_usd = ev.spent_micro_usd;
  threshold_pct = ev.threshold_pct;
}

abbrev pub level_log : BudgetEvent → LogEvent
level_log ev = record (log_event "budget_level" "warn" ev.timestamp) {
  budget_micro_usd = ev.budget_micro_usd;
  spent_micro_usd = ev.spent_micro_usd;
  threshold_pct = ev.threshold_pct;
  reason = "daily budget level crossed";
}

module _ {D S : Type 0} (w : Wiring D S) (now : ℕ) where
  -- the callback of `checkBudget` on each event; it returns true, since there is a notifier
  unfoldable pub announce : List BudgetEvent → List Output → List Output
  announce [] outputs = outputs
  announce (ev ∷ evs) outputs = announce evs (
      put w w.has_hub (Output.published (level_log ev))
        (outputs ++ (Output.notified (level_notification ev) ∷ [])))

  -- `h.budget.Spend` with the sum that was read, `none` if it could not be read
  unfoldable pub spend_budget : Option BudgetMonitor → Option ℕ → State D S → State D S
  unfolding spend announce
  spend_budget none spent st = st
  spend_budget (some m) none st = st
  spend_budget (some m) (some spent) st =
      let (after, events) = spend w.day_of (λ ev. true) spent now m in
      record st { budget = some after; outputs = announce events st.outputs }

  unfoldable pub check_budget : State D S → State D S
  unfolding spend_budget
  check_budget st =
      if not w.has_notifier || not w.has_ledger
      then st
      else spend_budget st.budget (w.ledger.sum_actual_cost_since (utc_day_start now) st.store) st

  abbrev pub cost_record : RequestMeta → Usage → ℕ → RequestRecord
  cost_record meta u micro = record {
    agent_id = meta.agent;
    key_id = meta.caller_id;
    project_name = meta.project_name;
    model = meta.model;
    prompt_tokens = u.prompt_tokens;
    completion_tokens = u.completion_tokens;
    cost_usd = micro;
    is_loop_blocked = false;
    timestamp = now;
  }

  abbrev pub complete_event : RequestMeta → ℕ → Usage → ℕ → LogEvent
  complete_event meta status u micro = record (log_event "request.complete" "info" now) {
    tenant_id = meta.caller_id;
    agent_id = meta.agent;
    model = meta.model;
    project_name = meta.project_name;
    prompt_tokens = u.prompt_tokens;
    completion_tokens = u.completion_tokens;
    cost_micro_usd = micro;
    status_code = status;
  }

  abbrev pub alert_event : RequestMeta → ℕ → ℕ → LogEvent
  alert_event meta status micro = record (log_event "cost_alert" "warn" now) {
    tenant_id = meta.caller_id;
    agent_id = meta.agent;
    model = meta.model;
    project_name = meta.project_name;
    cost_micro_usd = micro;
    status_code = status;
  }

  -- `if thr := …; thr > 0 && cost >= thr`
  abbrev pub alerts : Option ℕ → ℕ → Bool
  alerts none micro = false
  alerts (some thr) micro = slt64 0 thr && not (slt64 micro thr)

  -- the part of `onCost` with prices and a store
  unfoldable pub record_cost : PriceSource → RequestMeta → ℕ → Usage → State D S → State D S
  unfolding check_budget cost
  record_cost p meta status u st =
      let micro = cost (p.price_for meta.model).0 u.prompt_tokens u.completion_tokens in
      let logged = record st { store = w.ledger.log_request (cost_record meta u micro) st.store } in
      let checked = check_budget logged in
      let completed =
        put w w.has_hub (Output.published (complete_event meta status u micro)) checked.outputs in
      record checked {
        outputs =
            put w (w.has_hub && alerts w.cost_threshold micro)
              (Output.published (alert_event meta status micro)) completed;
      }

  -- `onCost`, with the status of the response; `latency` is the time since the start in nanoseconds
  unfoldable pub on_cost : RequestMeta → ℕ → ℕ → Usage → State D S → State D S
  unfolding mark_forwarded record_cost
  on_cost meta status latency u st =
      let forwarded = record st {
        metrics =
            on_metrics (mark_forwarded now latency u.prompt_tokens u.completion_tokens) st.metrics;
      } in
      elim w.price [
        | none ↦ forwarded
        | some p ↦ if not w.has_store then forwarded else record_cost p meta status u forwarded
      ]
