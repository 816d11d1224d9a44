-- ===== src/Handler/Serve.antt =====
-- pkg/proxy/handler.go: the answer to a blocked request, `ServeHTTP`, and the deletion of a history.
use finops_proxy.Prelude.{
  ℕ, Option, none, some, true, not, ◌&&◌, ◌||◌, List, [], Bytes, if◌then◌else◌,
}
use finops_proxy.Detector.{AgentId, CheckResult}
use finops_proxy.Metrics.{TriggerEvent, mark_start, mark_done, mark_loop_blocked, record_trigger}
use finops_proxy.Events.{LogEvent, log_event, Event, PayloadEvent, IncidentInput, Output}
use finops_proxy.Handler.{
  PriceSource, Wiring, State, Request, RequestMeta, Response, untouched, rewound, too_large,
  loop_blocked, caller_id, saved_or_zero, prompt_or_zero, on_metrics, read_body, is_empty, is_above,
  put, loop_alerts_enabled, budget_gate, write_budget_exceeded, consult, Exceeded,
}

module _ {D S : Type 0} (w : Wiring D S) (now : ℕ) (r : Request) where
  -- the row of a blocked request, if prices and a store are wired
  abbrev pub log_saved : Option PriceSource → Bytes → ℕ → S → S
  log_saved none body cost s = s
  log_saved (some p) body cost s =
      if not w.has_store
      then s
      else w.ledger.log_request
          (record {
            agent_id = r.agent;
            key_id = caller_id r.caller;
            project_name = r.project;
            model = w.extract_model body;
            prompt_tokens = p.estimate_prompt_tokens body;
            completion_tokens = p.assumed_completion_tokens;
            cost_usd = cost;
            is_loop_blocked = true;
            timestamp = now;
          })
          s

  abbrev pub incident : Bytes → ℕ → IncidentInput
  incident body cost = record {
    agent_id = r.agent;
    key_id = caller_id r.caller;
    project_name = r.project;
    model = w.extract_model body;
    fingerprint = w.fingerprint body;
    cost_micro = cost;
  }

  -- the notification of a first block; the model and the cost are set if prices are wired
  abbrev pub first_block_event : Option PriceSource → Bytes → ℕ → CheckResult → Event
  first_block_event price body cost res = record {
    event_type = "loop_blocked";
    timestamp = now;
    agent_id = r.agent;
    project = r.project;
    model = elim price [ none ↦ [] | some p ↦ w.extract_model body ];
    saved_cost_micro = elim price [ none ↦ 0 | some p ↦ cost ];
    reason = res.reason;
    retry_after = res.retry_after;
    budget_micro_usd = 0;
    spent_micro_usd = 0;
    threshold_pct = 0;
  }

  abbrev pub blocked_event : Bytes → ℕ → CheckResult → LogEvent
  blocked_event body cost res = record (log_event "loop_blocked" "warn" now) {
    tenant_id = caller_id r.caller;
    agent_id = r.agent;
    model = w.extract_model body;
    project_name = r.project;
    saved_cost_micro_usd = cost;
    status_code = 429;
    first_block = res.first_block;
    reason = res.reason;
    retry_after = res.retry_after;
  }

  abbrev pub trigger : Bytes → ℕ → CheckResult → TriggerEvent
  trigger body cost res = record {
    timestamp = now;
    agent_id = r.agent;
    model = w.extract_model body;
    reason = res.reason;
    saved_micro = cost;
  }

  -- the outputs of a blocked request: the incident, the notification, the live log
  abbrev pub block_outputs : Bytes → ℕ → CheckResult → List Output → List Output
  unfolding loop_alerts_enabled
  block_outputs body cost res outputs =
      let with_incident = put w w.has_incidents (Output.recorded (incident body cost)) outputs in
      let with_alert =
        put w (res.first_block && loop_alerts_enabled w)
          (Output.notified (first_block_event w.price body cost res)) with_incident in
      put w w.has_hub (Output.published (blocked_event body cost res)) with_alert

  -- `if res.Block { … }`
  unfoldable pub block_request : Bytes → CheckResult → State D S → State D S × Response
  unfolding mark_loop_blocked record_trigger
  block_request body res st =
      let cost = saved_or_zero w.price body in
      (
        record st {
          store = log_saved w.price body cost st.store;
          metrics =
              on_metrics
                (λ m.
                  record_trigger (trigger body cost res)
                    (mark_loop_blocked now cost (prompt_or_zero w.price body) m))
                st.metrics;
          outputs = block_outputs body cost res st.outputs;
        },
        loop_blocked res.reason res.retry_after,
      )

  -- the metadata for the hook on the response, if prices and a store are wired
  abbrev pub meta_of : Option PriceSource → Bytes → Option RequestMeta
  meta_of none body = none
  meta_of (some p) body =
      if not w.has_store
      then none
      else some record {
        model = w.extract_model body;
        prompt_tok = p.estimate_prompt_tokens body;
        agent = r.agent;
        fp = w.fingerprint body;
        project_name = r.project;
        caller_id = caller_id r.caller;
        start = now;
      }

  abbrev pub payload_event : Bytes → PayloadEvent
  payload_event body = record {
    agent_id = r.agent;
    key_id = caller_id r.caller;
    project = r.project;
    model = w.extract_model body;
    fingerprint = w.fingerprint body;
    body = body;
    timestamp = now;
  }

  -- (d) to (f): the fingerprint, the payload's emission, the detector, and what follows
  unfoldable pub inspect : Bytes → State D S → State D S × Response
  unfolding consult block_request
  inspect body st =
      let emitted = put w w.has_emitter (Output.emitted (payload_event body)) st.outputs in
      let (detector, res) = consult w r.agent (w.fingerprint body) body now st.detector in
      let seen = record st { detector = detector; outputs = emitted } in
      if res.block then block_request body res seen else (seen, rewound body (meta_of w.price body))

  -- (c): a body that cannot be read is answered 413
  unfoldable pub after_read : Option Bytes → State D S → State D S × Response
  unfolding inspect
  after_read none st = (st, too_large)
  after_read (some body) st = inspect body st

  -- (b): an oversized body is not read
  unfoldable pub after_gate : Option Exceeded → State D S → State D S × Response
  unfolding after_read write_budget_exceeded
  after_gate (some e) st = write_budget_exceeded w now r.caller e st
  after_gate none st =
      if is_above w.max_body_bytes r.content_length
      then (st, untouched)
      else after_read (read_body w.max_body_bytes r.body) st

  -- (a) and the budgets' gate
  unfoldable pub handle : State D S → State D S × Response
  unfolding budget_gate after_gate
  handle st =
      if not r.is_post || is_empty r.content_length
      then (st, untouched)
      else after_gate (budget_gate w now r.caller st.store) st

  -- `ServeHTTP`, with the request counted as in flight until it returns
  unfoldable pub serve_http : State D S → State D S × Response
  unfolding mark_start mark_done handle
  serve_http st =
      let (after, response) = handle (record st { metrics = on_metrics mark_start st.metrics }) in
      (record after { metrics = on_metrics mark_done after.metrics }, response)

module _ {D S : Type 0} (w : Wiring D S) where
  -- the answer is 204, whatever the count
  unfoldable pub handle_delete_history : AgentId → State D S → State D S
  handle_delete_history agent st = record st { detector = (w.detecting.reset agent st.detector).0 }
