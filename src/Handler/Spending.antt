-- ===== src/Handler/Spending.antt =====
-- The handler on the store in memory: what the requests and the completed calls add to the spend.
use finops_proxy.Prelude.{ℕ, ◌≡◌, refl, ap, ◌∙◌, Option, none, some, not, ◌||◌, Bytes, bytes_eq}
use finops_proxy.MemoryStore.{
  RequestRecord, Store, log_request, sum_actual_cost_since, sum_actual_cost_for_key_since,
}
use finops_proxy.MemoryStore.Ledger.{log_request_sums}
use finops_proxy.Metrics.{mark_start}
use finops_proxy.Caller.{Caller}
use finops_proxy.Handler.{
  Ledger, PriceSource, Wiring, State, Request, Response, Exceeded, on_metrics, read_body, is_empty,
  is_above, budget_gate, write_budget_exceeded, consult,
}
use finops_proxy.Handler.Serve.{
  log_saved, block_request, inspect, after_read, after_gate, handle, serve_http,
}
use finops_proxy.Handler.Flow.{if_case}

-- internal/store/memory as the log and the ledger of the handler
abbrev pub memory_ledger : {C : Type 0} → Ledger (Store C)
memory_ledger = record {
  log_request = log_request;
  sum_actual_cost_since = λ since s. some (sum_actual_cost_since since s);
  sum_actual_cost_for_key_since = λ key since s. some (sum_actual_cost_for_key_since key since s);
}

module _ {D C : Type 0} (w : Wiring D (Store C)) (memory : w.ledger ≡ memory_ledger) where
  -- a state in which the caller has spent as much as in another
  abbrev pub SameSpend : Bytes → ℕ → Store C → Store C → Type 0
  SameSpend key since s t =
      sum_actual_cost_for_key_since key since s ≡ sum_actual_cost_for_key_since key since t

  pub log_row : (r : RequestRecord) (s : Store C) → w.ledger.log_request r s ≡ log_request r s
  log_row r s = ap (λ l. l.log_request r s) memory

  saved_row_costs_nothing :
      (key : Bytes) (since now : ℕ) (r : Request) (price : Option PriceSource) (body : Bytes)
      (micro : ℕ) (s : Store C)
      → SameSpend key since (log_saved w now r price body micro s) s
  saved_row_costs_nothing key since now r none body micro s = refl
  saved_row_costs_nothing key since now r (some p) body micro s =
      if_case (not w.has_store) _ _ (λ t. SameSpend key since t s) (λ unwired. refl)
        (λ wired.
          ap (sum_actual_cost_for_key_since key since) (log_row _ s)
          ∙ (log_request_sums since key _ s).1)

  module _ (key : Bytes) (since now : ℕ) (r : Request) where
    -- an outcome that leaves the spend alone
    abbrev pub Unspent : State D (Store C) → State D (Store C) × Response → Type 0
    Unspent st out = SameSpend key since out.0.store st.store

    inspect-Unspent : (body : Bytes) (st : State D (Store C)) → Unspent st (inspect w now r body st)
    unfolding inspect block_request
    inspect-Unspent body st =
        if_case (consult w r.agent (w.fingerprint body) body now st.detector).1.block _ _
          (Unspent st) (λ blocked. saved_row_costs_nothing key since now r w.price body _ st.store)
          (λ passed. refl)

    after_read-Unspent :
        (body : Option Bytes) (st : State D (Store C)) → Unspent st (after_read w now r body st)
    unfolding after_read
    after_read-Unspent none st = refl
    after_read-Unspent (some body) st = inspect-Unspent body st

    write_budget_exceeded-Unspent :
        (c : Option Caller) (e : Exceeded) (st : State D (Store C))
        → Unspent st (write_budget_exceeded w now c e st)
    unfolding write_budget_exceeded
    write_budget_exceeded-Unspent none e st = refl
    write_budget_exceeded-Unspent (some c) e st = refl

    after_gate-Unspent :
        (gate : Option Exceeded) (st : State D (Store C)) → Unspent st (after_gate w now r gate st)
    unfolding after_gate
    after_gate-Unspent (some e) st = write_budget_exceeded-Unspent r.caller e st
    after_gate-Unspent none st =
        if_case (is_above w.max_body_bytes r.content_length) _ _ (Unspent st) (λ above. refl)
          (λ below. after_read-Unspent (read_body w.max_body_bytes r.body) st)

    handle-Unspent : (st : State D (Store C)) → Unspent st (handle w now r st)
    unfolding handle
    handle-Unspent st =
        if_case (not r.is_post || is_empty r.content_length) _ _ (Unspent st) (λ free. refl)
          (λ checked. after_gate-Unspent (budget_gate w now r.caller st.store) st)

    pub serve_http-Unspent : (st : State D (Store C)) → Unspent st (serve_http w now r st)
    unfolding serve_http
    serve_http-Unspent st =
        handle-Unspent (record st { metrics = on_metrics mark_start st.metrics })
