-- ===== src/Handler/Bills.antt =====
-- The spend of a caller after any sequence of requests and completed calls.
use finops_proxy.Prelude.{
  ℕ, ◌≡◌, refl, ap, ◌∙◌, Option, none, some, true, not, ◌||◌, List, [], ◌∷◌, Bytes, bytes_eq,
  equals, if◌then◌else◌, add64, slt64,
}
use finops_proxy.Pricing.{cost}
use finops_proxy.MemoryStore.{Store, sum_actual_cost_for_key_since}
use finops_proxy.MemoryStore.Ledger.{log_request_sums}
use finops_proxy.Metrics.{mark_forwarded}
use finops_proxy.Budget.{BudgetMonitor, utc_day_start}
use finops_proxy.UsageObserver.{Usage}
use finops_proxy.Handler.{PriceSource, Wiring, State, Request, RequestMeta, on_metrics}
use finops_proxy.Handler.Serve.{serve_http}
use finops_proxy.Handler.Costs.{spend_budget, check_budget, record_cost, on_cost}
use finops_proxy.Handler.Flow.{if_case}
use finops_proxy.Handler.Spending.{memory_ledger, log_row, serve_http-Unspent}

-- what happens at the handler: a request comes in, or the body of a forwarded one is done
pub data Step : Type 0 where
  served : ℕ → Request → Step
  completed : ℕ → RequestMeta → ℕ → ℕ → Usage → Step

module _ {D C : Type 0} (w : Wiring D (Store C)) where
  unfoldable pub step : Step → State D (Store C) → State D (Store C)
  unfolding serve_http on_cost
  step (Step.served now r) st = (serve_http w now r st).0
  step (Step.completed now meta status latency u) st = on_cost w now meta status latency u st

  unfoldable pub run : List Step → State D (Store C) → State D (Store C)
  unfolding step
  run [] st = st
  run (s ∷ ss) st = run ss (step s st)

  -- what a completed call adds to the spend of a caller since a time
  abbrev pub add_bill : PriceSource → Bytes → ℕ → Step → ℕ → ℕ
  add_bill p key since (Step.served now r) total = total
  add_bill p key since (Step.completed now meta status latency u) total =
      if slt64 now since || not (equals meta.caller_id key)
      then total
      else add64 total (cost (p.price_for meta.model).0 u.prompt_tokens u.completion_tokens)

  unfoldable pub add_bills : PriceSource → Bytes → ℕ → List Step → ℕ → ℕ
  add_bills p key since [] total = total
  add_bills p key since (s ∷ ss) total = add_bills p key since ss (add_bill p key since s total)

  module _ (memory : w.ledger ≡ memory_ledger) (p : PriceSource) (priced : w.price ≡ some p)
      (wired : w.has_store ≡ true) (key : Bytes) (since : ℕ) where
    spend_budget_store :
        (now : ℕ) (m : Option BudgetMonitor) (spent : Option ℕ) (st : State D (Store C))
        → (spend_budget w now m spent st).store ≡ st.store
    unfolding spend_budget
    spend_budget_store now none spent st = refl
    spend_budget_store now (some m) none st = refl
    spend_budget_store now (some m) (some spent) st = refl

    check_budget_store :
        (now : ℕ) (st : State D (Store C)) → (check_budget w now st).store ≡ st.store
    unfolding check_budget
    check_budget_store now st =
        if_case (not w.has_notifier || not w.has_ledger) _ _
          (λ (t : State D (Store C)). t.store ≡ st.store) (λ unwired. refl)
          (λ both.
            spend_budget_store now st.budget
              (w.ledger.sum_actual_cost_since (utc_day_start now) st.store) st)

    -- the spend of the caller in a state
    abbrev pub spent_in : State D (Store C) → ℕ
    spent_in st = sum_actual_cost_for_key_since key since st.store

    record_cost_spent :
        (now : ℕ) (meta : RequestMeta) (status : ℕ) (u : Usage) (st : State D (Store C))
        → spent_in (record_cost w now p meta status u st) ≡ (
            if slt64 now since || not (equals meta.caller_id key)
            then spent_in st
            else add64
                (spent_in st)
                (cost (p.price_for meta.model).0 u.prompt_tokens u.completion_tokens))
    unfolding record_cost
    record_cost_spent now meta status u st =
        ap (sum_actual_cost_for_key_since key since) (
          check_budget_store now (record st { store = w.ledger.log_request _ st.store })
          ∙ log_row w memory _ st.store)
        ∙ (log_request_sums since key _ st.store).1

    on_cost_wired :
        (now : ℕ) (meta : RequestMeta) (status latency : ℕ) (u : Usage) (st : State D (Store C))
        → on_cost w now meta status latency u st
          ≡ record_cost w now p meta status u (record st {
            metrics =
                on_metrics
                  (mark_forwarded now latency u.prompt_tokens u.completion_tokens)
                  st.metrics;
          })
    unfolding on_cost
    on_cost_wired now meta status latency u st = rw (on_cost, priced, wired) refl

    step_spent :
        (s : Step) (st : State D (Store C))
        → spent_in (step s st) ≡ add_bill p key since s (spent_in st)
    unfolding step
    step_spent (Step.served now r) st = serve_http-Unspent w memory key since now r st
    step_spent (Step.completed now meta status latency u) st =
        ap spent_in (on_cost_wired now meta status latency u st)
        ∙ record_cost_spent now meta status u _

    -- After any sequence of requests, blocked, stopped or forwarded, and of completed calls, on the
    -- store in memory and with prices: the spend of a caller since a time is what it was, and the
    -- costs of the caller's calls that completed since then. A request itself adds nothing.
    pub run_spent :
        (ss : List Step) (st : State D (Store C))
        → spent_in (run ss st) ≡ add_bills p key since ss (spent_in st)
    unfolding run add_bills
    run_spent [] st = refl
    run_spent (s ∷ ss) st =
        run_spent ss (step s st) ∙ ap (add_bills p key since ss) (step_spent s st)
