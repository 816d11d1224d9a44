-- ===== src/Handler/Stops.antt =====
-- A caller whose budget is used up is stopped.
use finops_proxy.Prelude.{
  ℕ, ◌≡◌, refl, sym, ap, ◌∙◌, Option, none, some, Option-cases, inl, inr, true, false, List, [],
  ◌∷◌, All, String, subst, slt64, max, ◌-◌,
}
use finops_proxy.Budget.{utc_day_start, next_day_start}
use finops_proxy.Caller.{Caller}
use finops_proxy.Metrics.{mark_start}
use finops_proxy.Handler.{
  Wiring, State, Request, Response, budget_exceeded, Exceeded, on_metrics, over_budget, is_empty,
  budget_gate, write_budget_exceeded,
}
use finops_proxy.Handler.Serve.{after_gate, handle, serve_http}

-- the answer of an exhausted budget
abbrev pub IsStop : Response → Type 0
IsStop response =
    (reason : String) × (retry_after : ℕ) × (response ≡ budget_exceeded reason retry_after)

module _ {D S : Type 0} (w : Wiring D S) where
  -- the requests that come in one after the other, with their times, and the answers
  unfoldable pub serve_all : List (ℕ × Request) → State D S → State D S × List Response
  unfolding serve_http
  serve_all [] st = (st, [])
  serve_all ((now, r) ∷ rest) st =
      let first = serve_http w now r st in
      let later = serve_all rest first.0 in (later.0, first.1 ∷ later.1)

  -- a POST with a body from the caller, on the UTC day that starts at `day`
  pub record OnDay (c : Caller) (day : ℕ) (t : ℕ × Request) : Type 0 where
    pub posted : t.1.is_post ≡ true
    pub nonempty : is_empty t.1.content_length ≡ false
    pub from_caller : t.1.caller ≡ some c
    pub today : utc_day_start t.0 ≡ day

  -- the caller has used up the daily budget, and the ledger knows
  pub record IsSpent (c : Caller) (day : ℕ) (s : S) : Type 0 where
    pub wired : w.has_ledger ≡ true
    pub limited : slt64 0 c.daily_budget_micro ≡ true
    pub spent : ℕ
    pub read : w.ledger.sum_actual_cost_for_key_since c.id day s ≡ some spent
    pub reached : slt64 spent c.daily_budget_micro ≡ false

  daily_over :
      (c : Caller) (day n : ℕ) (s : S) (p : IsSpent c day s) (reason : String)
      → over_budget c.daily_budget_micro
          (w.ledger.sum_actual_cost_for_key_since c.id day s)
          n
          reason
        ≡ some record { spent = p.spent; retry_after = n; reason = reason }
  unfolding over_budget
  daily_over c day n s p reason = rw (p.read, over_budget, p.limited, p.reached) refl

  gate_stops :
      (c : Caller) (now : ℕ) (s : S)
      → IsSpent c (utc_day_start now) s
      → (e : Exceeded) × (budget_gate w now (some c) s ≡ some e)
  unfolding budget_gate
  gate_stops c now s p =
      let monthly =
        over_budget c.monthly_budget_micro
          (w.ledger.sum_actual_cost_for_key_since c.id (w.utc_month_start now) s)
          (w.next_month_start now - now) "Monthly budget exceeded" in
      elim (Option-cases monthly) [
        | inl e ↦ (
          record {
            spent = p.spent;
            retry_after = next_day_start now - now;
            reason = "Daily budget exceeded";
          },
          rw (budget_gate, p.wired, e)
              (daily_over c (utc_day_start now) (next_day_start now - now) s p
                "Daily budget exceeded"),
        )
        | inr (m, e) ↦ (m, rw (budget_gate, p.wired, e) refl)
      ]

  -- what a stopped request leaves as it was
  pub record Stopped (st : State D S) (out : State D S × Response) : Type 0 where
    pub answer : IsStop out.1
    pub store : out.0.store ≡ st.store
    pub detector : out.0.detector ≡ st.detector

  write_stops :
      (now : ℕ) (c : Option Caller) (e : Exceeded) (st : State D S)
      → Stopped st (write_budget_exceeded w now c e st)
  unfolding write_budget_exceeded
  write_stops now none e st = record {
    answer = (e.reason, max 1 e.retry_after, refl);
    store = refl;
    detector = refl;
  }
  write_stops now (some c) e st = record {
    answer = (e.reason, max 1 e.retry_after, refl);
    store = refl;
    detector = refl;
  }

  after_gate_stops :
      (now : ℕ) (r : Request) (e : Exceeded) (st : State D S)
      → Stopped st (after_gate w now r (some e) st)
  unfolding after_gate
  after_gate_stops now r e st = write_stops now r.caller e st

  handle_checked :
      (now : ℕ) (r : Request) (st : State D S)
      → r.is_post ≡ true
      → is_empty r.content_length ≡ false
      → handle w now r st ≡ after_gate w now r (budget_gate w now r.caller st.store) st
  unfolding handle
  handle_checked now r st posted nonempty = rw (handle, posted, nonempty) refl

  handle_stops :
      (c : Caller) (now : ℕ) (r : Request) (st : State D S)
      → OnDay c (utc_day_start now) (now, r)
      → IsSpent c (utc_day_start now) st.store
      → Stopped st (handle w now r st)
  handle_stops c now r st t p =
      let gate = gate_stops c now st.store p in
      let stop : budget_gate w now r.caller st.store ≡ some gate.0 =
        ap (λ caller. budget_gate w now caller st.store) t.from_caller ∙ gate.1 in
      let answer : handle w now r st ≡ after_gate w now r (some gate.0) st =
        handle_checked now r st t.posted t.nonempty ∙ ap (λ g. after_gate w now r g st) stop in
      subst (Stopped st) (sym answer) (after_gate_stops now r gate.0 st)

  serve_stops :
      (c : Caller) (now : ℕ) (r : Request) (st : State D S)
      → OnDay c (utc_day_start now) (now, r)
      → IsSpent c (utc_day_start now) st.store
      → Stopped st (serve_http w now r st)
  unfolding serve_http
  serve_stops c now r st t p =
      let stopped =
        handle_stops c now r (record st { metrics = on_metrics mark_start st.metrics }) t p in
      record { answer = stopped.answer; store = stopped.store; detector = stopped.detector }

  -- Once the ledger has the caller's spend of a day at the daily budget or above, every POST with a
  -- body of that caller on that day is answered 429, at any time and in any number. None is
  -- forwarded, and neither the ledger nor the detector changes.
  pub serve_all-stops :
      (c : Caller) (day : ℕ) (requests : List (ℕ × Request)) (st : State D S)
      → All (OnDay c day) requests
      → IsSpent c day st.store
      → All IsStop (serve_all requests st).1
        × ((serve_all requests st).0.store ≡ st.store)
        × ((serve_all requests st).0.detector ≡ st.detector)
  unfolding serve_all
  serve_all-stops c day [] st h p = (tt, refl, refl)
  serve_all-stops c day ((now, r) ∷ rest) st (t, ts) p =
      let first =
        serve_stops c now r st (subst (λ d. OnDay c d (now, r)) (sym t.today) t)
          (subst (λ d. IsSpent c d st.store) (sym t.today) p) in
      let later =
        serve_all-stops c day rest (serve_http w now r st).0 ts
          (subst (IsSpent c day) (sym first.store) p) in
      ((first.answer, later.0), later.1 ∙ first.store, later.2 ∙ first.detector)
