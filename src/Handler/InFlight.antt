-- ===== src/Handler/InFlight.antt =====
-- The gauge of the requests in flight.
use finops_proxy.Prelude.{ℕ, ◌^◌, ◌<◌, ◌≡◌, refl, ap, arith, Option, none, some, not, ◌||◌, Bytes}
use finops_proxy.Metrics.{Metrics, mark_start, mark_done, mark_loop_blocked, record_trigger}
use finops_proxy.Caller.{Caller}
use finops_proxy.Handler.{
  Wiring, State, Request, Response, Exceeded, on_metrics, read_body, is_empty, is_above,
  budget_gate, write_budget_exceeded, consult,
}
use finops_proxy.Handler.Serve.{block_request, inspect, after_read, after_gate, handle, serve_http}
use finops_proxy.Handler.Flow.{if_case}

abbrev pub in_flight : Option Metrics → Option ℕ
in_flight none = none
in_flight (some m) = some m.active

abbrev pub InRange : Option Metrics → Type 0
InRange none = Unit
InRange (some m) = m.active < 2 ^ 64

done_after_start :
    (before after : Option Metrics)
    → InRange before
    → in_flight after ≡ in_flight (on_metrics mark_start before)
    → in_flight (on_metrics mark_done after) ≡ in_flight before
unfolding mark_start mark_done
done_after_start none none h e = refl
done_after_start none (some a) h e = absurd (ground arith)
done_after_start (some b) none h e = absurd (ground arith)
done_after_start (some b) (some a) h e = ground arith

blocked_in_flight :
    (f : Metrics → Metrics) (m : Option Metrics)
    → ((x : Metrics) → (f x).active ≡ x.active)
    → in_flight (on_metrics f m) ≡ in_flight m
blocked_in_flight f none h = refl
blocked_in_flight f (some m) h = ap some (h m)

module _ {D S : Type 0} (w : Wiring D S) (now : ℕ) (r : Request) where
  abbrev pub Steady : State D S → State D S × Response → Type 0
  Steady st out = in_flight out.0.metrics ≡ in_flight st.metrics

  inspect-Steady : (body : Bytes) (st : State D S) → Steady st (inspect w now r body st)
  unfolding inspect block_request mark_loop_blocked record_trigger
  inspect-Steady body st =
      if_case (consult w r.agent (w.fingerprint body) body now st.detector).1.block _ _ (Steady st)
        (λ blocked. blocked_in_flight _ st.metrics (λ x. refl)) (λ passed. refl)

  after_read-Steady :
      (body : Option Bytes) (st : State D S) → Steady st (after_read w now r body st)
  unfolding after_read
  after_read-Steady none st = refl
  after_read-Steady (some body) st = inspect-Steady body st

  write_budget_exceeded-Steady :
      (c : Option Caller) (e : Exceeded) (st : State D S)
      → Steady st (write_budget_exceeded w now c e st)
  unfolding write_budget_exceeded
  write_budget_exceeded-Steady none e st = refl
  write_budget_exceeded-Steady (some c) e st = refl

  after_gate-Steady :
      (gate : Option Exceeded) (st : State D S) → Steady st (after_gate w now r gate st)
  unfolding after_gate
  after_gate-Steady (some e) st = write_budget_exceeded-Steady r.caller e st
  after_gate-Steady none st =
      if_case (is_above w.max_body_bytes r.content_length) _ _ (Steady st) (λ above. refl)
        (λ below. after_read-Steady (read_body w.max_body_bytes r.body) st)

  handle-Steady : (st : State D S) → Steady st (handle w now r st)
  unfolding handle
  handle-Steady st =
      if_case (not r.is_post || is_empty r.content_length) _ _ (Steady st) (λ free. refl)
        (λ checked. after_gate-Steady (budget_gate w now r.caller st.store) st)

  -- Whatever becomes of a request, the gauge of requests in flight is afterwards what it was before,
  -- if it was in range.
  pub in_flight-serve_http :
      (st : State D S)
      → InRange st.metrics
      → in_flight (serve_http w now r st).0.metrics ≡ in_flight st.metrics
  unfolding serve_http
  in_flight-serve_http st h =
      let started = record st { metrics = on_metrics mark_start st.metrics } in
      done_after_start st.metrics (handle w now r started).0.metrics h (handle-Steady started)
