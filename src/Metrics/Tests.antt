-- ===== src/Metrics/Tests.antt =====
-- metrics.go on concrete inputs.
use finops_proxy.Prelude.{
  ℕ, ◌≡◌, refl, List, [], ◌∷◌, arith, bytes, length, dec_lt, dec_le, ℕ_discrete,
}
use finops_proxy.Float.Naturals.{naturals}
use finops_proxy.Metrics.{
  velocity_buckets, TriggerEvent, zeros, empty_window, new_metrics, bucket, set_bucket, clear,
  advance, add, sum_back, velocity, points, series, push, mark_start, mark_done, mark_loop_blocked,
  mark_forwarded, record_trigger, average_latency,
}
use finops_proxy.Metrics.Seconds.{total_at}
use finops_proxy.Metrics.Series
use finops_proxy.Metrics.Series.{totals, add_all, newest_last}
use finops_proxy.Metrics.Triggers.{push_all}

runs : Unit {0}
unfolding zeros empty_window new_metrics bucket set_bucket clear advance add sum_back velocity
    points series push mark_start mark_done mark_loop_blocked mark_forwarded record_trigger
    average_latency total_at totals add_all push_all dec_lt dec_le ℕ_discrete
runs = tt

abbrev obs : List (ℕ × ℕ)
obs = (100, 30) ∷ (100, 12) ∷ (130, 0) ∷ (163, 5) ∷ []

series-totals_example :
    (series 163 (add_all obs empty_window)).1 ≡ totals velocity_buckets 163 (newest_last obs [])
series-totals_example =
    Series.series-totals 163 obs
      (omega arith, (omega arith, (omega arith, (omega arith, omega arith))))

-- one second later the first second is gone
gone : length (series 164 (add_all obs empty_window)).1 ≡ 64
unfolding runs
gone = refl

rate : (velocity {F = ℕ} 164 (add_all obs empty_window)).1 ≡ 1
unfolding runs
rate = refl

abbrev trigger : ℕ → TriggerEvent
trigger n = record {
  timestamp = n;
  agent_id = bytes "a";
  model = [];
  reason = "loop";
  saved_micro = 7;
}

average :
    average_latency (mark_done (mark_forwarded 9 3000000 1 2 (mark_start (new_metrics 0)))) ≡ 3000
unfolding runs
average = refl
