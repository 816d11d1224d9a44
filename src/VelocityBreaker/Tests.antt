-- ===== src/VelocityBreaker/Tests.antt =====
-- velocity_breaker.go on concrete inputs, with natural numbers for the floats.
use finops_proxy.Prelude.{
  ℕ, ◌%◌, ◌^◌, ◌*◌, ◌≤◌, ◌≡◌, refl, [], ◌∷◌, arith, bytes_eq, bytes_discrete, ℕ_discrete, dec_le,
  dec_lt, pos, ltb,
}
use finops_proxy.GoMap.{lookup}
use finops_proxy.Detector.{AgentId, second}
use finops_proxy.Float.Naturals.{naturals}
use finops_proxy.VelocityBreaker.{
  TokenEvent, VelocityState, VelocityConfig, VelocityBreaker, append, append_ring, expire, trim,
  empty_state, observe, reset, new_velocity_breaker, short_window_or,
}
use finops_proxy.VelocityBreaker.Ring.{observation}
use finops_proxy.VelocityBreaker.Sums.{total}
use finops_proxy.VelocityBreaker.Window
use finops_proxy.VelocityBreaker.Window.{still_live, append_all}
use finops_proxy.VelocityBreaker.Check.{observe_all}
use finops_proxy.VelocityBreaker.ColdStart
use finops_proxy.VelocityBreaker.Incident
use finops_proxy.VelocityBreaker.Incident.{first_blocks}
use finops_proxy.VelocityBreaker.Capacity.{IsValid}

runs : Unit {0}
unfolding append append_ring expire trim still_live append_all total lookup reset bytes_discrete
    ℕ_discrete dec_le dec_lt new_velocity_breaker short_window_or
runs = tt

abbrev cfg : VelocityConfig ℕ
cfg = record {
  window = 30 * second;
  short_window = 5 * second;
  burst_tokens = 1000;
  spike_factor = 5;
  max_entries = 2;
}

-- 300 tokens after one second and 400 after two
abbrev first : TokenEvent
first = observation second 300

abbrev next : TokenEvent
next = observation (2 * second) 400

append_all-total_example :
    ((append
        (33 * second)
        500
        (30 * second)
        (5 * second)
        (append_all (30 * second) (5 * second) (first ∷ next ∷ []) empty_state)).sum_long
      ≡ total (
          still_live
            (30 * second)
            (33 * second)
            (first ∷ next ∷ observation (33 * second) 500 ∷ []))
        % 2 ^ 64)
    × ((append
          (33 * second)
          500
          (30 * second)
          (5 * second)
          (append_all (30 * second) (5 * second) (first ∷ next ∷ []) empty_state)).sum_short
        ≡ total (
            still_live
              (5 * second)
              (33 * second)
              (first ∷ next ∷ observation (33 * second) 500 ∷ []))
          % 2 ^ 64)
unfolding runs
append_all-total_example =
    Window.append_all-total (30 * second) (5 * second) (33 * second) 500 (first ∷ next ∷ [])
      (omega arith) (omega arith, (omega arith, tt))
      (
        omega arith,
        (omega arith, (omega arith, tt)),
        (omega arith, (omega arith, tt), (omega arith, tt, tt)),
      )
      (omega arith) (omega arith)

-- the first sum has run down to the last observation
sums_example :
    (append
      (33 * second)
      500
      (30 * second)
      (5 * second)
      (append_all (30 * second) (5 * second) (first ∷ next ∷ []) empty_state)).sum_long
    ≡ 500
unfolding runs
sums_example = refl

observe_all_cold_example :
    (observe cfg (3 * second) 500 (observe_all cfg (first ∷ next ∷ []) empty_state)).1.block
    ≡ ltb 1000 (total (first ∷ next ∷ observation (3 * second) 500 ∷ []))
unfolding runs
observe_all_cold_example =
    ColdStart.observe_all_cold cfg (3 * second) 500 first (next ∷ []) (omega arith) (omega arith)
      (
        omega arith,
        (omega arith, (omega arith, tt)),
        (omega arith, (omega arith, tt), (omega arith, tt, tt)),
      )
      (omega arith) (omega arith) (omega arith)

first_blocks-velocity_example : first_blocks cfg (first ∷ next ∷ []) empty_state ≤ 1
first_blocks-velocity_example =
    Incident.first_blocks-velocity cfg second (first ∷ next ∷ []) empty_state (omega arith)
      (omega arith, (omega arith, tt)) (omega arith, (omega arith, tt))

abbrev a : AgentId
a = 97 ∷ []

abbrev b : AgentId
b = 98 ∷ []

abbrev st_a : VelocityState
st_a = record empty_state { first_at = second; last_at = 9 }

abbrev st_b : VelocityState
st_b = record empty_state { first_at = second; last_at = 4 }

abbrev full : VelocityBreaker ℕ
full = record { cfg = cfg; states = (a, st_a) ∷ (b, st_b) ∷ [] }

full-IsValid : IsValid full
unfolding runs
full-IsValid = record {
  positive = omega arith;
  bounded = omega arith;
  distinct = (refl, (refl, tt));
}

-- a window of one second and no short window
abbrev narrow : VelocityBreaker ℕ
unfolding new_velocity_breaker short_window_or
narrow = new_velocity_breaker (pos second) (pos 0) (pos 0) 0 (pos 0)

-- The short window is longer than the window.
short_window_example : (narrow.cfg.window ≡ second) × (narrow.cfg.short_window ≡ 5 * second)
unfolding runs narrow
short_window_example = (refl, refl)
