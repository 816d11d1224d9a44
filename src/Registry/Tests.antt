-- ===== src/Registry/Tests.antt =====
-- registry.go on concrete inputs, with natural numbers for the floats and for the errors.
use finops_proxy.Prelude.{
  ℕ, ◌-◌, ◌*◌, ◌^◌, min, ◌≡◌, ◌⊎◌, inl, inr, refl, true, none, some, List, [], ◌∷◌, arith, Bytes,
  bytes, bytes_eq, bytes_discrete, ℕ_discrete, dec_lt, dec_le, length, ℤ, pos,
}
use finops_proxy.Detector.{second}
use finops_proxy.GoMap.{Map, lookup, insert}
use finops_proxy.Pricing.{ModelPrice, Pricing}
use finops_proxy.Registry.{
  Registry, Config, source_stale, new_registry, normalize_config, refresh_failed, overlay, merge,
  table_of, install, adopt, refresh, ticks, bootstrap, refresh_loop, next_delay, double_backoff,
  set_on_sync, replace, replace_live,
}
use finops_proxy.Registry.Refresh
use finops_proxy.Registry.Refresh.{Event, IsConsistent, step, run}
use finops_proxy.Registry.Outage
use finops_proxy.Registry.Outage.{FailedSince}

runs : Unit {0}
unfolding lookup insert overlay merge table_of install adopt refresh refresh_failed ticks bootstrap
    refresh_loop new_registry normalize_config next_delay double_backoff set_on_sync replace
    replace_live step run bytes_discrete ℕ_discrete dec_lt dec_le
runs = tt

abbrev price : ℕ → ModelPrice
price n = record { input_usd = n; output_usd = 2 * n }

abbrev seed : Pricing ℕ
seed = record {
  assumed_completion_tokens = 0;
  chars_per_token = 4;
  models = (bytes "gpt", price 1) ∷ (bytes "claude", price 2) ∷ [];
  default_price = price 9;
}

abbrev given : Config ℤ
given = record {
  pricing_path = [];
  endpoint = bytes "https://openrouter.ai/api/v1/models";
  api_key = [];
  user_agent = [];
  refresh_interval = 21600 * second;
  startup_timeout = pos 0;
  http_timeout = pos 0;
  backoff_base = pos 0;
  backoff_max = pos 0;
  stale_after = pos 0;
  hard_fail_on_empty = true;
  max_body_bytes = pos 0;
}

abbrev Fetched : Type 0
Fetched = ℕ ⊎ Map Bytes ModelPrice

abbrev catalog : Map Bytes ModelPrice
catalog = (bytes "gpt", price 3) ∷ (bytes "gemini", price 4) ∷ []

abbrev first : Registry ℕ ℕ
first = new_registry seed true given

-- a success, then failures
abbrev live : Registry ℕ ℕ
live = (refresh (inr catalog) (7 * second) first).0

abbrev outage : List (Fetched × ℕ)
outage =
    (inl 503, 8 * second)
    ∷ (inr [], 18 * second)
    ∷ (inl 503, 38 * second)
    ∷ (inl 1, 78 * second)
    ∷ []

-- 10 s, doubled three times
backed_off : next_delay (ticks outage live) ≡ 80 * second
unfolding runs
backed_off = refl

abbrev events : List (Event ℕ ℕ)
events =
    Event.refreshed (inl 503) second
    ∷ Event.hooked none
    ∷ Event.refreshed (inr catalog) (2 * second)
    ∷ Event.replaced (some seed)
    ∷ Event.refreshed (inr []) (3 * second)
    ∷ []

run-IsConsistent_example : IsConsistent (run events (new_registry seed true given))
run-IsConsistent_example = Refresh.run-IsConsistent events seed true given

stale_after_failure : (run events (new_registry seed true given)).kind ≡ source_stale
unfolding runs
stale_after_failure = refl

ticks_outage_example :
    FailedSince (length outage) live (ticks outage live)
    × (next_delay (ticks outage live)
        ≡ min live.cfg.refresh_interval
            (min live.cfg.backoff_max (live.cfg.backoff_base * 2 ^ (length outage - 1))))
unfolding runs
ticks_outage_example =
    Outage.ticks_outage outage live refl (refl, (refl, (refl, (refl, tt)))) (omega arith) refl
      (omega arith) (omega arith) (omega arith)

-- the loop fetches at once if there was no success yet
looped : (refresh_loop (inr catalog) second outage (bootstrap (inl 0) 1 first)).fails ≡ 4
unfolding runs
looped = refl
