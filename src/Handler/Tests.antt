-- ===== src/Handler/Tests.antt =====
-- The handler on concrete inputs: the exact-hash detector, a table of prices and the store in memory.
use finops_proxy.Prelude.{
  ℕ, ◌+◌, ◌*◌, ◌/◌, ◌≡◌, refl, true, false, none, some, List, [], ◌∷◌, All, arith, Bytes, bytes,
  bytes_eq, bytes_discrete, ℕ_discrete, dec_lt, dec_le, pos, negsuc,
}
use finops_proxy.Float.Naturals.{naturals}
use finops_proxy.GoMap.{lookup, insert, delete, evict, oldest_from}
use finops_proxy.Detector.{second, ceil_div_second, reason_exact_hash}
use finops_proxy.HashDetector
use finops_proxy.HashDetector.{HashDetector, new_hash_detector, key_discrete}
use finops_proxy.Pricing.{
  Pricing, price_for, estimate_prompt_tokens, estimate_tokens, saved_cost, cost, longest_from,
  longer_prefix, has_prefix,
}
use finops_proxy.MemoryStore
use finops_proxy.MemoryStore.{Store, RequestRecord}
use finops_proxy.Metrics.{Metrics}
use finops_proxy.Caller.{Caller}
use finops_proxy.UsageObserver.{Usage}
use finops_proxy.Handler.{
  Detecting, PriceSource, Wiring, State, Request, RequestMeta, rewound, loop_blocked, over_budget,
  budget_gate, write_budget_exceeded, consult,
}
use finops_proxy.Handler.Serve.{
  serve_http, meta_of, handle, after_gate, after_read, inspect, block_request,
}
use finops_proxy.Handler.Costs.{on_cost, record_cost, check_budget, spend_budget}
use finops_proxy.Handler.Flow
use finops_proxy.Handler.Spending.{memory_ledger}
use finops_proxy.Handler.Bills
use finops_proxy.Handler.Bills.{Step, run, step, add_bills}
use finops_proxy.Handler.Stops
use finops_proxy.Handler.Stops.{IsStop, OnDay, IsSpent, serve_all}
use finops_proxy.Handler.InFlight
use finops_proxy.Handler.InFlight.{in_flight}

-- the clock of the detector counts nanoseconds
abbrev hashing : Detecting HashDetector
hashing = record {
  check = λ agent fp now d. HashDetector.check agent fp (now * second) d;
  check_payload = none;
  reset = λ agent d. HashDetector.reset agent d;
}

runs : Unit {0}
unfolding lookup insert delete evict oldest_from HashDetector.check HashDetector.repeat
    HashDetector.open_window HashDetector.count_repeat HashDetector.evict_if_needed ceil_div_second
    new_hash_detector key_discrete price_for estimate_prompt_tokens estimate_tokens saved_cost cost
    longest_from longer_prefix has_prefix MemoryStore.log_request
    MemoryStore.sum_actual_cost_for_key_since MemoryStore.sum_from serve_http handle after_gate
    after_read inspect block_request budget_gate over_budget write_budget_exceeded consult serve_all
    on_cost record_cost check_budget spend_budget run step add_bills bytes_discrete ℕ_discrete
    dec_lt dec_le
runs = tt

abbrev table : Pricing ℕ
table = record {
  assumed_completion_tokens = 500;
  chars_per_token = 4;
  models = [];
  default_price = record { input_usd = 1000000; output_usd = 3000000 };
}

abbrev priced : PriceSource
priced = record {
  price_for = λ model. price_for model table;
  estimate_prompt_tokens = λ body. estimate_prompt_tokens body table;
  saved_cost = λ body. saved_cost (λ b. none) body table;
  assumed_completion_tokens = 500;
}

-- months of 30 days
abbrev wiring : Wiring HashDetector (Store Caller)
wiring = record {
  detecting = hashing;
  ledger = memory_ledger;
  price = some priced;
  has_store = true;
  has_ledger = true;
  has_incidents = false;
  has_notifier = false;
  loop_gate = none;
  has_hub = true;
  has_emitter = false;
  cost_threshold = none;
  max_body_bytes = 100;
  fingerprint = λ body. body;
  extract_model = λ body. [];
  utc_month_start = λ now. now / 2592000 * 2592000;
  next_month_start = λ now. (now / 2592000 + 1) * 2592000;
  day_of = λ now. now / 86400 ∷ [];
}

abbrev alice : Caller
alice = record {
  id = bytes "alice";
  name = bytes "Alice";
  monthly_budget_micro = 0;
  daily_budget_micro = 700;
}

abbrev counters : Metrics
counters = record {
  active = 3;
  requests = 0;
  loop_blocks = 0;
  saved_cost = 0;
  latency_ns = 0;
  latency_n = 0;
  tokens = record { buckets = []; latest = 0 };
  triggers = [];
  started = 0;
}

abbrev start : State HashDetector (Store Caller)
start = record {
  detector = new_hash_detector (100 * second) (pos 2);
  store = MemoryStore.new;
  metrics = some counters;
  budget = none;
  outputs = [];
}

abbrev post : Bytes → Request
post body = record {
  is_post = true;
  content_length = negsuc 0;
  agent = bytes "a";
  project = [];
  caller = some alice;
  body = some body;
}

abbrev hello : Bytes
hello = bytes "hello"

-- the same body again is answered 429
blocked_again :
    (serve_all wiring ((90000, post hello) ∷ (90001, post hello) ∷ []) start).1
    ≡ rewound hello (meta_of wiring 90000 (post hello) wiring.price hello)
      ∷ loop_blocked reason_exact_hash 99
      ∷ []
unfolding runs
blocked_again = refl

in_flight-serve_http_example :
    in_flight (serve_http wiring 90000 (post hello) start).0.metrics ≡ in_flight start.metrics
in_flight-serve_http_example =
    InFlight.in_flight-serve_http wiring 90000 (post hello) start (omega arith)

abbrev used : Usage
used = record { prompt_tokens = 100; completion_tokens = 200 }

abbrev meta : RequestMeta
meta = record {
  model = [];
  prompt_tok = 2;
  agent = bytes "a";
  fp = hello;
  project_name = [];
  caller_id = bytes "alice";
  start = 90000;
}

-- the first call is paid, the second request is blocked
abbrev steps : List Step
steps =
    Step.served 90000 (post hello)
    ∷ Step.completed 90002 meta 200 1000 used
    ∷ Step.served 90003 (post hello)
    ∷ []

run_spent_example :
    MemoryStore.sum_actual_cost_for_key_since (bytes "alice") 86400 (run wiring steps start).store
    ≡ add_bills wiring priced
        (bytes "alice")
        86400
        steps
        (MemoryStore.sum_actual_cost_for_key_since (bytes "alice") 86400 start.store)
run_spent_example = Bills.run_spent wiring refl priced refl refl (bytes "alice") 86400 steps start

-- 100 tokens at 1 and 200 at 3
paid :
    MemoryStore.sum_actual_cost_for_key_since (bytes "alice") 86400 (run wiring steps start).store
    ≡ 700
unfolding runs
paid = refl

abbrev requests : List (ℕ × Request)
requests = (90010, post hello) ∷ (90011, post (bytes "new")) ∷ []

abbrev spent_store : State HashDetector (Store Caller)
spent_store = record start {
  store = record MemoryStore.new {
    logs =
        record {
          agent_id = [];
          key_id = bytes "alice";
          project_name = [];
          model = [];
          prompt_tokens = 0;
          completion_tokens = 0;
          cost_usd = 700;
          is_loop_blocked = false;
          timestamp = 90002;
        }
        ∷ [];
  };
}

all-IsSpent : IsSpent wiring alice 86400 spent_store.store
unfolding runs
all-IsSpent = record { wired = refl; limited = refl; spent = 700; read = refl; reached = refl }

serve_all-stops_example :
    All IsStop (serve_all wiring requests spent_store).1
    × ((serve_all wiring requests spent_store).0.store ≡ spent_store.store)
    × ((serve_all wiring requests spent_store).0.detector ≡ spent_store.detector)
serve_all-stops_example =
    Stops.serve_all-stops wiring alice 86400 requests spent_store
      (
        record { posted = refl; nonempty = refl; from_caller = refl; today = refl },
        (record { posted = refl; nonempty = refl; from_caller = refl; today = refl }, tt),
      )
      all-IsSpent
