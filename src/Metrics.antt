-- ===== src/Metrics.antt =====
-- pkg/proxy/metrics.go: the counters, the tokens of the last seconds and the last triggers. An int64 is
-- its 64-bit pattern, a time is in Unix seconds, and the ring of the seconds is a list of its buckets.
pub mod Buckets
pub mod Seconds
pub mod Series
pub mod Triggers
mod Tests
use finops_proxy.Prelude.{
  ℕ, zero, suc, ◌+◌, ◌-◌, ◌*◌, ◌/◌, ◌%◌, ◌^◌, Option, none, some, Bool, true, false, not, List, [],
  ◌∷◌, ◌++◌, reverse, Bytes, String, if◌then◌else◌, ltb, leb, length, last, add64, sub64, slt64,
  quotient64,
}
use finops_proxy.Float.{Float64}

abbrev pub velocity_buckets : ℕ
velocity_buckets = 64

abbrev pub velocity_window : ℕ
velocity_window = 5

abbrev pub trigger_cap : ℕ
trigger_cap = 100

-- `buckets[i]`, and `buckets[i] = v`, of an index in range
unfoldable pub bucket : ℕ → List ℕ → ℕ
bucket i [] = 0
bucket zero (x ∷ xs) = x
bucket (suc i) (x ∷ xs) = bucket i xs

unfoldable pub set_bucket : ℕ → ℕ → List ℕ → List ℕ
set_bucket i v [] = []
set_bucket zero v (x ∷ xs) = v ∷ xs
set_bucket (suc i) v (x ∷ xs) = x ∷ set_bucket i v xs

pub record TokenWindow : Type 0 where
  pub buckets : List ℕ
  pub latest : ℕ

-- the zero value of the ring
unfoldable pub zeros : ℕ → List ℕ
zeros zero = []
zeros (suc n) = 0 ∷ zeros n

abbrev pub empty_window : TokenWindow
unfolding zeros
empty_window = record { buckets = zeros velocity_buckets; latest = 0 }

-- `for i := first; i <= sec; i++ { buckets[i%64] = 0 }`, with the number of rounds
unfoldable pub clear : ℕ → ℕ → List ℕ → List ℕ
unfolding set_bucket
clear zero i buckets = buckets
clear (suc n) i buckets = clear n (i + 1) (set_bucket (i % velocity_buckets) 0 buckets)

unfoldable pub advance : ℕ → TokenWindow → TokenWindow
unfolding clear
advance sec w =
    let first =
      if ltb velocity_buckets (sec - w.latest) then sec - velocity_buckets + 1 else w.latest + 1 in
    if leb sec w.latest
    then w
    else record { buckets = clear (sec + 1 - first) first w.buckets; latest = sec }

unfoldable pub add : ℕ → ℕ → TokenWindow → TokenWindow
unfolding advance bucket set_bucket
add sec tokens w =
    let at = advance sec w in
    let i = sec % velocity_buckets in
    if not (slt64 0 tokens)
    then w
    else record at { buckets = set_bucket i (add64 (bucket i at.buckets) tokens) at.buckets }

-- the loop of `velocity`, from `sec` back, with the rounds left; it stops after second 0
unfoldable pub sum_back : ℕ → ℕ → ℕ → List ℕ → ℕ
unfolding bucket
sum_back zero sec sum buckets = sum
sum_back (suc n) zero sum buckets = add64 sum (bucket (zero % velocity_buckets) buckets)
sum_back (suc n) (suc sec) sum buckets =
    sum_back n sec (add64 sum (bucket (suc sec % velocity_buckets) buckets)) buckets

unfoldable pub velocity : {F : Type 0} ⦃fl : Float64 F⦄ → ℕ → TokenWindow → TokenWindow × F
unfolding advance sum_back
velocity ⦃fl⦄ sec w =
    let at = advance sec w in
    (
      at,
      fl.quotient (fl.of_int64 (sum_back velocity_window sec 0 at.buckets))
          (fl.literal velocity_window),
    )

pub record TokenPoint : Type 0 where
  pub second : ℕ
  pub tokens : ℕ

-- the loop of `series`, for the ages i - 1 down to 0; a second before 0 is left out
unfoldable pub points : ℕ → ℕ → List ℕ → List TokenPoint
unfolding bucket
points zero sec buckets = []
points (suc i) sec buckets =
    let rest = points i sec buckets in
    if ltb sec i
    then rest
    else record { second = sec - i; tokens = bucket ((sec - i) % velocity_buckets) buckets } ∷ rest

unfoldable pub series : ℕ → TokenWindow → TokenWindow × List TokenPoint
unfolding advance points
series sec w = let at = advance sec w in (at, points velocity_buckets sec at.buckets)

pub record TriggerEvent : Type 0 where
  pub timestamp : ℕ
  pub agent_id : Bytes
  pub model : Bytes
  pub reason : String
  pub saved_micro : ℕ

-- `triggerRing.push`: the last hundred
unfoldable pub push : TriggerEvent → List TriggerEvent → List TriggerEvent
push ev ring =
    let longer = ring ++ (ev ∷ []) in
    if ltb trigger_cap (length longer) then last trigger_cap longer else longer

-- `triggerRing.snapshot`: newest first
abbrev pub newest_first : List TriggerEvent → List TriggerEvent
newest_first ring = reverse ring

pub record Metrics : Type 0 where
  pub active : ℕ
  pub requests : ℕ
  pub loop_blocks : ℕ
  pub saved_cost : ℕ
  pub latency_ns : ℕ
  pub latency_n : ℕ
  pub tokens : TokenWindow
  pub triggers : List TriggerEvent
  pub started : ℕ

abbrev pub new_metrics : ℕ → Metrics
unfolding zeros
new_metrics now = record {
  active = 0;
  requests = 0;
  loop_blocks = 0;
  saved_cost = 0;
  latency_ns = 0;
  latency_n = 0;
  tokens = empty_window;
  triggers = [];
  started = now;
}

unfoldable pub mark_start : Metrics → Metrics
mark_start m = record m { active = add64 m.active 1 }

unfoldable pub mark_done : Metrics → Metrics
mark_done m = record m { active = sub64 m.active 1 }

unfoldable pub mark_loop_blocked : ℕ → ℕ → ℕ → Metrics → Metrics
unfolding add
mark_loop_blocked now saved prompt_tok m = record m {
  loop_blocks = add64 m.loop_blocks 1;
  saved_cost = add64 m.saved_cost saved;
  tokens = add now prompt_tok m.tokens;
}

unfoldable pub mark_forwarded : ℕ → ℕ → ℕ → ℕ → Metrics → Metrics
unfolding add
mark_forwarded now latency prompt_tok completion_tok m = record m {
  requests = add64 m.requests 1;
  latency_ns = add64 m.latency_ns latency;
  latency_n = add64 m.latency_n 1;
  tokens = add now (add64 prompt_tok completion_tok) m.tokens;
}

unfoldable pub record_trigger : TriggerEvent → Metrics → Metrics
unfolding push
record_trigger t m = record m { triggers = push t m.triggers }

-- the average latency of `Snapshot`, in microseconds
unfoldable pub average_latency : Metrics → ℕ
average_latency m =
    if slt64 0 m.latency_n then quotient64 (quotient64 m.latency_ns m.latency_n) 1000 else 0
