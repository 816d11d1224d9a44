-- ===== src/Registry.antt =====
-- pkg/pricing/registry.go and the configuration in fetcher.go: the owner of the table of prices that
-- is served, and its refreshes. A fetch and the hook are outcomes that a refresh is given; `E` is
-- the type of their errors, and a pointer to a table that may be nil an Option.
pub mod Delay
pub mod Merge
pub mod Refresh
pub mod Outage
mod Tests
use finops_proxy.Prelude.{
  ℕ, zero, suc, ◌+◌, ◌-◌, ◌*◌, ◌⊎◌, inl, inr, Bool, true, false, not, ◌&&◌, Option, none, some,
  List, [], ◌∷◌, Bytes, bytes, bytes_eq, if◌then◌else◌, ltb, ◌==◌, ℤ, positive_or, mul64, slt64,
}
use finops_proxy.Detector.{second}
use finops_proxy.GoMap.{Map, insert}
use finops_proxy.Pricing.{ModelPrice, Pricing}

-- `Config`: with N = ℤ as it is given, with N = ℕ after `normalizeConfig`. The refresh interval, of
-- which zero and less mean no refreshes, is a 64-bit pattern.
pub record Config (N : Type 0) : Type 0 where
  pub pricing_path : Bytes
  pub endpoint : Bytes
  pub api_key : Bytes
  pub user_agent : Bytes
  pub refresh_interval : ℕ
  pub startup_timeout : N
  pub http_timeout : N
  pub backoff_base : N
  pub backoff_max : N
  pub stale_after : N
  pub hard_fail_on_empty : Bool
  pub max_body_bytes : N

-- `if x == "" { x = d }`
abbrev pub text_or : Bytes → Bytes → Bytes
text_or d [] = d
text_or d (c ∷ x) = c ∷ x

unfoldable pub normalize_config : Config ℤ → Config ℕ
normalize_config cfg = record {
  pricing_path = text_or (bytes "config/pricing.json") cfg.pricing_path;
  endpoint = cfg.endpoint;
  api_key = cfg.api_key;
  user_agent = text_or (bytes "finops-proxy/1.0 (openrouter-fetcher)") cfg.user_agent;
  refresh_interval = cfg.refresh_interval;
  startup_timeout = positive_or (3 * second) cfg.startup_timeout;
  http_timeout = positive_or (30 * second) cfg.http_timeout;
  backoff_base = positive_or (10 * second) cfg.backoff_base;
  backoff_max = positive_or (300 * second) cfg.backoff_max;
  stale_after = positive_or (86400 * second) cfg.stale_after;
  hard_fail_on_empty = cfg.hard_fail_on_empty;
  max_body_bytes = positive_or 8388608 cfg.max_body_bytes;
}

pub data SourceKind : Type 0 where
  source_static : SourceKind
  source_live : SourceKind
  source_stale : SourceKind

-- `failed` is an error of the fetcher or of the hook.
pub data RefreshFailure (E : Type 0) : Type 0 where
  no_fetcher : RefreshFailure E
  empty_table : RefreshFailure E
  failed : E → RefreshFailure E

pub record Registry (F E : Type 0) : Type 0 where
  pub cur : Pricing F
  pub base : Pricing F
  pub has_fetcher : Bool
  pub cfg : Config ℕ
  pub on_sync : Option (Map Bytes ModelPrice → E ⊎ Pricing F)
  pub kind : SourceKind
  pub last_sync : ℕ
  pub last_err : Option (RefreshFailure E)
  pub fails : ℕ

abbrev pub Outcome : Type 0 → Type 0 → Type 0
Outcome F E = Registry F E × Option (RefreshFailure E)

-- `if r.kind != SourceStatic { r.kind = SourceStale }`
abbrev pub stale_kind : SourceKind → SourceKind
stale_kind source_static = source_static
stale_kind source_live = source_stale
stale_kind source_stale = source_stale

-- `for k, v := range models { merged[k] = v }`
unfoldable pub overlay : Map Bytes ModelPrice → Map Bytes ModelPrice → Map Bytes ModelPrice
unfolding insert
overlay merged [] = merged
overlay merged ((k, v) ∷ models) = overlay (insert k v merged) models

-- `for i := 1; i < fails && backoff < BackoffMax; i++ { backoff *= 2 }`, with the rounds left
unfoldable pub double_backoff : ℕ → ℕ → ℕ → ℕ
double_backoff zero max backoff = backoff
double_backoff (suc n) max backoff =
    let rest = double_backoff n max (mul64 backoff 2) in if slt64 backoff max then rest else backoff

-- `if backoff > BackoffMax { backoff = BackoffMax }` and the cap by the interval after it
abbrev pub cap_delay : ℕ → ℕ → ℕ → ℕ
cap_delay interval max backoff =
    let capped = if slt64 max backoff then max else backoff in
    if slt64 capped interval then capped else interval

-- `if tbl != nil { r.cur = tbl }`
abbrev pub table_or : {F : Type 0} → Pricing F → Option (Pricing F) → Pricing F
table_or cur none = cur
table_or cur (some tbl) = tbl

module _ {F E : Type 0} where
  unfoldable pub new_registry : Pricing F → Bool → Config ℤ → Registry F E
  unfolding normalize_config
  new_registry base has_fetcher cfg = record {
    cur = base;
    base = base;
    has_fetcher = has_fetcher;
    cfg = normalize_config cfg;
    on_sync = none;
    kind = source_static;
    last_sync = 0;
    last_err = none;
    fails = 0;
  }

  unfoldable pub refresh_failed : RefreshFailure E → Registry F E → Outcome F E
  refresh_failed err r =
      (record r { last_err = some err; fails = r.fails + 1; kind = stale_kind r.kind }, some err)

  unfoldable pub merge : Map Bytes ModelPrice → Registry F E → Pricing F
  unfolding overlay
  merge models r = record r.base { models = overlay (overlay [] r.base.models) models }

  -- a hook that returns no error returns a table
  unfoldable pub table_of : Map Bytes ModelPrice → Registry F E → E ⊎ Pricing F
  unfolding merge
  table_of models r = elim r.on_sync [ none ↦ inr (merge models r) | some hook ↦ hook models ]

  -- the part of `refresh` after the merge
  unfoldable pub install : E ⊎ Pricing F → ℕ → Registry F E → Outcome F E
  unfolding refresh_failed
  install (inl e) now r = refresh_failed (failed e) r
  install (inr tbl) now r = (
    record r { cur = tbl; last_sync = now; last_err = none; fails = 0; kind = source_live },
    none,
  )

  -- the part of `refresh` after the fetch
  unfoldable pub adopt : E ⊎ Map Bytes ModelPrice → ℕ → Registry F E → Outcome F E
  unfolding refresh_failed table_of install
  adopt (inl e) now r = refresh_failed (failed e) r
  adopt (inr []) now r = refresh_failed empty_table r
  adopt (inr (entry ∷ models)) now r = install (table_of (entry ∷ models) r) now r

  unfoldable pub refresh : E ⊎ Map Bytes ModelPrice → ℕ → Registry F E → Outcome F E
  unfolding adopt
  refresh fetched now r =
      if not r.has_fetcher
      then (record r { last_err = some no_fetcher; fails = r.fails + 1 }, some no_fetcher)
      else adopt fetched now r

  -- `bootstrap`: the fetch at the start, its error logged and dropped
  unfoldable pub bootstrap : E ⊎ Map Bytes ModelPrice → ℕ → Registry F E → Registry F E
  unfolding refresh
  bootstrap fetched now r = if not r.has_fetcher then r else (refresh fetched now r).0

  abbrev pub bootstrapped : Registry F E → Bool
  bootstrapped r = not (r.last_sync == 0)

  -- the condition under which `Start` starts the loop
  abbrev pub starts : Registry F E → Bool
  starts r = r.has_fetcher && slt64 0 r.cfg.refresh_interval

  -- the rounds of the timer
  unfoldable pub ticks : List ((E ⊎ Map Bytes ModelPrice) × ℕ) → Registry F E → Registry F E
  unfolding refresh
  ticks [] r = r
  ticks ((fetched, now) ∷ rest) r = ticks rest (refresh fetched now r).0

  -- `loop`, until it is stopped: a first fetch unless there was one, then the rounds
  unfoldable pub refresh_loop :
      E ⊎ Map Bytes ModelPrice
      → ℕ
      → List ((E ⊎ Map Bytes ModelPrice) × ℕ)
      → Registry F E
      → Registry F E
  unfolding refresh ticks
  refresh_loop fetched now rounds r =
      ticks rounds (if not (bootstrapped r) then (refresh fetched now r).0 else r)

  unfoldable pub set_on_sync :
      Option (Map Bytes ModelPrice → E ⊎ Pricing F) → Registry F E → Registry F E
  set_on_sync hook r = record r { on_sync = hook }

  unfoldable pub replace : Option (Pricing F) → Registry F E → Registry F E
  replace tbl r = record r { cur = table_or r.cur tbl }

  unfoldable pub replace_live : Option (Pricing F) → ℕ → Registry F E → Registry F E
  replace_live tbl last_sync r = record r {
    cur = table_or r.cur tbl;
    last_sync = last_sync;
    last_err = none;
    fails = 0;
    kind = source_live;
  }

  unfoldable pub next_delay : Registry F E → ℕ
  unfolding double_backoff
  next_delay r =
      if ltb 0 r.fails
      then cap_delay r.cfg.refresh_interval r.cfg.backoff_max
          (double_backoff (r.fails - 1) r.cfg.backoff_max r.cfg.backoff_base)
      else r.cfg.refresh_interval
