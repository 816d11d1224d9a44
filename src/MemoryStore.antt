-- ===== src/MemoryStore.antt =====
-- internal/store/memory/memory.go: the request log, the budget ledger, the settings and the callers in
-- memory. A method is one step; int64 numbers are 64-bit patterns. `Caller` is the type of the callers.
pub mod Ledger
mod Tests
use finops_proxy.Prelude.{
  ℕ, ◌+◌, Option, none, some, Bool, true, false, ◌||◌, not, List, [], ◌∷◌, ◌++◌, Bytes, bytes_eq,
  equals, if◌then◌else◌, add64, slt64,
}
use finops_proxy.GoMap.{Map, lookup, insert}

-- `RequestRecord` of pkg/proxy/store.go
pub record RequestRecord : Type 0 where
  pub agent_id : Bytes
  pub key_id : Bytes
  pub project_name : Bytes
  pub model : Bytes
  pub prompt_tokens : ℕ
  pub completion_tokens : ℕ
  pub cost_usd : ℕ
  pub is_loop_blocked : Bool
  pub timestamp : ℕ

-- `SettingsRow` of pkg/proxy/store.go
pub record SettingsRow : Type 0 where
  pub loop_threshold_count : ℕ
  pub cost_alert_threshold_micro : ℕ

pub record Store (Caller : Type 0) : Type 0 where
  pub logs : List RequestRecord
  pub settings : SettingsRow
  pub have_set : Bool
  pub callers : Map Bytes Caller

abbrev pub default_loop_threshold : ℕ
default_loop_threshold = 2

abbrev pub new : {Caller : Type 0} → Store Caller
new = record {
  logs = [];
  settings = record { loop_threshold_count = 0; cost_alert_threshold_micro = 0 };
  have_set = false;
  callers = [];
}

unfoldable pub set : {Caller : Type 0} → Bytes → Caller → Store Caller → Store Caller
unfolding insert
set hash c s = record s { callers = insert hash c s.callers }

-- `none` is ErrInvalidKey
unfoldable pub caller_by_key_hash : {Caller : Type 0} → Bytes → Store Caller → Option Caller
unfolding lookup
caller_by_key_hash hash s = lookup hash s.callers

unfoldable pub log_request : {Caller : Type 0} → RequestRecord → Store Caller → Store Caller
log_request r s = record s { logs = s.logs ++ (r ∷ []) }

-- the loop over the log: `if skip(r) { continue }; total += r.CostUSD`
unfoldable pub sum_from : (RequestRecord → Bool) → ℕ → List RequestRecord → ℕ
sum_from skip total [] = total
sum_from skip total (r ∷ rs) = sum_from skip (if skip r then total else add64 total r.cost_usd) rs

unfoldable pub sum_actual_cost_since : {Caller : Type 0} → ℕ → Store Caller → ℕ
unfolding sum_from
sum_actual_cost_since since s =
    sum_from (λ r. r.is_loop_blocked || slt64 r.timestamp since) 0 s.logs

unfoldable pub sum_actual_cost_for_key_since : {Caller : Type 0} → Bytes → ℕ → Store Caller → ℕ
unfolding sum_from
sum_actual_cost_for_key_since key_id since s =
    sum_from (λ r. (r.is_loop_blocked || slt64 r.timestamp since) || not (equals r.key_id key_id)) 0
      s.logs

unfoldable pub get_settings : {Caller : Type 0} → Store Caller → SettingsRow
get_settings s =
    if not s.have_set
    then record { loop_threshold_count = default_loop_threshold; cost_alert_threshold_micro = 0 }
    else s.settings

unfoldable pub update_settings : {Caller : Type 0} → SettingsRow → Store Caller → Store Caller
update_settings row s = record s { settings = row; have_set = true }
