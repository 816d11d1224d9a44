-- ===== src/Budget.antt =====
-- pkg/proxy/budget.go: the alerts on the daily spend, and the boundaries of the budgets' windows. Money
-- is an int64, kept as its 64-bit pattern, and a time is in Unix seconds.
pub mod Thresholds
pub mod Daily
pub mod Day
mod Tests
use finops_proxy.Prelude.{
  ℕ, zero, suc, ◌+◌, ◌*◌, ◌/◌, Option, none, some, Bool, true, false, not, ◌&&◌, ◌||◌, List, [],
  ◌∷◌, ◌++◌, Bytes, bytes_eq, equals, if◌then◌else◌, ltb, ◌==◌, ℤ, pos, negsuc, mul64, quotient64,
  slt64, length, Eq, ℕ_discrete,
}
use finops_proxy.GoMap.{Map, lookup, insert}

-- an `int` as the key of a map
instance abbrev pub number_eq : Eq ℕ
number_eq = record { decide = ℕ_discrete }

-- the fields of `Event` in notifier.go that a budget_level event sets
pub record BudgetEvent : Type 0 where
  pub timestamp : ℕ
  pub budget_micro_usd : ℕ
  pub spent_micro_usd : ℕ
  pub threshold_pct : ℕ

pub record BudgetConfig : Type 0 where
  pub daily_budget_micro : ℕ
  pub thresholds : List ℤ

pub record BudgetMonitor : Type 0 where
  pub daily_budget_micro : ℕ
  pub thresholds : List ℕ
  pub day_key : Bytes
  pub fired : Map ℕ Bool

abbrev pub or_false : Option Bool → Bool
or_false none = false
or_false (some b) = b

-- `m[k]` of a map of Booleans
abbrev pub is_set : ℕ → Map ℕ Bool → Bool
unfolding lookup
is_set k m = or_false (lookup k m)

-- the loop of `sanitizeThresholds`
unfoldable pub collect : Map ℕ Bool → List ℕ → List ℤ → List ℕ
unfolding insert lookup
collect seen out [] = out
collect seen out (negsuc n ∷ given) = collect seen out given
collect seen out (pos p ∷ given) =
    let skipped = collect seen out given in
    let added = collect (insert p true seen) (out ++ (p ∷ [])) given in
    if p == 0 || ltb 100 p || is_set p seen then skipped else added

-- `sort.Ints`
unfoldable pub insert_number : ℕ → List ℕ → List ℕ
insert_number p [] = p ∷ []
insert_number p (q ∷ qs) = let rest = insert_number p qs in if ltb q p then q ∷ rest else p ∷ q ∷ qs

unfoldable pub sort_numbers : List ℕ → List ℕ
unfolding insert_number
sort_numbers [] = []
sort_numbers (p ∷ ps) = insert_number p (sort_numbers ps)

unfoldable pub sanitize_thresholds : List ℤ → List ℕ
unfolding collect sort_numbers
sanitize_thresholds given = sort_numbers (collect [] [] given)

unfoldable pub new_budget_monitor : BudgetConfig → BudgetMonitor
unfolding sanitize_thresholds
new_budget_monitor cfg = record {
  daily_budget_micro = cfg.daily_budget_micro;
  thresholds = if slt64 0 cfg.daily_budget_micro then sanitize_thresholds cfg.thresholds else [];
  day_key = [];
  fired = [];
}

-- the thresholds that have fired, and the events that were emitted
abbrev pub Fired : Type 0
Fired = Map ℕ Bool × List BudgetEvent

abbrev pub threshold_micro : ℕ → ℕ → ℕ
threshold_micro budget pct = quotient64 (mul64 budget pct) 100

module _ (emit : BudgetEvent → Bool) (budget spent now : ℕ) where
  abbrev pub level_event : ℕ → BudgetEvent
  level_event pct = record {
    timestamp = now;
    budget_micro_usd = budget;
    spent_micro_usd = spent;
    threshold_pct = pct;
  }

  -- the body of the loop of `Spend`
  unfoldable pub cross : ℕ → Fired → Fired
  unfolding insert
  cross pct (fired, events) =
      if is_set pct fired
      then (fired, events)
      else if slt64 spent (threshold_micro budget pct)
      then (fired, events)
      else (
        if emit (level_event pct) then insert pct true fired else fired,
        events ++ (level_event pct ∷ []),
      )

  unfoldable pub cross_all : List ℕ → Fired → Fired
  unfolding cross
  cross_all [] st = st
  cross_all (pct ∷ pcts) st = cross_all pcts (cross pct st)

-- `Spend`, with the events handed to `emit`. `day_of` is `now.UTC().Format("2006-01-02")`.
unfoldable pub spend :
    (ℕ → Bytes) → (BudgetEvent → Bool) → ℕ → ℕ → BudgetMonitor → BudgetMonitor × List BudgetEvent
unfolding cross_all
spend day_of emit spent now m =
    let fired = if equals (day_of now) m.day_key then m.fired else [] in
    let after = cross_all emit m.daily_budget_micro spent now m.thresholds (fired, []) in
    if length m.thresholds == 0 || not (slt64 0 m.daily_budget_micro)
    then (m, [])
    else (record m { day_key = day_of now; fired = after.0 }, after.1)

-- `utcDayStart` and `nextDayStart`: a UTC day has 86400 seconds of Unix time
abbrev pub utc_day_start : ℕ → ℕ
utc_day_start now = now / 86400 * 86400

abbrev pub next_day_start : ℕ → ℕ
next_day_start now = (now / 86400 + 1) * 86400
