-- ===== src/Budget/Tests.antt =====
-- budget.go on concrete inputs. The key of a day is its number.
use finops_proxy.Prelude.{
  ℕ, ◌/◌, ◌≡◌, refl, List, [], ◌∷◌, arith, Bytes, bytes_eq, bytes_discrete, ℕ_discrete, dec_lt,
  dec_le, ℤ, pos, negsuc,
}
use finops_proxy.GoMap.{lookup, insert}
use finops_proxy.Budget.{
  BudgetMonitor, new_budget_monitor, sanitize_thresholds, collect, sort_numbers, insert_number,
  spend, cross, cross_all,
}
use finops_proxy.Budget.Thresholds.{member, given_in}
use finops_proxy.Budget.Daily.{count_level, one_if}
use finops_proxy.Budget.Day
use finops_proxy.Budget.Day.{spend_all, any_reached, Watches}

runs : Unit {0}
unfolding lookup insert new_budget_monitor sanitize_thresholds collect sort_numbers insert_number
    spend cross cross_all member given_in count_level spend_all any_reached bytes_discrete
    ℕ_discrete dec_lt dec_le
runs = tt

abbrev given : List ℤ
given = pos 100 ∷ pos 80 ∷ negsuc 0 ∷ pos 80 ∷ pos 101 ∷ pos 50 ∷ pos 0 ∷ []

sanitized : sanitize_thresholds given ≡ 50 ∷ 80 ∷ 100 ∷ []
unfolding runs
sanitized = refl

abbrev monitor : BudgetMonitor
monitor = record {
  daily_budget_micro = 1000;
  thresholds = 50 ∷ 80 ∷ 100 ∷ [];
  day_key = [];
  fired = [];
}

abbrev day_of : ℕ → Bytes
day_of now = now / 86400 ∷ []

watched : Watches 80 monitor
unfolding runs
watched = record { positive = refl; distinct = (refl, (refl, (refl, tt))); listed = refl }

-- 80 percent are reached twice
spend_all_once_example :
    count_level 80 (spend_all day_of ((500, 10) ∷ (800, 20) ∷ (900, 30) ∷ []) monitor).1
    ≡ one_if (any_reached 1000 80 ((500, 10) ∷ (800, 20) ∷ (900, 30) ∷ []))
unfolding runs
spend_all_once_example =
    Day.spend_all_once day_of 80 (0 ∷ []) ((500, 10) ∷ (800, 20) ∷ (900, 30) ∷ []) monitor watched
      (λ e. ground arith) (refl, (refl, (refl, tt)))

-- on the next day it fires again
next_day : count_level 80 (spend_all day_of ((800, 20) ∷ (800, 86400) ∷ []) monitor).1 ≡ 2
unfolding runs
next_day = refl
