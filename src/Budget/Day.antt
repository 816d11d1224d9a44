-- ===== src/Budget/Day.antt =====
-- The alerts of one UTC day.
use finops_proxy.Prelude.{
  ℕ, ◌+◌, ◌≡◌, ◌≢◌, refl, sym, ap, ◌∙◌, arith, Bool, true, false, not, ◌&&◌, ◌||◌, List, [], ◌∷◌,
  ◌++◌, if◌then◌else◌, ◌==◌, Bytes, bytes_eq, equals, slt64, All, length, subst,
}
use finops_proxy.GoMap.{lookup}
use finops_proxy.Budget.{BudgetEvent, BudgetMonitor, is_set, Fired, cross_all, spend}
use finops_proxy.Budget.Thresholds.{member, IsDistinct}
use finops_proxy.Budget.Daily.{count_level, one_if, reached, delivered, tally, hit, cross_all_once}

count_level-append :
    (pct : ℕ) (xs ys : List BudgetEvent)
    → count_level pct (xs ++ ys) ≡ count_level pct xs + count_level pct ys
unfolding count_level
count_level-append pct [] ys = omega arith
count_level-append pct (x ∷ xs) ys = ground (arith, count_level-append pct xs ys)

-- some spend reaches the threshold
unfoldable pub any_reached : ℕ → ℕ → List (ℕ × ℕ) → Bool
any_reached budget pct [] = false
any_reached budget pct ((spent, now) ∷ spends) =
    let rest = any_reached budget pct spends in reached budget pct spent || rest

equals_yes : (x y : Bytes) → x ≡ y → equals x y ≡ true
equals_yes x y h = ground arith

equals_no : (x y : Bytes) → x ≢ y → equals x y ≡ false
equals_no x y h = ground arith

hit_then :
    (r b rest : Bool)
    → (hit r (b, 0)).1 + one_if (rest && not (hit r (b, 0)).0) ≡ one_if ((r || rest) && not b)
hit_then true true true = omega arith
hit_then true true false = omega arith
hit_then true false true = omega arith
hit_then true false false = omega arith
hit_then false true true = omega arith
hit_then false true false = omega arith
hit_then false false true = omega arith
hit_then false false false = omega arith

and_true : (b : Bool) → one_if (b && true) ≡ one_if b
and_true true = refl
and_true false = refl

-- a monitor that watches a threshold
pub record Watches (pct : ℕ) (m : BudgetMonitor) : Type 0 where
  pub positive : slt64 0 m.daily_budget_micro ≡ true
  pub distinct : IsDistinct m.thresholds
  pub listed : member pct m.thresholds ≡ true

module _ (day_of : ℕ → Bytes) where
  -- the spends of a day with their times, one after the other, and all events
  unfoldable pub spend_all : List (ℕ × ℕ) → BudgetMonitor → BudgetMonitor × List BudgetEvent
  unfolding spend
  spend_all [] m = (m, [])
  spend_all ((spent, now) ∷ spends) m =
      let first = spend day_of delivered spent now m in
      let later = spend_all spends first.0 in (later.0, first.1 ++ later.1)

  fired_at : ℕ → BudgetMonitor → Fired
  fired_at now m = (if equals (day_of now) m.day_key then m.fired else [], [])

  after_spend : ℕ → ℕ → BudgetMonitor → Fired
  after_spend spent now m =
      cross_all delivered m.daily_budget_micro spent now m.thresholds (fired_at now m)

  not_empty : (pct : ℕ) (ps : List ℕ) → member pct ps ≡ true → length ps == 0 ≡ false
  unfolding member
  not_empty pct [] h = absurd (ground arith)
  not_empty pct (p ∷ ps) h = ground arith

  spend_active :
      (pct spent now : ℕ) (m : BudgetMonitor)
      → Watches pct m
      → spend day_of delivered spent now m ≡ (
        record m { day_key = day_of now; fired = (after_spend spent now m).0 },
        (after_spend spent now m).1,
      )
  unfolding spend after_spend fired_at
  spend_active pct spent now m h = rw (spend, h.positive, not_empty pct m.thresholds h.listed) refl

  tally-after_spend :
      (pct spent now : ℕ) (m : BudgetMonitor)
      → Watches pct m
      → tally pct (after_spend spent now m)
        ≡ hit (reached m.daily_budget_micro pct spent) (is_set pct (fired_at now m).0, 0)
  unfolding after_spend fired_at count_level
  tally-after_spend pct spent now m h =
      cross_all_once m.daily_budget_micro spent now pct m.thresholds (fired_at now m) h.distinct
        h.listed

  Watches-after :
      (pct spent now : ℕ) (m : BudgetMonitor)
      → Watches pct m
      → Watches pct (record m { day_key = day_of now; fired = (after_spend spent now m).0 })
  Watches-after pct spent now m h = record {
    positive = h.positive;
    distinct = h.distinct;
    listed = h.listed;
  }

  -- the first spend of a sequence, and the others
  first_and_rest :
      (pct spent now : ℕ) (spends : List (ℕ × ℕ)) (m : BudgetMonitor) (b : Bool)
      → Watches pct m
      → is_set pct (fired_at now m).0 ≡ b
      → ((next : BudgetMonitor)
          → Watches pct next
          → next.day_key ≡ day_of now
          → next.daily_budget_micro ≡ m.daily_budget_micro
          → count_level pct (spend_all spends next).1
            ≡ one_if (any_reached m.daily_budget_micro pct spends && not (is_set pct next.fired)))
      → count_level pct (spend_all ((spent, now) ∷ spends) m).1
        ≡ one_if (any_reached m.daily_budget_micro pct ((spent, now) ∷ spends) && not b)
  unfolding spend_all any_reached
  first_and_rest pct spent now spends m b h e rest =
      let active = spend_active pct spent now m h in
      let r = reached m.daily_budget_micro pct spent in
      let t : tally pct (after_spend spent now m) ≡ hit r (b, 0) =
        tally-after_spend pct spent now m h ∙ ap (λ x. hit r (x, 0)) e in
      let next = record m { day_key = day_of now; fired = (after_spend spent now m).0 } in
      let later = rest next (Watches-after pct spent now m h) refl refl in
      ap (λ out. count_level pct (out.1 ++ (spend_all spends out.0).1)) active
      ∙ count_level-append pct (after_spend spent now m).1 (spend_all spends next).1
      ∙ ap (λ n. count_level pct (after_spend spent now m).1 + n) later
      ∙ ap (λ x. x.1 + one_if (any_reached m.daily_budget_micro pct spends && not x.0)) t
      ∙ hit_then r b (any_reached m.daily_budget_micro pct spends)

  fired_today :
      (now : ℕ) (m : BudgetMonitor) → day_of now ≡ m.day_key → (fired_at now m).0 ≡ m.fired
  unfolding fired_at
  fired_today now m e = rw (equals_yes (day_of now) m.day_key e) refl

  fired_before : (now : ℕ) (m : BudgetMonitor) → day_of now ≢ m.day_key → (fired_at now m).0 ≡ []
  unfolding fired_at
  fired_before now m e = rw (equals_no (day_of now) m.day_key e) refl

  same_day :
      (pct : ℕ) (day : Bytes) (spends : List (ℕ × ℕ)) (m : BudgetMonitor)
      → Watches pct m
      → m.day_key ≡ day
      → All (λ s. day_of s.1 ≡ day) spends
      → count_level pct (spend_all spends m).1
        ≡ one_if (any_reached m.daily_budget_micro pct spends && not (is_set pct m.fired))
  unfolding spend_all any_reached count_level
  same_day pct day [] m h k on_day = refl
  same_day pct day ((spent, now) ∷ spends) m h k on_day =
      first_and_rest pct spent now spends m (is_set pct m.fired) h
        (ap (is_set pct) (fired_today now m (on_day.0 ∙ sym k)))
        (λ next w today budget.
          subst
            (λ n.
              count_level pct (spend_all spends next).1
              ≡ one_if (any_reached n pct spends && not (is_set pct next.fired)))
            budget (same_day pct day spends next w (today ∙ on_day.0) on_day.1))

  -- On a UTC day that the monitor has not seen, the threshold of a positive budget fires exactly
  -- once if some spend of the day reaches it, and not at all if none does, however many spends there
  -- are, if every delivery succeeds.
  pub spend_all_once :
      (pct : ℕ) (day : Bytes) (spends : List (ℕ × ℕ)) (m : BudgetMonitor)
      → Watches pct m
      → m.day_key ≢ day
      → All (λ s. day_of s.1 ≡ day) spends
      → count_level pct (spend_all spends m).1
        ≡ one_if (any_reached m.daily_budget_micro pct spends)
  unfolding spend_all any_reached count_level lookup
  spend_all_once pct day [] m h k on_day = refl
  spend_all_once pct day ((spent, now) ∷ spends) m h k on_day =
      first_and_rest pct spent now spends m false h
        (ap (is_set pct) (fired_before now m (λ e. k (sym e ∙ on_day.0))))
        (λ next w today budget.
          subst
            (λ n.
              count_level pct (spend_all spends next).1
              ≡ one_if (any_reached n pct spends && not (is_set pct next.fired)))
            budget (same_day pct day spends next w (today ∙ on_day.0) on_day.1))
      ∙ and_true (any_reached m.daily_budget_micro pct ((spent, now) ∷ spends))
