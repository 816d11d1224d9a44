-- ===== src/Budget/Daily.antt =====
-- How often a threshold fires on a day.
use finops_proxy.Prelude.{
  ℕ, suc, ◌+◌, ◌≡◌, refl, sym, ap, ◌∙◌, arith, Bool, true, false, not, ◌||◌, List, [], ◌∷◌, ◌++◌,
  if◌then◌else◌, ◌==◌, bytes_eq, slt64, Bool-cases, inl, inr, subst,
}
use finops_proxy.GoMap.{insert}
use finops_proxy.Budget.{
  number_eq, BudgetEvent, is_set, Fired, threshold_micro, level_event, cross, cross_all,
}
use finops_proxy.Budget.Thresholds.{member, IsDistinct, is_set-insert}

-- the events of one threshold
unfoldable pub count_level : ℕ → List BudgetEvent → ℕ
count_level pct [] = 0
count_level pct (e ∷ es) =
    let rest = count_level pct es in if pct == e.threshold_pct then suc rest else rest

abbrev pub one_if : Bool → ℕ
one_if true = 1
one_if false = 0

one_if_step : (n : ℕ) (b : Bool) → (if b then suc n else n) ≡ n + one_if b
one_if_step n true = omega arith
one_if_step n false = omega arith

count_level-snoc :
    (pct : ℕ) (es : List BudgetEvent) (e : BudgetEvent)
    → count_level pct (es ++ (e ∷ [])) ≡ count_level pct es + one_if (pct == e.threshold_pct)
unfolding count_level
count_level-snoc pct [] e = one_if_step 0 (pct == e.threshold_pct)
count_level-snoc pct (x ∷ es) e = elim (Bool-cases (pct == x.threshold_pct)) [
  | inl h ↦ rw h (omega (arith, count_level-snoc pct es e))
  | inr h ↦ rw h (count_level-snoc pct es e)
]

-- the spend has reached a threshold
abbrev pub reached : ℕ → ℕ → ℕ → Bool
reached budget pct spent = not (slt64 spent (threshold_micro budget pct))

-- every delivery succeeds
abbrev pub delivered : BudgetEvent → Bool
delivered ev = true

-- whether a threshold has fired, and how often
abbrev pub Tally : Type 0
Tally = Bool × ℕ

abbrev pub tally : ℕ → Fired → Tally
tally pct st = (is_set pct st.0, count_level pct st.1)

-- what a spend that reaches the threshold, or does not, makes of it
abbrev pub hit : Bool → Tally → Tally
hit false t = t
hit true (true, n) = (true, n)
hit true (false, n) = (true, n + 1)

hit_fired : (r : Bool) (t : Tally) → t.0 ≡ true → hit r t ≡ t
hit_fired true (true, n) h = refl
hit_fired true (false, n) h = absurd (ground arith)
hit_fired false t h = refl

hit_below : (r : Bool) (t : Tally) → r ≡ false → hit r t ≡ t
hit_below true t h = absurd (ground arith)
hit_below false t h = refl

hit_new : (r : Bool) (t : Tally) → r ≡ true → t.0 ≡ false → hit r t ≡ (true, t.1 + 1)
hit_new true (true, n) h k = absurd (ground arith)
hit_new true (false, n) h k = refl
hit_new false t h k = absurd (ground arith)

same_number : (pct q : ℕ) → pct == q ≡ true → q ≡ pct
same_number pct q h = ground arith

self_same : (pct : ℕ) → pct == pct ≡ true
self_same pct = ground arith

module _ (budget spent now : ℕ) where
  abbrev pub crossed : ℕ → Fired → Fired
  crossed q st = cross delivered budget spent now q st

  cross_fired : (q : ℕ) (st : Fired) → is_set q st.0 ≡ true → crossed q st ≡ st
  unfolding cross
  cross_fired q st e = rw (cross, e) refl

  cross_below :
      (q : ℕ) (st : Fired)
      → is_set q st.0 ≡ false
      → slt64 spent (threshold_micro budget q) ≡ true
      → crossed q st ≡ st
  unfolding cross
  cross_below q st e s = rw (cross, e, s) refl

  cross_hits :
      (q : ℕ) (st : Fired)
      → is_set q st.0 ≡ false
      → slt64 spent (threshold_micro budget q) ≡ false
      → crossed q st ≡ (insert q true st.0, st.1 ++ (level_event delivered budget spent now q ∷ []))
  unfolding cross
  cross_hits q st e s = rw (cross, e, s) refl

  after_event :
      (pct q : ℕ) (st : Fired)
      → tally pct (insert q true st.0, st.1 ++ (level_event delivered budget spent now q ∷ []))
        ≡ (is_set pct st.0 || pct == q, count_level pct st.1 + one_if (pct == q))
  after_event pct q st =
      rw
        (
          is_set-insert pct q st.0,
          count_level-snoc pct st.1 (level_event delivered budget spent now q),
        )
        refl

  cross_same :
      (pct : ℕ) (st : Fired)
      → tally pct (crossed pct st) ≡ hit (reached budget pct spent) (tally pct st)
  cross_same pct st = elim (Bool-cases (is_set pct st.0)) [
    | inl e ↦ ap (tally pct) (cross_fired pct st e) ∙ sym (hit_fired _ (tally pct st) e)
    | inr e ↦ elim (Bool-cases (slt64 spent (threshold_micro budget pct))) [
      | inl s ↦
          ap (tally pct) (cross_below pct st e s) ∙ sym (hit_below _ (tally pct st) (ap not s))
      | inr s ↦
          ap (tally pct) (cross_hits pct st e s)
          ∙ after_event pct pct st
          ∙ ap (λ b. (is_set pct st.0 || b, count_level pct st.1 + one_if b)) (self_same pct)
          ∙ ap (λ b. (b || true, count_level pct st.1 + 1)) e
          ∙ sym (hit_new _ (tally pct st) (ap not s) e)
    ]
  ]

  or_other : (t : Tally) (b : Bool) → b ≡ false → (t.0 || b, t.1 + one_if b) ≡ t
  or_other (x, n) true h = absurd (ground arith)
  or_other (true, n) false h = ap (λ (k : ℕ). (true, k)) (omega arith)
  or_other (false, n) false h = ap (λ (k : ℕ). (false, k)) (omega arith)

  cross_other :
      (pct q : ℕ) (st : Fired) → pct == q ≡ false → tally pct (crossed q st) ≡ tally pct st
  cross_other pct q st other = elim (Bool-cases (is_set q st.0)) [
    | inl e ↦ ap (tally pct) (cross_fired q st e)
    | inr e ↦ elim (Bool-cases (slt64 spent (threshold_micro budget q))) [
      | inl s ↦ ap (tally pct) (cross_below q st e s)
      | inr s ↦
          ap (tally pct) (cross_hits q st e s)
          ∙ after_event pct q st
          ∙ or_other (tally pct st) (pct == q) other
    ]
  ]

  cross_all_other :
      (pct : ℕ) (qs : List ℕ) (st : Fired)
      → member pct qs ≡ false
      → tally pct (cross_all delivered budget spent now qs st) ≡ tally pct st
  unfolding cross_all member
  cross_all_other pct [] st h = refl
  cross_all_other pct (q ∷ qs) st h =
      cross_all_other pct qs (crossed q st) (ground arith) ∙ cross_other pct q st (ground arith)

  pub cross_all_once :
      (pct : ℕ) (qs : List ℕ) (st : Fired)
      → IsDistinct qs
      → member pct qs ≡ true
      → tally pct (cross_all delivered budget spent now qs st)
        ≡ hit (reached budget pct spent) (tally pct st)
  unfolding cross_all member
  cross_all_once pct [] st d h = absurd (ground arith)
  cross_all_once pct (q ∷ qs) st d h = elim (Bool-cases (pct == q)) [
    | inl e ↦
        let same : q ≡ pct = same_number pct q e in
        subst
          (λ k.
            tally pct (cross_all delivered budget spent now qs (crossed k st))
            ≡ hit (reached budget pct spent) (tally pct st))
          (sym same)
          (cross_all_other pct qs (crossed pct st) (subst (λ k. member k qs ≡ false) same d.0)
            ∙ cross_same pct st)
    | inr e ↦
        cross_all_once pct qs (crossed q st) d.1 (ground arith)
        ∙ ap (hit (reached budget pct spent)) (cross_other pct q st e)
  ]
