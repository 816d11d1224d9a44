-- ===== src/MemoryStore/Ledger.antt =====
-- The sums of memory.go: the callers' sums against the sum of all.
use finops_proxy.Prelude.{
  ℕ, ◌+◌, ◌%◌, ◌^◌, ◌<◌, ◌≡◌, refl, ◌∙◌, ap, Bool, true, false, not, ◌||◌, List, [], ◌∷◌, ◌++◌,
  arith, Bytes, bytes_eq, equals, if◌then◌else◌, Bool-cases, inl, inr, All, add64, slt64,
}
use finops_proxy.MemoryStore.{
  RequestRecord, Store, log_request, sum_from, sum_actual_cost_since, sum_actual_cost_for_key_since,
}

-- the costs that count, without the wrap-around
unfoldable pub cost_of : (RequestRecord → Bool) → List RequestRecord → ℕ
cost_of skip [] = 0
cost_of skip (r ∷ rs) = let rest = cost_of skip rs in if skip r then rest else r.cost_usd + rest

sum_from-cost_of :
    (skip : RequestRecord → Bool) (total : ℕ) (rs : List RequestRecord)
    → total < 2 ^ 64
    → sum_from skip total rs ≡ (total + cost_of skip rs) % 2 ^ 64
unfolding sum_from cost_of
sum_from-cost_of skip total [] h = omega arith
sum_from-cost_of skip total (r ∷ rs) h = elim (Bool-cases (skip r)) [
  | inl skipped ↦ rw skipped (sum_from-cost_of skip total rs h)
  | inr counted ↦
      let rest = sum_from-cost_of skip (add64 total r.cost_usd) rs (omega arith) in
      rw counted (omega (arith, rest))
]

-- the rows that are not counted, for all callers and for one
abbrev pub skips : ℕ → RequestRecord → Bool
skips since r = r.is_loop_blocked || slt64 r.timestamp since

abbrev pub of_key : ℕ → Bytes → RequestRecord → Bool
of_key since key r = skips since r || not (equals r.key_id key)

-- the costs of several callers together
unfoldable pub cost_of_all : ℕ → List Bytes → List RequestRecord → ℕ
cost_of_all since [] rs = 0
cost_of_all since (k ∷ ks) rs = cost_of (of_key since k) rs + cost_of_all since ks rs

-- the callers' sums, added with wrap-around
unfoldable pub sum_for_keys : {Caller : Type 0} → ℕ → List Bytes → Store Caller → ℕ
sum_for_keys since [] s = 0
sum_for_keys since (k ∷ ks) s =
    add64 (sum_actual_cost_for_key_since k since s) (sum_for_keys since ks s)

-- how often a key is in the list
unfoldable pub occurs : Bytes → List Bytes → ℕ
occurs key [] = 0
occurs key (k ∷ ks) = let rest = occurs key ks in if equals key k then 1 + rest else rest

cost_of_all-empty : (since : ℕ) (ks : List Bytes) → cost_of_all since ks [] ≡ 0
unfolding cost_of_all cost_of
cost_of_all-empty since [] = refl
cost_of_all-empty since (k ∷ ks) = omega (arith, cost_of_all-empty since ks)

skipped_everywhere :
    (since : ℕ) (ks : List Bytes) (r : RequestRecord) (rs : List RequestRecord)
    → skips since r ≡ true
    → cost_of_all since ks (r ∷ rs) ≡ cost_of_all since ks rs
unfolding cost_of_all cost_of
skipped_everywhere since [] r rs h = refl
skipped_everywhere since (k ∷ ks) r rs h =
    rw h (ap (λ (n : ℕ). cost_of (of_key since k) rs + n) (skipped_everywhere since ks r rs h))

module _ (since : ℕ) (r : RequestRecord) (rs : List RequestRecord)
    (counts : skips since r ≡ false) where
  key_absent :
      (ks : List Bytes)
      → occurs r.key_id ks ≡ 0
      → cost_of_all since ks (r ∷ rs) ≡ cost_of_all since ks rs
  unfolding cost_of_all cost_of occurs
  key_absent [] h = refl
  key_absent (k ∷ ks) h = elim (Bool-cases (equals r.key_id k)) [
    | inl here ↦ let h' = rw here at h in absurd (omega arith)
    | inr away ↦
        let h' = rw away at h in
        rw (counts, away) (ap (λ (n : ℕ). cost_of (of_key since k) rs + n) (key_absent ks h'))
  ]

  key_once :
      (ks : List Bytes)
      → occurs r.key_id ks ≡ 1
      → cost_of_all since ks (r ∷ rs) ≡ r.cost_usd + cost_of_all since ks rs
  unfolding cost_of_all cost_of occurs
  key_once [] h = absurd (omega arith)
  key_once (k ∷ ks) h = elim (Bool-cases (equals r.key_id k)) [
    | inl here ↦
        let h' = rw here at h in rw (counts, here) (omega (arith, key_absent ks (omega arith)))
    | inr away ↦ let h' = rw away at h in rw (counts, away) (omega (arith, key_once ks h'))
  ]

cost_of_all-cost_of :
    (since : ℕ) (ks : List Bytes) (rs : List RequestRecord)
    → All (λ r. occurs r.key_id ks ≡ 1) rs
    → cost_of_all since ks rs ≡ cost_of (skips since) rs
unfolding cost_of
cost_of_all-cost_of since ks [] h = cost_of_all-empty since ks
cost_of_all-cost_of since ks (r ∷ rs) h =
    let rest = cost_of_all-cost_of since ks rs h.1 in
    elim (Bool-cases (skips since r)) [
      | inl skipped ↦ rw skipped (skipped_everywhere since ks r rs skipped ∙ rest)
      | inr counts ↦ rw counts (omega (arith, rest, key_once since r rs counts ks h.0))
    ]

module _ {Caller : Type 0} (since : ℕ) (s : Store Caller) where
  sum_for_keys-cost_of_all :
      (ks : List Bytes) → sum_for_keys since ks s ≡ cost_of_all since ks s.logs % 2 ^ 64
  unfolding sum_for_keys cost_of_all sum_actual_cost_for_key_since
  sum_for_keys-cost_of_all [] = omega arith
  sum_for_keys-cost_of_all (k ∷ ks) =
      omega (
        arith,
        sum_from-cost_of (of_key since k) 0 s.logs (omega arith),
        sum_for_keys-cost_of_all ks,
      )

  -- If each caller in the log is listed once, the sums of the listed callers' costs since a time add
  -- up, with int64 wrap-around, to the sum of all costs since then.
  pub sum_for_keys-sum_actual_cost_since :
      (ks : List Bytes)
      → All (λ r. occurs r.key_id ks ≡ 1) s.logs
      → sum_for_keys since ks s ≡ sum_actual_cost_since since s
  unfolding sum_actual_cost_since
  sum_for_keys-sum_actual_cost_since ks h = omega (
    arith,
    sum_for_keys-cost_of_all ks,
    cost_of_all-cost_of since ks s.logs h,
    sum_from-cost_of (skips since) 0 s.logs (omega arith),
  )

sum_from-snoc :
    (skip : RequestRecord → Bool) (total : ℕ) (rs : List RequestRecord) (r : RequestRecord)
    → sum_from skip total (rs ++ (r ∷ []))
      ≡ (if skip r then sum_from skip total rs else add64 (sum_from skip total rs) r.cost_usd)
unfolding sum_from
sum_from-snoc skip total [] r = refl
sum_from-snoc skip total (x ∷ rs) r =
    sum_from-snoc skip (if skip x then total else add64 total x.cost_usd) rs r

-- A logged request adds its cost to the sum of all and to its caller's sum if it is not blocked and
-- not before the time, and changes no other caller's sum.
pub log_request_sums :
    {Caller : Type 0} (since : ℕ) (key : Bytes) (r : RequestRecord) (s : Store Caller)
    → (sum_actual_cost_since since (log_request r s) ≡ (
        if r.is_loop_blocked || slt64 r.timestamp since
        then sum_actual_cost_since since s
        else add64 (sum_actual_cost_since since s) r.cost_usd))
      × (sum_actual_cost_for_key_since key since (log_request r s) ≡ (
          if (r.is_loop_blocked || slt64 r.timestamp since) || not (equals r.key_id key)
          then sum_actual_cost_for_key_since key since s
          else add64 (sum_actual_cost_for_key_since key since s) r.cost_usd))
unfolding sum_actual_cost_since sum_actual_cost_for_key_since log_request
log_request_sums since key r s =
    (sum_from-snoc (skips since) 0 s.logs r, sum_from-snoc (of_key since key) 0 s.logs r)
