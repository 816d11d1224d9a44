-- ===== src/HashDetector/Incident.antt =====
-- What a blocked check reports: the time to wait, and the first block of an incident.
use finops_proxy.Prelude.{
  ℕ, ◌+◌, ◌-◌, ◌*◌, ◌≤◌, ◌<◌, ◌≡◌, ◌≢◌, refl, Option, none, some, true, List, [], ◌∷◌, arith,
  length, All, same, leb, ite, inl, inr, sym, ◌∙◌, ap, subst, if_pos, if_neg, leb→le, if◌then◌else◌,
}
use finops_proxy.GoMap.{lookup}
use finops_proxy.GoMap.Laws.{lookup-insert}
use finops_proxy.Detector.{
  AgentId, Fingerprint, second, reason_exact_hash, is_zero, ceil_div_second,
}
use finops_proxy.HashDetector.{
  Key, key_eq, Entry, HashDetector, set_limit, open_window, count_repeat, repeat, check,
}
use finops_proxy.HashDetector.Steps.{
  key, IsOver, check_cases, repeat_state, repeat_block, repeat_blocked, check_config,
}
use finops_proxy.HashDetector.Window.{length-check-le}
use finops_proxy.HashDetector.Capacity.{IsValid, lookup-check_ne, check-IsValid}
use finops_proxy.HashDetector.History.{Call, check_call, reset_call, limit_call, call}

over_live :
    (now : ℕ) (o : Option Entry) (e : Entry) → IsOver now o → o ≡ some e → now < e.expires → ⊥
over_live now none e over h live = cc
over_live now (some x) e over h live = ground arith

module _ (d : HashDetector) (agent : AgentId) (fp : Fingerprint) (now : ℕ) where
  -- In an open window a check is a repeat.
  pub check_live :
      (e : Entry)
      → lookup (key agent fp) d.seen ≡ some e
      → now < e.expires
      → check agent fp now d ≡ repeat d (key agent fp) e now
  check_live e found live = elim (check_cases d agent fp now) [
    | inl (_, over) ↦ absurd (over_live now (lookup (key agent fp) d.seen) e over found live)
    | inr (x, found', _, repeats) ↦ cc (found, found', repeats)
  ]

  -- A blocked check is a repeat that has reached the limit in an open window.
  check_blocked :
      (check agent fp now d).1.block ≡ true
      → (e : Entry) × (lookup (key agent fp) d.seen ≡ some e)
        × (now < e.expires)
        × ((check agent fp now d).1 ≡ record {
          block = true;
          reason = reason_exact_hash;
          retry_after = ceil_div_second (e.expires - now);
          first_block = is_zero e.blocked_at;
        })
  unfolding open_window
  check_blocked blocked = elim (check_cases d agent fp now) [
    | inl (opens, _) ↦ absurd (ground (arith, opens, blocked))
    | inr (e, found, live, repeats) ↦
        let reached : leb d.limit (e.count + 1) ≡ true =
          sym (repeat_block d (key agent fp) e now) ∙ (rw repeats at blocked) in
        (e, found, live, rw repeats (repeat_blocked d (key agent fp) e now (leb→le _ _ reached)))
  ]

  -- A blocked check names the window that it fell in, and waiting `retry_after` seconds is what it
  -- takes, rounded up, for that window to end.
  pub check_retry_after :
      (check agent fp now d).1.block ≡ true
      → (e : Entry) × (lookup (key agent fp) d.seen ≡ some e)
        × ((check agent fp now d).1.reason ≡ reason_exact_hash)
        × (0 < (check agent fp now d).1.retry_after)
        × (e.expires ≤ now + (check agent fp now d).1.retry_after * second)
        × (now + (check agent fp now d).1.retry_after * second < e.expires + second)
  unfolding ceil_div_second
  check_retry_after blocked =
      let (e, found, live, result) = check_blocked blocked in
      (
        e,
        found,
        rw result refl,
        rw result (omega arith),
        rw result (omega arith),
        rw result (omega arith),
      )

-- The calls of one window of `key agent fp`: checks of any key before its end, and changes of the
-- limit.
abbrev pub IsWithin : ℕ → Call → Type 0
IsWithin expires (check_call _ _ now) = (0 < now) × (now < expires)
IsWithin expires (reset_call _) = ⊥
IsWithin expires (limit_call _) = Unit

-- how many of the checks of `k` report the first block of an incident
unfoldable pub first_blocks : Key → List Call → HashDetector → ℕ
first_blocks k [] d = 0
first_blocks k (check_call agent fp now ∷ cs) d =
    ite (same (key agent fp) k) (if (check agent fp now d).1.first_block then 1 else 0) 0
    + first_blocks k cs (check agent fp now d).0
first_blocks k (reset_call agent ∷ cs) d = first_blocks k cs (call (reset_call agent) d)
first_blocks k (limit_call n ∷ cs) d = first_blocks k cs (set_limit n d)

check_live_at :
    (d : HashDetector) (agent : AgentId) (fp : Fingerprint) (now : ℕ) (k : Key) (e : Entry)
    → key agent fp ≡ k
    → lookup k d.seen ≡ some e
    → now < e.expires
    → check agent fp now d ≡ repeat d k e now
check_live_at d agent fp now k e p found live =
    check_live d agent fp now e (rw p found) live ∙ ap (λ (j : Key). repeat d j e now) p

-- how many first blocks an entry can still report
abbrev first_blocks_left : Entry → ℕ
first_blocks_left e = if is_zero e.blocked_at then 1 else 0

module _ (d : HashDetector) (k : Key) (e : Entry) (now : ℕ) where
  -- A repeat that reports the first block leaves none to report.
  repeat_first_block :
      0 < now
      → (if (repeat d k e now).1.first_block then 1 else 0)
          + first_blocks_left (count_repeat d.limit e now).0
        ≤ first_blocks_left e
  unfolding repeat count_repeat
  repeat_first_block h = ground arith

  count_repeat_expires : (count_repeat d.limit e now).0.expires ≡ e.expires
  unfolding count_repeat
  count_repeat_expires = ground arith

  lookup-repeat : lookup k (repeat d k e now).0.seen ≡ some (count_repeat d.limit e now).0
  lookup-repeat =
      rw (repeat_state d k e now, lookup-insert k k (count_repeat d.limit e now).0 d.seen)
        (ground arith)

module _ (d : HashDetector) (agent : AgentId) (fp : Fingerprint) (now : ℕ) where
  lookup-check_room :
      (j : Key) (e : Entry)
      → IsValid d
      → length d.seen < d.max
      → j ≢ key agent fp
      → lookup j d.seen ≡ some e
      → lookup j (check agent fp now d).0.seen ≡ some e
  lookup-check_room j e v room ne found = elim (lookup-check_ne d v agent fp now j e ne found) [
    | inl kept ↦ kept
    | inr (_, full, _) ↦ absurd (omega arith)
  ]

  max-check : (check agent fp now d).0.max ≡ d.max
  max-check = rw (← check_config d agent fp now) refl

-- From a valid detector that tracks the key, of all calls that fall within the key's window, of this
-- key and of others, and however the limit is moved meanwhile, at most one check of the key reports
-- the first block, and none does if the key's entry carries the time of a block at the start. None
-- of the calls is a reset, they leave room for their entries, and the clock is past zero.
pub first_blocks-le :
    (cs : List Call) (k : Key) (e : Entry) (d : HashDetector)
    → IsValid d
    → length d.seen + length cs ≤ d.max
    → lookup k d.seen ≡ some e
    → All (IsWithin e.expires) cs
    → first_blocks k cs d ≤ (if is_zero e.blocked_at then 1 else 0)
unfolding first_blocks set_limit
first_blocks-le [] k e d v room found within = omega arith
first_blocks-le (reset_call agent ∷ cs) k e d v room found within = absurd within.0
first_blocks-le (limit_call n ∷ cs) k e d v room found within =
    first_blocks-le cs k e (set_limit n d)
      (record { positive = v.positive; bounded = v.bounded; distinct = v.distinct }) (omega arith)
      found within.1
first_blocks-le (check_call agent fp now ∷ cs) k e d v room found within =
    let d' = (check agent fp now d).0 in
    let v' = check-IsValid d v agent fp now in
    let fits : length d.seen < d.max = omega arith in
    let shorter = length-check-le d fits agent fp now in
    let capped = max-check d agent fp now in
    elim (same (key agent fp) k) [
      | yes p ↦
          let e' = (count_repeat d.limit e now).0 in
          let repeats = check_live_at d agent fp now k e p found within.0.1 in
          let within' =
            subst (λ (x : ℕ). All (IsWithin x) cs) (sym (count_repeat_expires d k e now))
              within.1 in
          let here = rw (← repeats) at (lookup-repeat d k e now) in
          let rest = first_blocks-le cs k e' d' v' (omega arith) here within' in
          rw (if_pos _ p)
            (omega (arith, rest, rw (← repeats) at (repeat_first_block d k e now within.0.0)))
      | no p ↦
          let rest =
            first_blocks-le cs k e d' v' (omega arith)
              (lookup-check_room d agent fp now k e v fits (λ q. p (sym q)) found) within.1 in
          rw (if_neg _ p) (omega (arith, rest))
    ]
