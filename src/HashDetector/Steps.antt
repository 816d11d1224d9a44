-- ===== src/HashDetector/Steps.antt =====
-- What one check does, by the entry that it finds.
use finops_proxy.Prelude.{
  ℕ, ◌+◌, ◌-◌, ◌≤◌, ◌<◌, ◌≡◌, Option, none, some, true, arith, leb, ◌⊎◌, inl, inr, Option-cases,
  dec_lt,
}
use finops_proxy.GoMap.{lookup, insert}
use finops_proxy.Detector.{
  AgentId, Fingerprint, CheckResult, reason_exact_hash, is_zero, ceil_div_second,
}
use finops_proxy.HashDetector.{
  Key, key_eq, Entry, HashDetector, open_window, count_repeat, repeat, check,
}

abbrev pub Outcome : Type 0
Outcome = HashDetector × CheckResult

abbrev pub key : AgentId → Fingerprint → Key
key agent fp = record { agent = agent; fp = fp }

-- Nothing is tracked for the key, or its window has ended.
abbrev pub IsOver : ℕ → Option Entry → Type 0
IsOver now none = Unit
IsOver now (some e) = e.expires ≤ now

module _ (d : HashDetector) (agent : AgentId) (fp : Fingerprint) (now : ℕ) where
  -- A check opens a window, or counts a repeat in the window that it finds.
  pub check_cases :
      ((check agent fp now d ≡ open_window d (key agent fp) now)
        × IsOver now (lookup (key agent fp) d.seen))
      ⊎ ((e : Entry) × (lookup (key agent fp) d.seen ≡ some e)
          × (now < e.expires)
          × (check agent fp now d ≡ repeat d (key agent fp) e now))
  unfolding check
  check_cases = elim (Option-cases (lookup (key agent fp) d.seen)) [
    | inl e ↦ inl (rw (e, check), rw e tt)
    | inr (x, e) ↦ elim (dec_lt now x.expires) [
      | yes p ↦ inr (x, e, p, rw (e, check) (ground arith))
      | no p ↦ inl (rw (e, check) (ground arith), rw e (omega arith))
    ]
  ]

module _ (d : HashDetector) (k : Key) (e : Entry) (now : ℕ) where
  -- The state after a repeat does not depend on the verdict.
  pub repeat_state :
      (repeat d k e now).0 ≡ record d { seen = insert k (count_repeat d.limit e now).0 d.seen }
  unfolding repeat
  repeat_state = ground arith

  -- A repeat is blocked exactly when its count has reached the limit.
  pub repeat_block : (repeat d k e now).1.block ≡ leb d.limit (e.count + 1)
  unfolding repeat
  repeat_block = ground arith

  pub repeat_blocked :
      d.limit ≤ e.count + 1
      → (repeat d k e now).1 ≡ record {
        block = true;
        reason = reason_exact_hash;
        retry_after = ceil_div_second (e.expires - now);
        first_block = is_zero e.blocked_at;
      }
  unfolding repeat
  repeat_blocked h = ground arith

-- A check changes nothing but the map.
pub check_config :
    (d : HashDetector) (agent : AgentId) (fp : Fingerprint) (now : ℕ)
    → record d { seen = (check agent fp now d).0.seen } ≡ (check agent fp now d).0
unfolding open_window
check_config d agent fp now = elim (check_cases d agent fp now) [
  | inl (opens, _) ↦ rw opens
  | inr (e, _, _, repeats) ↦ rw (repeats, repeat_state d (key agent fp) e now)
]
