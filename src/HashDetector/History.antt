-- ===== src/HashDetector/History.antt =====
-- A history of calls of hash_detector.go, and its replay for one key as a count of sightings, with no
-- map and no eviction: what the detector is meant to decide.
use finops_proxy.Prelude.{
  ℕ, ◌+◌, ℤ, positive_or, Option, none, some, Bool, false, ◌&&◌, List, [], ◌∷◌, ltb, leb, same,
  equals, bytes_eq, if◌then◌else◌, ite,
}
use finops_proxy.Detector.{AgentId, Fingerprint}
use finops_proxy.HashDetector.{Key, key_eq, HashDetector, set_limit, check, reset}
use finops_proxy.HashDetector.Steps.{key}

-- The calls that change the detector, with the clock's reading where they take one.
pub data Call : Type 0 where
  check_call : AgentId → Fingerprint → ℕ → Call
  reset_call : AgentId → Call
  limit_call : ℤ → Call

unfoldable pub call : Call → HashDetector → HashDetector
call (check_call agent fp now) d = (check agent fp now d).0
call (reset_call agent) d = (reset agent d).0
call (limit_call n) d = set_limit n d

unfoldable pub calls : List Call → HashDetector → HashDetector
unfolding call
calls [] d = d
calls (c ∷ cs) d = calls cs (call c d)

-- When the current window of a key opened, and how often the key was seen in it.
abbrev pub Sightings : Type 0
Sightings = Option (ℕ × ℕ)

unfoldable pub see : ℕ → ℕ → Sightings → Sightings
see ttl now none = some (now, 1)
see ttl now (some (opened, n)) =
    if ltb now (opened + ttl) then some (opened, n + 1) else some (now, 1)

unfoldable pub note : Key → ℕ → Call → Sightings → Sightings
unfolding see
note k ttl (check_call agent fp now) s = ite (same (key agent fp) k) (see ttl now s) s
note k ttl (reset_call agent) s = if equals k.agent agent then none else s
note k ttl (limit_call n) s = s

unfoldable pub sightings : Key → ℕ → List Call → Sightings → Sightings
unfolding note
sightings k ttl [] s = s
sightings k ttl (c ∷ cs) s = sightings k ttl cs (note k ttl c s)

-- the limit that one call leaves
abbrev pub limit_now : Call → ℕ → ℕ
limit_now (limit_call n) limit = positive_or 1 n
limit_now (check_call _ _ _) limit = limit
limit_now (reset_call _) limit = limit

unfoldable pub limit_after : List Call → ℕ → ℕ
limit_after [] limit = limit
limit_after (c ∷ cs) limit = limit_after cs (limit_now c limit)

-- A key is to be blocked if its window is open and this sighting is at least the `limit`-th.
abbrev pub verdict : ℕ → ℕ → ℕ → Sightings → Bool
verdict limit ttl now none = false
verdict limit ttl now (some (opened, n)) = ltb now (opened + ttl) && leb limit (n + 1)
