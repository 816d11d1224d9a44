-- ===== src/HashDetector/Limit.antt =====
-- `SetLimit` of hash_detector.go: what a moved limit does to a window that is already open.
use finops_proxy.Prelude.{
  ℕ, zero, suc, Option-cases, ◌+◌, ◌<◌, ◌≡◌, pos, some, arith, leb, inl, inr,
}
use finops_proxy.GoMap.{lookup}
use finops_proxy.Detector.{AgentId, Fingerprint}
use finops_proxy.HashDetector.{
  Key, key_eq, Entry, HashDetector, set_limit, evict_if_needed, open_window, repeat, check,
}
use finops_proxy.HashDetector.Steps.{key}
use finops_proxy.HashDetector.Incident.{check_live}

module _ (d : HashDetector) (agent : AgentId) (fp : Fingerprint) (now : ℕ) where
  -- In an open window, after the limit is set to a positive n, the next check is blocked exactly if this
  -- sighting is at least the n-th, whether or not the window was blocked before. So raising the
  -- limit above the count lets a blocked window pass again.
  pub check-set_limit :
      (n : ℕ) (e : Entry)
      → 0 < n
      → lookup (key agent fp) d.seen ≡ some e
      → now < e.expires
      → (check agent fp now (set_limit (pos n) d)).1.block ≡ leb n (e.count + 1)
  unfolding set_limit repeat
  check-set_limit zero e h found live = elim h [ ]
  check-set_limit (suc n) e h found live =
      rw (check_live (record d { limit = suc n }) agent fp now e found live) (ground arith)

  -- A limit of 1 decides every check as a limit of 2 does, and leaves the same map, if every
  -- tracked entry has been counted at least once.
  pub set_limit_one_two :
      ((j : Key) (e : Entry) → lookup j d.seen ≡ some e → 0 < e.count)
      → ((check agent fp now (set_limit (pos 1) d)).1
          ≡ (check agent fp now (set_limit (pos 2) d)).1)
        × ((check agent fp now (set_limit (pos 1) d)).0.seen
            ≡ (check agent fp now (set_limit (pos 2) d)).0.seen)
  unfolding set_limit check repeat open_window evict_if_needed
  set_limit_one_two counted = elim (Option-cases (lookup (key agent fp) d.seen)) [
    | inl e ↦ (rw (e, check), rw (e, check))
    | inr (x, e) ↦
        let seen_before = counted (key agent fp) x e in
        (rw (e, check) (ground (arith, seen_before)), rw (e, check) (ground (arith, seen_before)))
  ]
