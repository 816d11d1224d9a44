-- ===== src/HashDetector/Reset.antt =====
-- `Reset` of hash_detector.go.
use finops_proxy.Prelude.{
  ◌+◌, ◌≤◌, ◌≡◌, refl, none, Bool, [], ◌∷◌, arith, length, equals, not, bytes_eq, if◌then◌else◌,
}
use finops_proxy.GoMap.{Map, IsMap, lookup, sweep}
use finops_proxy.GoMap.Laws.{lookup-sweep, sweep-IsMap}
use finops_proxy.Detector.{AgentId}
use finops_proxy.HashDetector.{Key, key_eq, Entry, HashDetector, reset_scan, reset}

-- the entries of the other agents
abbrev others : AgentId → Key → Entry → Bool
others agent k _ = not (equals k.agent agent)

reset_scan-sweep :
    (agent : AgentId) (m : Map Key Entry) → (reset_scan agent m).0 ≡ sweep (others agent) m
unfolding reset_scan sweep
reset_scan-sweep agent [] = refl
reset_scan-sweep agent ((k, e) ∷ m) = ground (arith, reset_scan-sweep agent m)

reset_scan_count :
    (agent : AgentId) (m : Map Key Entry)
    → (reset_scan agent m).1 + length (reset_scan agent m).0 ≡ length m
unfolding reset_scan
reset_scan_count agent [] = omega arith
reset_scan_count agent ((k, e) ∷ m) = ground (arith, reset_scan_count agent m)

module _ (agent : AgentId) (d : HashDetector) where
  pub length-reset-le : length (reset agent d).0.seen ≤ length d.seen
  unfolding reset
  length-reset-le = omega (arith, reset_scan_count agent d.seen)

  -- In a map with no key twice, after a reset the agent has no entry, and every other agent's
  -- entries are what they were.
  pub lookup-reset :
      (k : Key)
      → IsMap d.seen
      → lookup k (reset agent d).0.seen ≡ (if equals k.agent agent then none else lookup k d.seen)
  unfolding reset
  lookup-reset k v =
      rw (reset_scan-sweep agent d.seen, lookup-sweep (others agent) k d.seen v) (ground arith)

  -- The number that a reset returns is the number of entries that it removed.
  pub reset_count : (reset agent d).1 + length (reset agent d).0.seen ≡ length d.seen
  unfolding reset
  reset_count = reset_scan_count agent d.seen

  pub reset-IsMap : IsMap d.seen → IsMap (reset agent d).0.seen
  unfolding reset
  reset-IsMap v = rw (reset_scan-sweep agent d.seen) (sweep-IsMap (others agent) d.seen v)

  pub reset_config : record d { seen = (reset agent d).0.seen } ≡ (reset agent d).0
  unfolding reset
  reset_config = refl
