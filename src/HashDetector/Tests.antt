-- ===== src/HashDetector/Tests.antt =====
-- hash_detector.go on concrete inputs.
use finops_proxy.Prelude.{
  ℕ, ◌+◌, ◌*◌, ◌≤◌, ◌<◌, ◌≡◌, ◌≢◌, refl, ap, pos, negsuc, none, some, true, false, List, [], ◌∷◌,
  arith, length, Bytes, bytes_eq, ◌⊎◌, bytes_discrete, ℕ_discrete, dec_le, dec_lt, bytes_lt,
}
use finops_proxy.GoMap.{lookup}
use finops_proxy.Detector.{AgentId, second, reason_exact_hash}
use finops_proxy.HashDetector.{
  Key, key_eq, key_discrete, Entry, HashDetector, new_hash_detector, set_limit, check, reset,
  agent_status, blocked_agents,
}
use finops_proxy.HashDetector.Steps.{key}
use finops_proxy.HashDetector.Capacity
use finops_proxy.HashDetector.Capacity.{IsValid}
use finops_proxy.HashDetector.History.{
  Call, check_call, reset_call, limit_call, calls, sightings, limit_after,
}
use finops_proxy.HashDetector.Window
use finops_proxy.HashDetector.Incident
use finops_proxy.HashDetector.Incident.{first_blocks}
use finops_proxy.HashDetector.Limit
use finops_proxy.HashDetector.Status
use finops_proxy.HashDetector.Status.{live_entries, count_reached}
use finops_proxy.HashDetector.Blocked
use finops_proxy.HashDetector.Blocked.{if_blocked}
use finops_proxy.HashDetector.ByAgent.{find_status}

abbrev a : AgentId
a = 97 ∷ []

abbrev b : AgentId
b = 98 ∷ []

abbrev f : Bytes
f = 102 ∷ []

abbrev g : Bytes
g = 103 ∷ []

-- seen once at 10 and blocked once at 20, and seen once at 12, with windows of 100 seconds
abbrev twice : Entry
twice = record { count = 2; expires = 10 + 100 * second; blocked_at = 20; last_block = 20 }

abbrev once : Entry
once = record { count = 1; expires = 12 + 100 * second; blocked_at = 0; last_block = 0 }

abbrev full : HashDetector
full = record {
  seen = (key a f, twice) ∷ (key b f, once) ∷ [];
  ttl = 100 * second;
  limit = 2;
  max = 2;
}

abbrev roomy : HashDetector
roomy = record full { max = 9 }

runs : Unit {0}
unfolding new_hash_detector set_limit check reset agent_status blocked_agents key_discrete lookup
    ℕ_discrete dec_le dec_lt bytes_lt bytes_discrete calls sightings limit_after
runs = tt

full-IsValid : IsValid full
unfolding runs
full-IsValid = record {
  positive = omega arith;
  bounded = omega arith;
  distinct = (refl, (refl, tt));
}

roomy-IsValid : IsValid roomy
unfolding runs
roomy-IsValid = record {
  positive = omega arith;
  bounded = omega arith;
  distinct = (refl, (refl, tt));
}

-- the first sighting passes, the second blocks
second_blocks :
    ((check a f 1 (new_hash_detector 50 (negsuc 0))).1.block ≡ false)
    × ((check a f 30 (check a f 1 (new_hash_detector 50 (negsuc 0))).0).1.block ≡ true)
unfolding runs
second_blocks = (refl, refl)

check-IsValid_example : IsValid (check a g 30 full).0
check-IsValid_example = Capacity.check-IsValid full full-IsValid a g 30

abbrev first_byte : Key → ℕ
first_byte k = elim k.agent [ [] ↦ 0 | x ∷ _ ↦ x ]

b-ne-a : key b f ≢ key a g
b-ne-a h = absurd (omega (arith, ap first_byte h))

lookup-check_ne_example :
    (lookup (key b f) (check a g 30 full).0.seen ≡ some once)
    ⊎ ((lookup (key b f) (check a g 30 full).0.seen ≡ none)
        × (length full.seen ≡ full.max)
        × ((i : Key) (y : Entry)
            → i ≢ key a g
            → lookup i (check a g 30 full).0.seen ≡ some y
            → once.expires ≤ y.expires))
unfolding runs
lookup-check_ne_example =
    Capacity.lookup-check_ne full full-IsValid a g 30 (key b f) once b-ne-a refl

-- a first sighting, a reset of another agent, a sighting, a raised limit
abbrev story : List Call
story = check_call a f 1 ∷ reset_call b ∷ check_call a f 5 ∷ limit_call (pos 3) ∷ []

check-verdict_example :
    (check a f 7 (calls story (record { seen = []; ttl = 50; limit = 2; max = 9 }))).1.block ≡ true
unfolding runs
check-verdict_example = Window.check-verdict 50 2 9 story a f 7 (omega arith)

check_retry_after_example :
    (e : Entry) × (lookup (key a f) full.seen ≡ some e)
    × ((check a f 30 full).1.reason ≡ reason_exact_hash)
    × (0 < (check a f 30 full).1.retry_after)
    × (e.expires ≤ 30 + (check a f 30 full).1.retry_after * second)
    × (30 + (check a f 30 full).1.retry_after * second < e.expires + second)
unfolding runs
check_retry_after_example = Incident.check_retry_after full a f 30 refl

first_blocks-le_example :
    first_blocks (key b f) (check_call b f 30 ∷ limit_call (pos 3) ∷ check_call b f 31 ∷ []) roomy
    ≤ 1
unfolding runs
first_blocks-le_example =
    Incident.first_blocks-le (check_call b f 30 ∷ limit_call (pos 3) ∷ check_call b f 31 ∷ [])
      (key b f) once roomy roomy-IsValid (omega arith) refl (omega arith)

check-set_limit_example : (check a f 30 (set_limit (pos 4) full)).1.block ≡ false
unfolding runs
check-set_limit_example = Limit.check-set_limit full a f 30 4 twice (omega arith) refl (omega arith)

full_counted : (j : Key) (e : Entry) → lookup j full.seen ≡ some e → 0 < e.count
unfolding lookup
full_counted j e h = ground arith

-- under a limit of 1 an agent whose only request passed is reported as blocked
passed_and_blocked :
    ((check b f 30 (new_hash_detector 50 (pos 1))).1.block ≡ false)
    × ((agent_status b 31 (check b f 30 (new_hash_detector 50 (pos 1))).0).1
        ≡ some (record {
          agent = b;
          blocked = true;
          fingerprints = 1;
          blocked_fp = 1;
          first_blocked = 0;
          last_blocked = 0;
        }))
unfolding runs
passed_and_blocked = (refl, refl)

check-agent_status_example : (check b f 40 (agent_status a 30 full).0).1 ≡ (check b f 40 full).1
unfolding runs
check-agent_status_example =
    Status.check-agent_status full a b f 30 40 (refl, (refl, tt)) (omega arith)

find_status-blocked_agents_example :
    find_status a (blocked_agents 30 full).1 ≡ if_blocked (agent_status a 30 full).1
find_status-blocked_agents_example = Blocked.find_status-blocked_agents a 30 full
