-- ===== src/HashDetector/Blocked.antt =====
-- `BlockedAgents` of hash_detector.go against `AgentStatus`, agent by agent, and its order.
use finops_proxy.Prelude.{
  ℕ, ◌≡◌, refl, ◌∙◌, sym, ap, Option, none, some, Bool, true, false, ◌&&◌, [], ◌∷◌, arith, ltb,
  same, equals, bytes_eq, if◌then◌else◌, Bool-cases, inl, inr,
}
use finops_proxy.GoMap.{Map, IsMap, lookup, insert}
use finops_proxy.GoMap.Laws.{lookup-insert_same, lookup-insert_ne, insert-IsMap}
use finops_proxy.Detector.{AgentId, AgentStatus}
use finops_proxy.HashDetector.{
  Key, key_eq, Entry, HashDetector, visit, tally, empty_status, or_empty, status_scan, agent_status,
  agents_scan, blocked_only, blocked_agents,
}
use finops_proxy.HashDetector.ByAgent.{
  find_status, find_status-sort, IsSortedByAgent, sort_by_agent-IsSortedByAgent,
}
use finops_proxy.HashDetector.Status.{visit_counts}

-- a status of which there is something to say
abbrev pub if_blocked : Option AgentStatus → Option AgentStatus
if_blocked none = none
if_blocked (some st) = if st.blocked then some st else none

abbrev is_some : Option AgentStatus → Bool
is_some none = false
is_some (some st) = true

abbrev picked : Map Key Entry × AgentStatus × Bool → Option AgentStatus
picked r = if r.2 then some r.1 else none

module _ (now limit : ℕ) (k : Key) (e : Entry) (m : Map Key Entry) where
  agents_scan_over :
      (by_agent : Map AgentId AgentStatus)
      → ltb now e.expires ≡ false
      → (agents_scan now limit by_agent ((k, e) ∷ m)).1 ≡ (agents_scan now limit by_agent m).1
  unfolding agents_scan
  agents_scan_over by_agent over = rw over

  -- the two loops add the same to a status
  agents_scan_live :
      (by_agent : Map AgentId AgentStatus)
      → ltb now e.expires ≡ true
      → (agents_scan now limit by_agent ((k, e) ∷ m)).1
        ≡ (agents_scan now limit
            (insert k.agent (visit limit e (or_empty k.agent (lookup k.agent by_agent))) by_agent)
            m).1
  unfolding agents_scan tally visit
  agents_scan_live by_agent live = rw live

  status_scan_miss :
      (agent : AgentId) (st : AgentStatus) (found : Bool)
      → (equals k.agent agent && ltb now e.expires) ≡ false
      → picked (status_scan agent now limit st found ((k, e) ∷ m))
        ≡ picked (status_scan agent now limit st found m)
  unfolding status_scan
  status_scan_miss agent st true miss = rw miss
  status_scan_miss agent st false miss = rw miss

  status_scan_hit :
      (agent : AgentId) (st : AgentStatus) (found : Bool)
      → (equals k.agent agent && ltb now e.expires) ≡ true
      → picked (status_scan agent now limit st found ((k, e) ∷ m))
        ≡ picked (status_scan agent now limit (visit limit e st) true m)
  unfolding status_scan
  status_scan_hit agent st true hit = rw hit
  status_scan_hit agent st false hit = rw hit

-- What the scan of all agents holds for one agent is what the scan for that agent finds.
agents_scan-status :
    (agent : AgentId) (now limit : ℕ) (by_agent : Map AgentId AgentStatus) (m : Map Key Entry)
    (o : Option AgentStatus)
    → lookup agent by_agent ≡ o
    → lookup agent (agents_scan now limit by_agent m).1
      ≡ picked (status_scan agent now limit (or_empty agent o) (is_some o) m)
agents_scan-status agent now limit by_agent [] none h = unfold agents_scan status_scan in h
agents_scan-status agent now limit by_agent [] (some st) h = unfold agents_scan status_scan in h
agents_scan-status agent now limit by_agent ((k, e) ∷ m) o h =
    elim (Bool-cases (ltb now e.expires)) [
      | inr over ↦ rw (agents_scan_over now limit k e m by_agent over) (
          agents_scan-status agent now limit by_agent m o h
          ∙ sym (
              status_scan_miss now limit k e m agent (or_empty agent o) (is_some o) (ground arith)))
      | inl live ↦
          let st = visit limit e (or_empty k.agent (lookup k.agent by_agent)) in
          rw (agents_scan_live now limit k e m by_agent live) (elim (same k.agent agent) [
            | yes p ↦
                let mine : visit limit e (or_empty agent o) ≡ st = cc (p, h) in
                agents_scan-status agent now limit (insert k.agent st by_agent) m (some st)
                  (lookup-insert_same k.agent agent st by_agent p)
                ∙ sym (
                    status_scan_hit now limit k e m agent (or_empty agent o) (is_some o)
                      (ground arith)
                    ∙ ap (λ (x : AgentStatus). picked (status_scan agent now limit x true m)) mine)
            | no p ↦
                agents_scan-status agent now limit (insert k.agent st by_agent) m o
                  (lookup-insert_ne k.agent agent st by_agent p ∙ h)
                ∙ sym (
                    status_scan_miss now limit k e m agent (or_empty agent o) (is_some o)
                      (ground arith))
          ])
    ]

-- a status with its `Blocked` set
abbrev pub blocked_of : Option AgentStatus → Option AgentStatus
blocked_of none = none
blocked_of (some st) = some (record st { blocked = ltb 0 st.blocked_fp })

-- Each status stands under its own agent.
abbrev StandsUnder : Map AgentId AgentStatus → Type 0
StandsUnder [] = Unit
StandsUnder ((a, st) ∷ m) = (st.agent ≡ a) × StandsUnder m

find_status-blocked_only :
    (agent : AgentId) (m : Map AgentId AgentStatus)
    → IsMap m
    → StandsUnder m
    → find_status agent (blocked_only m) ≡ if_blocked (blocked_of (lookup agent m))
unfolding find_status blocked_only lookup
find_status-blocked_only agent [] v s = refl
find_status-blocked_only agent ((a, st) ∷ m) v s =
    ground (arith, find_status-blocked_only agent m v.1 s.1)

agents_scan-IsMap :
    (now limit : ℕ) (by_agent : Map AgentId AgentStatus) (m : Map Key Entry)
    → IsMap by_agent
    → IsMap (agents_scan now limit by_agent m).1
agents_scan-IsMap now limit by_agent [] v = unfold agents_scan in v
agents_scan-IsMap now limit by_agent ((k, e) ∷ m) v = elim (Bool-cases (ltb now e.expires)) [
  | inr over ↦
      rw (agents_scan_over now limit k e m by_agent over) (agents_scan-IsMap now limit by_agent m v)
  | inl live ↦
      let st = visit limit e (or_empty k.agent (lookup k.agent by_agent)) in
      rw (agents_scan_live now limit k e m by_agent live) (
        agents_scan-IsMap now limit (insert k.agent st by_agent) m
          (insert-IsMap k.agent st by_agent v))
]

StandsUnder-insert :
    (a : AgentId) (st : AgentStatus) (m : Map AgentId AgentStatus)
    → st.agent ≡ a
    → StandsUnder m
    → StandsUnder (insert a st m)
unfolding insert
StandsUnder-insert a st [] h s = (h, tt)
StandsUnder-insert a st ((b, x) ∷ m) h s = ground (arith, StandsUnder-insert a st m h s.1)

StandsUnder-lookup :
    (a : AgentId) (m : Map AgentId AgentStatus)
    → StandsUnder m
    → (or_empty a (lookup a m)).agent ≡ a
unfolding lookup
StandsUnder-lookup a [] s = refl
StandsUnder-lookup a ((b, x) ∷ m) s = ground (arith, StandsUnder-lookup a m s.1)

agents_scan-StandsUnder :
    (now limit : ℕ) (by_agent : Map AgentId AgentStatus) (m : Map Key Entry)
    → StandsUnder by_agent
    → StandsUnder (agents_scan now limit by_agent m).1
agents_scan-StandsUnder now limit by_agent [] s = unfold agents_scan in s
agents_scan-StandsUnder now limit by_agent ((k, e) ∷ m) s = elim (Bool-cases (ltb now e.expires)) [
  | inr over ↦
      rw (agents_scan_over now limit k e m by_agent over)
        (agents_scan-StandsUnder now limit by_agent m s)
  | inl live ↦
      let st = or_empty k.agent (lookup k.agent by_agent) in
      rw (agents_scan_live now limit k e m by_agent live) (
        agents_scan-StandsUnder now limit (insert k.agent (visit limit e st) by_agent) m (
          StandsUnder-insert k.agent (visit limit e st) by_agent
            ((visit_counts limit e st).2 ∙ StandsUnder-lookup k.agent by_agent s) s))
]

agent_status-picked :
    (agent : AgentId) (now : ℕ) (d : HashDetector)
    → (agent_status agent now d).1
      ≡ blocked_of (picked (status_scan agent now d.limit (empty_status agent) false d.seen))
unfolding agent_status
agent_status-picked agent now d = ground arith

-- The list of blocked agents has, for each agent, what the agent's own status says if that is
-- "blocked", and nothing otherwise.
pub find_status-blocked_agents :
    (agent : AgentId) (now : ℕ) (d : HashDetector)
    → find_status agent (blocked_agents now d).1 ≡ if_blocked (agent_status agent now d).1
unfolding blocked_agents lookup
find_status-blocked_agents agent now d =
    let by_agent = (agents_scan now d.limit [] d.seen).1 in
    find_status-sort agent (blocked_only by_agent)
    ∙ find_status-blocked_only agent by_agent (agents_scan-IsMap now d.limit [] d.seen tt)
        (agents_scan-StandsUnder now d.limit [] d.seen tt)
    ∙ ap (λ (o : Option AgentStatus). if_blocked (blocked_of o))
        (agents_scan-status agent now d.limit [] d.seen none refl)
    ∙ ap if_blocked (sym (agent_status-picked agent now d))

-- The list of blocked agents is in the order of their ids.
pub blocked_agents-IsSortedByAgent :
    (now : ℕ) (d : HashDetector) → IsSortedByAgent (blocked_agents now d).1
unfolding blocked_agents
blocked_agents-IsSortedByAgent now d =
    sort_by_agent-IsSortedByAgent (blocked_only (agents_scan now d.limit [] d.seen).1)
