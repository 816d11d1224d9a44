-- ===== src/HashDetector/Status.antt =====
-- `AgentStatus` of hash_detector.go: what it reports, and that its lazy sweep cannot be noticed.
use finops_proxy.Prelude.{
  ℕ, suc, ◌+◌, ◌≤◌, ◌<◌, ◌≡◌, refl, ◌∙◌, sym, Option, none, some, Bool, true, false, not, ◌&&◌,
  ◌||◌, List, [], ◌∷◌, arith, length, ltb, leb, equals, bytes_eq, if◌then◌else◌, Bool-cases, inl,
  inr, Option-cases,
}
use finops_proxy.GoMap.{Map, IsMap, lookup, sweep}
use finops_proxy.GoMap.Laws.{lookup-sweep, kept}
use finops_proxy.Detector.{AgentId, Fingerprint, CheckResult, AgentStatus, proceed}
use finops_proxy.HashDetector.{
  Key, key_eq, Entry, HashDetector, open_window, repeat, check, visit, empty_status, status_scan,
  agent_status,
}
use finops_proxy.HashDetector.Steps.{key}

-- what the sweep of `AgentStatus` keeps
abbrev pub current : AgentId → ℕ → Key → Entry → Bool
current agent now k e = not (equals k.agent agent && not (ltb now e.expires))

status_scan-sweep :
    (agent : AgentId) (now limit : ℕ) (st : AgentStatus) (found : Bool) (m : Map Key Entry)
    → (status_scan agent now limit st found m).0 ≡ sweep (current agent now) m
unfolding status_scan sweep
status_scan-sweep agent now limit st found [] = refl
status_scan-sweep agent now limit st found ((k, e) ∷ m) = ground (
  arith,
  status_scan-sweep agent now limit
      (if equals k.agent agent && ltb now e.expires then visit limit e st else st)
      (found || (equals k.agent agent && ltb now e.expires)) m,
)

lookup-agent_status :
    (agent : AgentId) (now : ℕ) (d : HashDetector) (k : Key)
    → IsMap d.seen
    → lookup k (agent_status agent now d).0.seen ≡ kept (current agent now) k (lookup k d.seen)
unfolding agent_status
lookup-agent_status agent now d k v =
    rw (status_scan-sweep agent now d.limit (empty_status agent) false d.seen)
      (lookup-sweep (current agent now) k d.seen v)

-- The result of a check, from the entry that it finds.
abbrev result_of : HashDetector → Key → ℕ → Option Entry → CheckResult
result_of d k now none = proceed
result_of d k now (some e) = if ltb now e.expires then (repeat d k e now).1 else proceed

check_result :
    (d : HashDetector) (agent : AgentId) (fp : Fingerprint) (now : ℕ)
    → (check agent fp now d).1 ≡ result_of d (key agent fp) now (lookup (key agent fp) d.seen)
unfolding check open_window
check_result d agent fp now = elim (Option-cases (lookup (key agent fp) d.seen)) [
  | inl e ↦ rw (e, check)
  | inr (x, e) ↦ rw (e, check) (ground arith)
]

kept_result :
    (d : HashDetector) (m : Map Key Entry) (reader : AgentId) (k : Key) (now later : ℕ)
    (o : Option Entry)
    → now ≤ later
    → result_of (record d { seen = m }) k later (kept (current reader now) k o)
      ≡ result_of d k later o
unfolding repeat
kept_result d m reader k now later none h = refl
kept_result d m reader k now later (some e) h = elim (Bool-cases (equals k.agent reader)) [
  | inl mine ↦ rw mine (ground arith)
  | inr other ↦ rw other (ground arith)
]

-- In a map with no key twice, reading an agent's status does not change the result of a check at
-- that time or later, of this agent or another.
pub check-agent_status :
    (d : HashDetector) (reader agent : AgentId) (fp : Fingerprint) (now later : ℕ)
    → IsMap d.seen
    → now ≤ later
    → (check agent fp later (agent_status reader now d).0).1 ≡ (check agent fp later d).1
unfolding agent_status
check-agent_status d reader agent fp now later v h =
    check_result (agent_status reader now d).0 agent fp later
    ∙ rw (lookup-agent_status reader now d (key agent fp) v) (
        kept_result d (agent_status reader now d).0.seen reader (key agent fp) now later
          (lookup (key agent fp) d.seen) h)
    ∙ sym (check_result d agent fp later)

-- the entries of an agent whose window is open
unfoldable pub live_entries : AgentId → ℕ → Map Key Entry → List Entry
live_entries agent now [] = []
live_entries agent now ((k, e) ∷ m) =
    let rest = live_entries agent now m in
    if equals k.agent agent && ltb now e.expires then e ∷ rest else rest

unfoldable pub count_reached : ℕ → List Entry → ℕ
count_reached limit [] = 0
count_reached limit (e ∷ es) =
    let rest = count_reached limit es in if leb limit e.count then suc rest else rest

pub visit_counts :
    (limit : ℕ) (e : Entry) (st : AgentStatus)
    → ((visit limit e st).fingerprints ≡ st.fingerprints + 1)
      × ((visit limit e st).blocked_fp
          ≡ (if leb limit e.count then st.blocked_fp + 1 else st.blocked_fp))
      × ((visit limit e st).agent ≡ st.agent)
unfolding visit
visit_counts limit e st = ground arith

scan_counts :
    (agent : AgentId) (now limit : ℕ) (st : AgentStatus) (found : Bool) (m : Map Key Entry)
    → ((status_scan agent now limit st found m).1.fingerprints
        ≡ st.fingerprints + length (live_entries agent now m))
      × ((status_scan agent now limit st found m).1.blocked_fp
          ≡ st.blocked_fp + count_reached limit (live_entries agent now m))
      × ((status_scan agent now limit st found m).1.agent ≡ st.agent)
      × ((status_scan agent now limit st found m).2
          ≡ (found || ltb 0 (length (live_entries agent now m))))
unfolding status_scan live_entries count_reached
scan_counts agent now limit st found [] = ground arith
scan_counts agent now limit st found ((k, e) ∷ m) =
    elim (Bool-cases (equals k.agent agent && ltb now e.expires)) [
      | inl hit ↦ rw hit (
          ground (
            arith,
            visit_counts limit e st,
            scan_counts agent now limit (visit limit e st) (found || true) m,
          ))
      | inr miss ↦ rw miss (ground (arith, scan_counts agent now limit st (found || false) m))
    ]

-- The status counts the agent's live entries and those of them that have reached the limit, and
-- calls the agent blocked exactly if there is one of the latter. There is a live entry if there is
-- a status, and none if there is no status.
pub agent_status_counts :
    (agent : AgentId) (now : ℕ) (d : HashDetector)
    → ((agent_status agent now d).1 ≡ none → live_entries agent now d.seen ≡ [])
      × ((st : AgentStatus)
          → (agent_status agent now d).1 ≡ some st
          → (st.agent ≡ agent)
            × (st.fingerprints ≡ length (live_entries agent now d.seen))
            × (0 < st.fingerprints)
            × (st.blocked_fp ≡ count_reached d.limit (live_entries agent now d.seen))
            × (st.blocked ≡ ltb 0 (count_reached d.limit (live_entries agent now d.seen))))
unfolding agent_status
agent_status_counts agent now d =
    let counts = scan_counts agent now d.limit (empty_status agent) false d.seen in
    (ground (arith, counts), λ st h. ground (arith, counts))
