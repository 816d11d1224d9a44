-- ===== src/HashDetector.antt =====
-- pkg/circuitbreaker/hash_detector.go: exact repeats within a fixed window. The clock's reading is
-- an argument, as `now` is a field that tests replace. Each method is one step: the mutex covers
-- all of it.
mod Steps
pub mod Capacity
pub mod Reset
pub mod History
pub mod Window
pub mod Incident
pub mod Limit
pub mod Status
pub mod ByAgent
pub mod Blocked
mod Tests
use finops_proxy.Prelude.{
  ℕ, ◌+◌, ◌-◌, ◌≡◌, ℤ, pos, positive_or, Option, none, some, Bool, true, false, List, [], ◌∷◌, not,
  ◌&&◌, ◌||◌, bytes_lt, length, ltb, leb, Eq, equals, ℕ_discrete, if◌then◌else◌, bytes_eq,
}
use finops_proxy.GoMap.{Map, lookup, insert, evict}
use finops_proxy.Detector.{
  AgentId, Fingerprint, CheckResult, AgentStatus, proceed, reason_exact_hash, is_zero,
  ceil_div_second,
}

pub record Key : Type 0 where
  pub agent : AgentId
  pub fp : Fingerprint

unfoldable pub key_discrete : Discrete Key
key_discrete = hlevel ℕ_discrete

instance abbrev pub key_eq : Eq Key
key_eq = record { decide = key_discrete }

pub record Entry : Type 0 where
  pub count : ℕ
  pub expires : ℕ
  pub blocked_at : ℕ
  pub last_block : ℕ

pub record HashDetector : Type 0 where
  pub seen : Map Key Entry
  pub ttl : ℕ
  pub limit : ℕ
  pub max : ℕ

abbrev pub max_entries : ℕ
max_entries = 100_000

unfoldable pub new_hash_detector : ℕ → ℤ → HashDetector
new_hash_detector ttl limit = record {
  seen = [];
  ttl = ttl;
  limit = positive_or 2 limit;
  max = max_entries;
}

unfoldable pub set_limit : ℤ → HashDetector → HashDetector
set_limit n d = record d { limit = positive_or 1 n }

unfoldable pub evict_if_needed : HashDetector → Map Key Entry
unfolding evict
evict_if_needed d = evict (length d.seen) (λ e. e.expires) d.max d.seen

-- the first sighting, and any sighting after the window has expired
unfoldable pub open_window : HashDetector → Key → ℕ → HashDetector × CheckResult
unfolding evict_if_needed insert
open_window d k now = (
  record d {
    seen =
        insert k (record { count = 1; expires = now + d.ttl; blocked_at = 0; last_block = 0 })
          (evict_if_needed d);
  },
  proceed,
)

-- the entry that a repeat leaves, and whether this is the transition into the blocked state
unfoldable pub count_repeat : ℕ → Entry → ℕ → Entry × Bool
count_repeat limit e now =
    if leb limit (e.count + 1)
    then (
      record e {
        count = e.count + 1;
        blocked_at = if is_zero e.blocked_at then now else e.blocked_at;
        last_block = now;
      },
      is_zero e.blocked_at,
    )
    else (record e { count = e.count + 1 }, false)

unfoldable pub repeat : HashDetector → Key → Entry → ℕ → HashDetector × CheckResult
unfolding count_repeat insert
repeat d k e now =
    let (e', first) = count_repeat d.limit e now in
    let d' = record d { seen = insert k e' d.seen } in
    if ltb e'.count d.limit then (d', proceed) else (
      d',
      record {
        block = true;
        reason = reason_exact_hash;
        retry_after = ceil_div_second (e'.expires - now);
        first_block = first;
      },
    )

unfoldable pub check : AgentId → Fingerprint → ℕ → HashDetector → HashDetector × CheckResult
unfolding lookup open_window repeat
check agent fp now d =
    let k : Key = record { agent = agent; fp = fp } in
    elim (lookup k d.seen) [
      | none ↦ open_window d k now
      | some e ↦ if ltb now e.expires then repeat d k e now else open_window d k now
    ]

-- the loop of `Reset`: what is left of the map, and how many entries were deleted
unfoldable pub reset_scan : AgentId → Map Key Entry → Map Key Entry × ℕ
reset_scan agent [] = ([], 0)
reset_scan agent ((k, e) ∷ m) =
    let (rest, n) = reset_scan agent m in
    if equals k.agent agent then (rest, n + 1) else ((k, e) ∷ rest, n)

unfoldable pub reset : AgentId → HashDetector → HashDetector × ℕ
unfolding reset_scan
reset agent d = let (rest, n) = reset_scan agent d.seen in (record d { seen = rest }, n)

-- `sort.Slice(out, …)` by `Agent`; Go compares strings byte by byte
unfoldable pub insert_by_agent : AgentStatus → List AgentStatus → List AgentStatus
insert_by_agent st [] = st ∷ []
insert_by_agent st (x ∷ xs) =
    let later = insert_by_agent st xs in
    if bytes_lt x.agent st.agent then x ∷ later else st ∷ x ∷ xs

unfoldable pub sort_by_agent : List AgentStatus → List AgentStatus
unfolding insert_by_agent
sort_by_agent [] = []
sort_by_agent (x ∷ xs) = insert_by_agent x (sort_by_agent xs)

-- what one live entry adds to the status of its agent, in the loop of `AgentStatus`
unfoldable pub visit : ℕ → Entry → AgentStatus → AgentStatus
visit limit e st =
    let st' = record st { fingerprints = st.fingerprints + 1 } in
    if leb limit e.count
    then record st' {
      blocked_fp = st.blocked_fp + 1;
      first_blocked =
          if not (is_zero e.blocked_at)
            && (is_zero st.first_blocked || ltb e.blocked_at st.first_blocked)
          then e.blocked_at
          else st.first_blocked;
      last_blocked =
          if not (is_zero e.last_block) && ltb st.last_blocked e.last_block
          then e.last_block
          else st.last_blocked;
    }
    else st'

abbrev pub empty_status : AgentId → AgentStatus
empty_status agent = record {
  agent = agent;
  blocked = false;
  fingerprints = 0;
  blocked_fp = 0;
  first_blocked = 0;
  last_blocked = 0;
}

-- the loop of `AgentStatus`: the swept map, the status so far, and `found`
unfoldable pub status_scan :
    AgentId → ℕ → ℕ → AgentStatus → Bool → Map Key Entry → Map Key Entry × AgentStatus × Bool
unfolding visit
status_scan agent now limit st found [] = ([], st, found)
status_scan agent now limit st found ((k, e) ∷ m) =
    let mine = equals k.agent agent in
    let live = ltb now e.expires in
    let (rest, st', found') =
      status_scan agent now limit (if mine && live then visit limit e st else st)
        (found || (mine && live)) m in
    (if mine && not live then rest else (k, e) ∷ rest, st', found')

-- `none` is the second result `false`, beside which the status is empty
unfoldable pub agent_status : AgentId → ℕ → HashDetector → HashDetector × Option AgentStatus
unfolding status_scan
agent_status agent now d =
    let (rest, st, found) = status_scan agent now d.limit (empty_status agent) false d.seen in
    (
      record d { seen = rest },
      if found then some (record st { blocked = ltb 0 st.blocked_fp }) else none,
    )

abbrev pub or_empty : AgentId → Option AgentStatus → AgentStatus
or_empty agent none = empty_status agent
or_empty agent (some st) = st

-- what one live entry adds to the status of its agent, in the loop of `BlockedAgents`
unfoldable pub tally : ℕ → Entry → AgentStatus → AgentStatus
tally limit e st =
    let st' = record st { fingerprints = st.fingerprints + 1 } in
    if leb limit e.count
    then record st' {
      blocked_fp = st.blocked_fp + 1;
      first_blocked =
          if not (is_zero e.blocked_at)
            && (is_zero st.first_blocked || ltb e.blocked_at st.first_blocked)
          then e.blocked_at
          else st.first_blocked;
      last_blocked =
          if not (is_zero e.last_block) && ltb st.last_blocked e.last_block
          then e.last_block
          else st.last_blocked;
    }
    else st'

-- the loop of `BlockedAgents`: the swept map, and the statuses by agent
unfoldable pub agents_scan :
    ℕ → ℕ → Map AgentId AgentStatus → Map Key Entry → Map Key Entry × Map AgentId AgentStatus
unfolding tally lookup insert
agents_scan now limit by_agent [] = ([], by_agent)
agents_scan now limit by_agent ((k, e) ∷ m) =
    let live = ltb now e.expires in
    let st = tally limit e (or_empty k.agent (lookup k.agent by_agent)) in
    let (rest, by_agent') =
      agents_scan now limit (if live then insert k.agent st by_agent else by_agent) m in
    (if live then (k, e) ∷ rest else rest, by_agent')

-- `st.Blocked = st.BlockedFP > 0`, and the blocked ones appended to the result
unfoldable pub blocked_only : Map AgentId AgentStatus → List AgentStatus
blocked_only [] = []
blocked_only ((a, st) ∷ m) =
    let rest = blocked_only m in
    if ltb 0 st.blocked_fp then record st { blocked = true } ∷ rest else rest

unfoldable pub blocked_agents : ℕ → HashDetector → HashDetector × List AgentStatus
unfolding agents_scan blocked_only sort_by_agent
blocked_agents now d =
    let (rest, by_agent) = agents_scan now d.limit [] d.seen in
    (record d { seen = rest }, sort_by_agent (blocked_only by_agent))
