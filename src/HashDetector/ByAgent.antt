-- ===== src/HashDetector/ByAgent.antt =====
-- `sort.Slice` by agent in hash_detector.go: the order, and that no status is lost or changed.
use finops_proxy.Prelude.{
  ◌≡◌, refl, ◌∙◌, Option, none, some, false, bytes_lt, List, [], ◌∷◌, arith, equals, bytes_eq,
  if◌then◌else◌, bytes_lt_irrefl, bytes_lt_asym,
}
use finops_proxy.Detector.{AgentId, AgentStatus}
use finops_proxy.HashDetector.{key_eq, insert_by_agent, sort_by_agent}

-- the first status of an agent in a list
unfoldable pub find_status : AgentId → List AgentStatus → Option AgentStatus
find_status agent [] = none
find_status agent (st ∷ sts) =
    let rest = find_status agent sts in if equals st.agent agent then some st else rest

find_status-insert :
    (agent : AgentId) (st : AgentStatus) (sts : List AgentStatus)
    → find_status agent (insert_by_agent st sts)
      ≡ (if equals st.agent agent then some st else find_status agent sts)
unfolding find_status insert_by_agent
find_status-insert agent st [] = refl
find_status-insert agent st (x ∷ sts) =
    ground (arith, find_status-insert agent st sts, bytes_lt_irrefl agent)

pub find_status-sort :
    (agent : AgentId) (sts : List AgentStatus)
    → find_status agent (sort_by_agent sts) ≡ find_status agent sts
unfolding find_status sort_by_agent
find_status-sort agent [] = refl
find_status-sort agent (x ∷ sts) =
    find_status-insert agent x (sort_by_agent sts) ∙ ground (arith, find_status-sort agent sts)

-- No status of the list comes before one with a smaller agent.
abbrev pub IsSortedByAgent : List AgentStatus → Type 0
IsSortedByAgent [] = Unit
IsSortedByAgent (x ∷ []) = Unit
IsSortedByAgent (x ∷ y ∷ xs) = (bytes_lt y.agent x.agent ≡ false) × IsSortedByAgent (y ∷ xs)

insert_by_agent-IsSortedByAgent :
    (x : AgentStatus) (xs : List AgentStatus)
    → IsSortedByAgent xs
    → IsSortedByAgent (insert_by_agent x xs)
unfolding insert_by_agent
insert_by_agent-IsSortedByAgent x [] s = tt
insert_by_agent-IsSortedByAgent x (y ∷ []) s = ground (arith, bytes_lt_asym y.agent x.agent)
insert_by_agent-IsSortedByAgent x (y ∷ z ∷ xs) s =
    ground (arith, bytes_lt_asym y.agent x.agent, insert_by_agent-IsSortedByAgent x (z ∷ xs) s.1)

pub sort_by_agent-IsSortedByAgent : (xs : List AgentStatus) → IsSortedByAgent (sort_by_agent xs)
unfolding sort_by_agent
sort_by_agent-IsSortedByAgent [] = tt
sort_by_agent-IsSortedByAgent (x ∷ xs) =
    insert_by_agent-IsSortedByAgent x (sort_by_agent xs) (sort_by_agent-IsSortedByAgent xs)
