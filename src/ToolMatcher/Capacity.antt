-- ===== src/ToolMatcher/Capacity.antt =====
-- The bounds on the matcher's memory, and what a request of one agent does to the others.
use finops_proxy.Prelude.{
  ℕ, ◌+◌, ◌≤◌, ◌≡◌, ◌≢◌, refl, Option, none, some, List, [], ◌∷◌, ◌++◌, arith, length, Option-cases,
  Bool-cases, inl, inr, ltb, leb, Bytes, bytes_eq, if◌then◌else◌, length-last, ◌==◌, ◌⊎◌, equals,
}
use finops_proxy.GoMap.{IsMap, lookup, insert}
use finops_proxy.GoMap.Laws.{lookup-insert_same, lookup-delete, length-delete}
use finops_proxy.GoMap.Admit.{
  admit, make_room, IsBounded, admit-IsBounded, kept, evicted, admit-Spared,
}
use finops_proxy.Detector.{AgentId, proceed}
use finops_proxy.ToolMatcher.{
  ToolConfig, ToolState, ToolMatcher, check_names, observe, state, evict_if_needed, push, confirm,
  judge, renew, reset, detect_cycle, Envelope, check_payload, extract_tool_names,
}

abbrev expiry : ToolState → ℕ
expiry st = st.expires

state_admits :
    (agent : AgentId) (now : ℕ) (m : ToolMatcher)
    → (state agent now m).0 ≡ admit expiry m.cfg.max_entries agent m.states
unfolding state admit make_room evict_if_needed
state_admits agent now m = elim (Option-cases (lookup agent m.states)) [
  | inl absent ↦ rw (state, absent)
  | inr (st, found) ↦ rw (state, found)
]

check_names_empty :
    (agent : AgentId) (now : ℕ) (m : ToolMatcher) → check_names agent [] now m ≡ (m, proceed)
unfolding check_names
check_names_empty agent now m = refl

-- what a request with a name does: the agent's state is observed, all else is the admission
pub check_names_step :
    (agent : AgentId) (n : Bytes) (names : List Bytes) (now : ℕ) (m : ToolMatcher)
    → check_names agent (n ∷ names) now m ≡ (
      record m {
        states =
            insert agent
              (observe m.cfg (n ∷ names) now (state agent now m).1).0
              (admit expiry m.cfg.max_entries agent m.states);
      },
      (observe m.cfg (n ∷ names) now (state agent now m).1).1,
    )
unfolding check_names
check_names_step agent n names now m = rw (← state_admits agent now m)

module _ (m : ToolMatcher) where
  abbrev pub IsValid : Type 0
  IsValid = IsBounded expiry m.cfg.max_entries m.states

  -- What is left of another agent's state.
  abbrev pub Others : AgentId → AgentId → ToolState → ToolMatcher → Type 0
  Others agent other st m' =
      (lookup other m'.states ≡ some st)
      ⊎ ((lookup other m'.states ≡ none)
          × (length m.states ≡ m.cfg.max_entries)
          × ((i : AgentId) (y : ToolState)
              → i ≢ agent
              → lookup i m'.states ≡ some y
              → st.expires ≤ y.expires))

module _ (decode : Bytes → Option Envelope) (m : ToolMatcher) (v : IsValid m) where
  check_names-IsValid :
      (agent : AgentId) (names : List Bytes) (now : ℕ) → IsValid (check_names agent names now m).0
  check_names-IsValid agent [] now = rw (check_names_empty agent now m) v
  check_names-IsValid agent (n ∷ names) now = rw (check_names_step agent n names now m) (
      admit-IsBounded expiry m.cfg.max_entries agent
        (observe m.cfg (n ∷ names) now (state agent now m).1).0 m.states v)

  -- From a valid matcher, every request keeps the number of tracked agents at or below
  -- `max_entries`, and no agent is tracked twice.
  pub check_payload-IsValid :
      (agent : AgentId) (body : Bytes) (now : ℕ) → IsValid (check_payload decode agent body now m).0
  unfolding check_payload
  check_payload-IsValid agent body now =
      check_names-IsValid agent (extract_tool_names decode body) now

  check_names-Others :
      (agent : AgentId) (names : List Bytes) (now : ℕ) (other : AgentId) (st : ToolState)
      → other ≢ agent
      → lookup other m.states ≡ some st
      → Others m agent other st (check_names agent names now m).0
  check_names-Others agent [] now other st ne found = rw (check_names_empty agent now m) (inl found)
  check_names-Others agent (n ∷ names) now other st ne found =
      rw (check_names_step agent n names now m)
        (elim (admit-Spared expiry m.cfg.max_entries agent
          (observe m.cfg (n ∷ names) now (state agent now m).1).0 m.states v other st ne found) [
            | kept same ↦ inl same
            | evicted gone full oldest ↦ inr (gone, full, oldest)
          ])

  -- From a valid matcher, a request of one agent leaves the state of every other agent as it was,
  -- unless the map is full and that state is evicted: then no state that is left, but the
  -- requesting agent's, had a window that ended before.
  pub check_payload-Others :
      (agent : AgentId) (body : Bytes) (now : ℕ) (other : AgentId) (st : ToolState)
      → other ≢ agent
      → lookup other m.states ≡ some st
      → Others m agent other st (check_payload decode agent body now m).0
  unfolding check_payload
  check_payload-Others agent body now other st ne found =
      check_names-Others agent (extract_tool_names decode body) now other st ne found

length-push-le :
    (names : List Bytes) (cap : ℕ) (st : ToolState) → length (push names cap st).seq ≤ cap
unfolding push
length-push-le names cap st = elim (Bool-cases (ltb cap (length (st.seq ++ names)))) [
  | inl long ↦ rw long (omega (arith, length-last cap (st.seq ++ names)))
  | inr short ↦ rw short (ground arith)
]

pub confirm_seq : (o : Option ℕ) (st : ToolState) → (confirm o st).seq ≡ st.seq
unfolding confirm
confirm_seq none st = refl
confirm_seq (some p) st = elim (Bool-cases (p == st.period)) [
  | inl again ↦ rw again
  | inr new ↦ rw new
]

pub judge_seq : (cfg : ToolConfig) (now : ℕ) (st : ToolState) → (judge cfg now st).0.seq ≡ st.seq
unfolding judge
judge_seq cfg now st = elim (Bool-cases (leb cfg.limit st.confirms)) [
  | inl reached ↦ rw reached
  | inr free ↦ rw free
]

length-observe-le :
    (cfg : ToolConfig) (names : List Bytes) (now : ℕ) (st : ToolState)
    → length (observe cfg names now st).0.seq ≤ cfg.max_seq
unfolding observe
length-observe-le cfg names now st =
    let pushed = push names cfg.max_seq (renew cfg now st) in
    let found = detect_cycle pushed.seq cfg.max_period in
    rw (judge_seq cfg now (confirm found pushed), confirm_seq found pushed)
      (length-push-le names cfg.max_seq (renew cfg now st))

-- After a request with a tool name, the agent's state is the observed one, with a sequence of at
-- most `max_seq` names.
pub lookup-check_names :
    (agent : AgentId) (n : Bytes) (names : List Bytes) (now : ℕ) (m : ToolMatcher)
    → (st : ToolState) × (lookup agent (check_names agent (n ∷ names) now m).0.states ≡ some st)
      × (length st.seq ≤ m.cfg.max_seq)
lookup-check_names agent n names now m =
    let st = (observe m.cfg (n ∷ names) now (state agent now m).1).0 in
    (
      st,
      rw (check_names_step agent n names now m)
          (lookup-insert_same agent agent st (admit expiry m.cfg.max_entries agent m.states) refl),
      length-observe-le m.cfg (n ∷ names) now (state agent now m).1,
    )

-- In a matcher that tracks no agent twice, a reset of an agent removes that agent's state and no
-- other, and counts what it removed.
pub lookup-reset_agent :
    (agent j : AgentId) (m : ToolMatcher)
    → IsMap m.states
    → (lookup j (reset agent m).0.states ≡ (if equals j agent then none else lookup j m.states))
      × ((reset agent m).1 + length (reset agent m).0.states ≡ length m.states)
unfolding reset
lookup-reset_agent agent j m v = elim (Option-cases (lookup agent m.states)) [
  | inl absent ↦ rw (reset, absent) (ground (arith, absent), omega arith)
  | inr (st, found) ↦
      rw (reset, found)
        (
          ground (arith, lookup-delete agent j m.states),
          omega (arith, length-delete agent st m.states v found),
        )
]
