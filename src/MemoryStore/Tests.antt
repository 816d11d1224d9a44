-- ===== src/MemoryStore/Tests.antt =====
-- memory.go on concrete inputs.
use finops_proxy.Prelude.{
  ℕ, ◌≡◌, refl, Bool, true, false, [], ◌∷◌, Bytes, bytes_discrete, ℕ_discrete, dec_le, dec_lt,
  bytes_eq,
}
use finops_proxy.MemoryStore.{
  RequestRecord, Store, new, sum_from, sum_actual_cost_since, sum_actual_cost_for_key_since,
}
use finops_proxy.MemoryStore.Ledger
use finops_proxy.MemoryStore.Ledger.{sum_for_keys, occurs}

abbrev record_of : Bytes → ℕ → Bool → ℕ → RequestRecord
record_of key cost blocked time = record {
  agent_id = [];
  key_id = key;
  project_name = [];
  model = [];
  prompt_tokens = 0;
  completion_tokens = 0;
  cost_usd = cost;
  is_loop_blocked = blocked;
  timestamp = time;
}

abbrev store : Store ℕ
store = record new {
  logs =
      record_of (b'a' ∷ []) 5 false 10
      ∷ record_of (b'b' ∷ []) 7 false 20
      ∷ record_of (b'a' ∷ []) 100 true 20
      ∷ record_of (b'a' ∷ []) 9 false 5
      ∷ [];
}

runs : Unit {0}
unfolding sum_from sum_actual_cost_since sum_actual_cost_for_key_since sum_for_keys occurs
    bytes_discrete ℕ_discrete dec_le dec_lt
runs = tt

since_ten : sum_actual_cost_since 10 store ≡ 12
unfolding runs
since_ten = refl

sum_for_keys-sum_actual_cost_since_example :
    sum_for_keys 10 ((b'a' ∷ []) ∷ (b'b' ∷ []) ∷ []) store ≡ sum_actual_cost_since 10 store
unfolding runs
sum_for_keys-sum_actual_cost_since_example =
    Ledger.sum_for_keys-sum_actual_cost_since 10 store ((b'a' ∷ []) ∷ (b'b' ∷ []) ∷ [])
      (refl, (refl, (refl, (refl, tt))))

abbrev late : RequestRecord
late = record_of (b'b' ∷ []) 30 false 40
