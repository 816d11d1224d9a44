-- ===== src/Caller.antt =====
-- pkg/proxy/caller.go: the callers and their authentication. The hash of a key is a parameter.
mod Tests
pub mod Admission
use finops_proxy.Prelude.{ℕ, Option, none, some, [], ◌∷◌, Bytes, String}

pub record Caller : Type 0 where
  pub id : Bytes
  pub name : Bytes
  pub monthly_budget_micro : ℕ
  pub daily_budget_micro : ℕ

-- `Caller{}`
abbrev pub no_caller : Caller
no_caller = record { id = []; name = []; monthly_budget_micro = 0; daily_budget_micro = 0 }

-- the `Authenticator`s of this file: `NewAuthenticator` with its store's lookup by the hash of a
-- key, `none` any error, and `Noop`
pub data Authenticator : Type 0 where
  keyed : (Bytes → Option Caller) → Authenticator
  noop : Authenticator

module _ (hash_api_key : Bytes → Bytes) where
  -- `none` is ErrInvalidKey; the comparison on a miss only takes time
  unfoldable pub authenticate : Authenticator → Bytes → Option Caller
  authenticate noop raw = some no_caller
  authenticate (keyed caller_by_key_hash) [] = none
  authenticate (keyed caller_by_key_hash) (c ∷ raw) = caller_by_key_hash (hash_api_key (c ∷ raw))

  -- `Middleware`: the 401 it answers, or what `next` answers the request of this caller; the header
  -- with the key is not passed on
  unfoldable pub middleware :
      {R S : Type 0} → Option Authenticator → R → (Option Caller → S → S × R) → Bytes → S → S × R
  unfolding authenticate
  middleware none unauthorized next raw s = next none s
  middleware (some a) unauthorized next raw s = elim (authenticate a raw) [
    | none ↦ (s, unauthorized)
    | some c ↦ next (some c) s
  ]
