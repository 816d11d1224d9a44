-- ===== src/Caller/Admission.antt =====
-- Who is let in.
use finops_proxy.Prelude.{
  ◌≡◌, ◌≢◌, refl, arith, Option, none, some, Option-cases, inl, inr, [], ◌∷◌, Bytes,
}
use finops_proxy.Caller.{Caller, keyed, authenticate, middleware}

-- how the middleware answers a request with this key
pub data Admitted {R S : Type 0} (hash : Bytes → Bytes) (find : Bytes → Option Caller)
    (unauthorized : R) (next : Option Caller → S → S × R) (raw : Bytes) (s : S)
    : S × R → Type 0 where
  refused : (raw ≡ []) → Admitted hash find unauthorized next raw s (s, unauthorized)
  unknown : find (hash raw) ≡ none → Admitted hash find unauthorized next raw s (s, unauthorized)
  known :
      (c : Caller)
      → raw ≢ []
      → find (hash raw) ≡ some c
      → Admitted hash find unauthorized next raw s (next (some c) s)

-- With the authenticator of a store, a request without a key, or with a key that the store does not
-- have, is answered 401 and changes nothing, and any other is passed on with the caller that the
-- store has for the hash of its key.
pub middleware-Admitted :
    {R S : Type 0} (hash : Bytes → Bytes) (find : Bytes → Option Caller) (unauthorized : R)
    (next : Option Caller → S → S × R) (raw : Bytes) (s : S)
    → Admitted hash find unauthorized next raw s
        (middleware hash (some (keyed find)) unauthorized next raw s)
unfolding middleware authenticate
middleware-Admitted hash find unauthorized next [] s = Admitted.refused refl
middleware-Admitted hash find unauthorized next (c ∷ raw) s =
    elim (Option-cases (find (hash (c ∷ raw)))) [
      | inl e ↦ rw (middleware, authenticate, e) (Admitted.unknown e)
      | inr (caller, e) ↦
          rw (middleware, authenticate, e) (Admitted.known caller (λ h. ground arith) e)
    ]
