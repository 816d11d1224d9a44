-- ===== src/Handler/Flow.antt =====
-- What one request leads to.
use finops_proxy.Prelude.{
  ℕ, ◌≤◌, ◌≡◌, refl, Option, none, some, Bool, true, false, Bytes, length, if◌then◌else◌,
}
use finops_proxy.Caller.{Caller}
use finops_proxy.Handler.{Wiring, State, Request, RequestMeta, budget_gate, consult}
use finops_proxy.Handler.Serve.{meta_of}

-- what holds of both branches holds of the choice
pub if_case :
    {A : Type 0} (b : Bool) (x y : A) (P : A → Type 0)
    → (b ≡ true → P x)
    → (b ≡ false → P y)
    → P (if b then x else y)
if_case true x y P h k = h refl
if_case false x y P h k = k refl

module _ {D S : Type 0} (w : Wiring D S) (now : ℕ) (r : Request) where
  -- what is known of a request that is forwarded with the body that was read
  pub record Forwarded (st : State D S) (body : Bytes) (meta : Option RequestMeta) : Type 0 where
    pub posted : r.is_post ≡ true
    pub within : budget_gate w now r.caller st.store ≡ none
    pub unaltered : r.body ≡ some body
    pub small : length body ≤ w.max_body_bytes
    pub accepted : (consult w r.agent (w.fingerprint body) body now st.detector).1.block ≡ false
    pub tracked : meta ≡ meta_of w now r w.price body

  -- the forwarding of a body that was read
  abbrev pub Accepted : State D S → Bytes → Bytes → Option RequestMeta → Type 0
  Accepted st read body meta =
      (read ≡ body)
      × ((consult w r.agent (w.fingerprint read) read now st.detector).1.block ≡ false)
      × (meta_of w now r w.price read ≡ meta)
