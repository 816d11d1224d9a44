-- ===== src/Caller/Tests.antt =====
-- caller.go on concrete inputs, with the identity for the hash.
use finops_proxy.Prelude.{
  ℕ, suc, ◌≡◌, refl, Option, some, [], ◌∷◌, Bytes, bytes, bytes_eq, bytes_discrete, ℕ_discrete,
}
use finops_proxy.GoMap.{lookup}
use finops_proxy.Caller.{Caller, no_caller, keyed, noop, authenticate, middleware}
use finops_proxy.Caller.Admission
use finops_proxy.Caller.Admission.{Admitted}

runs : Unit {0}
unfolding lookup authenticate middleware bytes_discrete ℕ_discrete
runs = tt

abbrev bob : Caller
bob = record no_caller { id = bytes "bob" }

abbrev find : Bytes → Option Caller
unfolding lookup
find hash = lookup hash ((bytes "k1", bob) ∷ [])

-- the next handler counts the requests, and answers 200
abbrev next : Option Caller → ℕ → ℕ × ℕ
next c n = (suc n, 200)

middleware-Admitted_example :
    Admitted
      (λ k. k)
      find
      401
      next
      (bytes "k1")
      5
      (middleware (λ k. k) (some (keyed find)) 401 next (bytes "k1") 5)
middleware-Admitted_example = Admission.middleware-Admitted (λ k. k) find 401 next (bytes "k1") 5

passed : middleware (λ k. k) (some (keyed find)) 401 next (bytes "k1") 5 ≡ (6, 200)
unfolding runs
passed = refl

refused : middleware (λ k. k) (some (keyed find)) 401 next (bytes "k2") 5 ≡ (5, 401)
unfolding runs
refused = refl

unauthenticated : middleware (λ k. k) (some noop) 401 next [] 5 ≡ (6, 200)
unfolding runs
unauthenticated = refl
