-- ===== src/VelocityBreaker/Sums.antt =====
-- The running sums of velocity_breaker.go against the rings that they sum up.
use finops_proxy.Prelude.{
  ℕ, ◌+◌, ◌%◌, ◌^◌, ◌<◌, ◌≡◌, List, [], ◌∷◌, ◌++◌, arith, length, ltb, Bool-cases, inl, inr, All,
  add64, sub64,
}
use finops_proxy.VelocityBreaker.{TokenEvent, expire, trim, append_ring, max_velocity_events}
use finops_proxy.VelocityBreaker.Ring.{All-append, observation}

unfoldable pub total : List TokenEvent → ℕ
total [] = 0
total (e ∷ es) = e.n + total es

abbrev pub InRange : List TokenEvent → Type 0
InRange = All (λ e. e.n < 2 ^ 64)

-- The sum is that of the ring's tokens, modulo 2^64.
abbrev pub IsSum : List TokenEvent × ℕ → Type 0
IsSum r = (r.1 ≡ total r.0 % 2 ^ 64) × InRange r.0

total-append : (xs ys : List TokenEvent) → total (xs ++ ys) ≡ total xs + total ys
unfolding total
total-append [] ys = omega arith
total-append (x ∷ xs) ys = omega (arith, total-append xs ys)

sub_first : (n rest sum : ℕ) → n < 2 ^ 64 → sum ≡ (n + rest) % 2 ^ 64 → sub64 sum n ≡ rest % 2 ^ 64
sub_first n rest sum h e = omega arith

expire-IsSum :
    (window now : ℕ) (es : List TokenEvent) (sum : ℕ)
    → IsSum (es, sum)
    → IsSum (expire window now es sum)
unfolding expire total
expire-IsSum window now [] sum h = h
expire-IsSum window now (e ∷ es) sum h = elim (Bool-cases (ltb now (e.t + window))) [
  | inl live ↦ rw live h
  | inr out ↦
      rw out
        (expire-IsSum window now es (sub64 sum e.n) (sub_first e.n (total es) sum h.1.0 h.0, h.1.1))
]

trim-IsSum : (es : List TokenEvent) (sum : ℕ) → IsSum (es, sum) → IsSum (trim es sum)
unfolding trim total
trim-IsSum [] sum h = h
trim-IsSum (e ∷ es) sum h = elim (Bool-cases (ltb max_velocity_events (length (e ∷ es)))) [
  | inl long ↦
      rw long (trim-IsSum es (sub64 sum e.n) (sub_first e.n (total es) sum h.1.0 h.0, h.1.1))
  | inr fits ↦ rw fits h
]

total-snoc : (es : List TokenEvent) (e : TokenEvent) → total (es ++ (e ∷ [])) ≡ total es + e.n
unfolding total
total-snoc es e = omega (arith, total-append es (e ∷ []))

pub append_ring-IsSum :
    (window now tokens : ℕ) (events : List TokenEvent) (sum : ℕ)
    → tokens < 2 ^ 64
    → IsSum (events, sum)
    → IsSum (append_ring window now tokens events sum)
unfolding append_ring
append_ring-IsSum window now tokens events sum range h =
    let e = observation now tokens in
    let expired = expire window now (events ++ (e ∷ [])) (add64 sum tokens) in
    trim-IsSum expired.0 expired.1 (
      expire-IsSum window now (events ++ (e ∷ [])) (add64 sum tokens) (
        omega (arith, h.0, total-snoc events e),
        All-append (λ x. x.n < 2 ^ 64) events (e ∷ []) h.1 (range, tt),
      ))
