-- ===== src/Registry/Delay.antt =====
-- The delay before the next refresh.
use finops_proxy.Prelude.{
  ℕ, zero, suc, ◌+◌, ◌-◌, ◌*◌, ◌%◌, ◌^◌, min, ◌≤◌, ◌<◌, ◌≡◌, refl, ◌∙◌, ap, arith, if◌then◌else◌,
  ltb, dec_lt, lt→ltb, le→ltb_false, mul64, slt64,
}
use native.Mathlib.Nat.{mul-le-mul_left, mul-one, mul_assoc, mul_comm, pow-suc}
use finops_proxy.Registry.{Registry, double_backoff, cap_delay, next_delay}

-- below 2^63 the signed order is that of the numbers
slt64_small : (a b : ℕ) → a < 2 ^ 63 → b < 2 ^ 63 → slt64 a b ≡ ltb a b
slt64_small a b h k =
    let ea : (a + 2 ^ 63) % 2 ^ 64 ≡ a + 2 ^ 63 = omega arith in
    let eb : (b + 2 ^ 63) % 2 ^ 64 ≡ b + 2 ^ 63 = omega arith in rw (ea, eb) (ground arith)

power_positive : (n : ℕ) → 1 ≤ 2 ^ n
power_positive zero = omega arith
power_positive (suc n) = omega (arith, power_positive n)

double_power : (b n : ℕ) → b * 2 * 2 ^ n ≡ b * 2 ^ suc n
double_power b n = rw (pow-suc 2 n) (mul_assoc b 2 (2 ^ n) ∙ ap (λ k. b * k) (mul_comm 2 (2 ^ n)))

below_double-le : (b max n : ℕ) → max ≤ b → max ≤ b * 2 ^ n
below_double-le b max n h = omega (arith, mul-le-mul_left b (power_positive n), mul-one b)

double_backoff-min :
    (n max backoff : ℕ)
    → max ≤ 2 ^ 62
    → backoff < 2 ^ 63
    → (min max (double_backoff n max backoff) ≡ min max (backoff * 2 ^ n))
      × (double_backoff n max backoff < 2 ^ 63)
unfolding double_backoff
double_backoff-min zero max backoff hm hb = (ap (min max) (omega arith), hb)
double_backoff-min (suc n) max backoff hm hb =
    let signed : slt64 backoff max ≡ ltb backoff max = slt64_small backoff max hb (omega arith) in
    elim (dec_lt backoff max) [
      | yes more ↦
          let once : mul64 backoff 2 ≡ backoff * 2 = omega arith in
          let ih = double_backoff-min n max (backoff * 2) hm (omega arith) in
          rw (signed, lt→ltb backoff max more, once)
            (ih.0 ∙ ap (min max) (double_power backoff n), ih.1)
      | no enough ↦
          let far : max ≤ backoff * 2 ^ suc n = below_double-le backoff max (suc n) (omega arith) in
          rw (signed, le→ltb_false max backoff (omega arith)) (omega arith, hb)
    ]

cap_delay-min :
    (interval max backoff : ℕ)
    → interval < 2 ^ 63
    → max < 2 ^ 63
    → backoff < 2 ^ 63
    → cap_delay interval max backoff ≡ min interval (min max backoff)
cap_delay-min interval max backoff hi hm hb =
    let capped = slt64_small max backoff hm hb in
    elim (dec_lt max backoff) [
      | yes more ↦
          rw (capped, lt→ltb max backoff more, slt64_small max interval hm hi) (ground arith)
      | no less ↦
          rw (capped, le→ltb_false backoff max (omega arith), slt64_small backoff interval hb hi)
            (ground arith)
    ]

-- After failures the delay is the base of the backoff, doubled for each failure after the first, and
-- no more than the largest backoff or the interval: no number of failures overflows it, if the
-- interval and the base are below 2^63 and the largest backoff is at most 2^62. With no failure it
-- is the interval.
pub next_delay-min :
    {F E : Type 0} (r : Registry F E)
    → r.cfg.refresh_interval < 2 ^ 63
    → r.cfg.backoff_max ≤ 2 ^ 62
    → r.cfg.backoff_base < 2 ^ 63
    → next_delay r ≡ (
        if ltb 0 r.fails
        then min r.cfg.refresh_interval
            (min r.cfg.backoff_max (r.cfg.backoff_base * 2 ^ (r.fails - 1)))
        else r.cfg.refresh_interval)
unfolding next_delay
next_delay-min r hi hm hb =
    let doubled = double_backoff-min (r.fails - 1) r.cfg.backoff_max r.cfg.backoff_base hm hb in
    rw
      (
        ← doubled.0,
        ← cap_delay-min r.cfg.refresh_interval r.cfg.backoff_max _ hi (omega arith) doubled.1,
      )
      refl
