-- ===== src/Metrics/Series.antt =====
-- The series of the last seconds against the observations.
use finops_proxy.Prelude.{
  ℕ, zero, suc, ◌-◌, ◌%◌, ◌≤◌, ◌≡◌, refl, ap, arith, List, [], ◌∷◌, if◌then◌else◌, ltb, length,
  Bool-cases, inl, inr,
}
use finops_proxy.Metrics.{
  velocity_buckets, bucket, TokenWindow, TokenPoint, zeros, empty_window, advance, add, points,
  series,
}
use finops_proxy.Metrics.Seconds.{Holds, total_at, advance-Holds, add-Holds}

-- the seconds of the ages below `i`, oldest first, with the tokens observed in them
unfoldable pub totals : ℕ → ℕ → List (ℕ × ℕ) → List TokenPoint
totals zero sec h = []
totals (suc i) sec h =
    let rest = totals i sec h in
    if ltb sec i then rest else record { second = sec - i; tokens = total_at (sec - i) h } ∷ rest

points-totals :
    (i sec : ℕ) (h : List (ℕ × ℕ)) (w : TokenWindow)
    → Holds h w
    → w.latest ≡ sec
    → i ≤ velocity_buckets
    → points i sec w.buckets ≡ totals i sec h
unfolding points totals
points-totals zero sec h w c at small = refl
points-totals (suc i) sec h w c at small = elim (Bool-cases (ltb sec i)) [
  | inl young ↦ rw young (points-totals i sec h w c at (omega arith))
  | inr old ↦
      let there : i ≤ sec = ground arith in
      let exact = c.exact (sec - i) (omega arith) (omega arith) in
      rw (old, exact, points-totals i sec h w c at (omega arith)) refl
]

-- the observations, each with its second, one after the other
unfoldable pub add_all : List (ℕ × ℕ) → TokenWindow → TokenWindow
unfolding add
add_all [] w = w
add_all ((sec, tokens) ∷ obs) w = add_all obs (add sec tokens w)

-- the history with these observations
abbrev pub newest_last : List (ℕ × ℕ) → List (ℕ × ℕ) → List (ℕ × ℕ)
newest_last [] h = h
newest_last (o ∷ obs) h = newest_last obs (o ∷ h)

-- seconds that do not decrease, from one second to another
abbrev pub Ordered : ℕ → List (ℕ × ℕ) → ℕ → Type 0
Ordered from [] upto = from ≤ upto
Ordered from (o ∷ obs) upto = (from ≤ o.0) × Ordered o.0 obs upto

add_all-Holds :
    (from sec : ℕ) (obs h : List (ℕ × ℕ)) (w : TokenWindow)
    → Holds h w
    → w.latest ≤ from
    → Ordered from obs sec
    → Holds (newest_last obs h) (add_all obs w) × ((add_all obs w).latest ≤ sec)
unfolding add_all
add_all-Holds from sec [] h w c past o = (c, omega arith)
add_all-Holds from sec ((t, n) ∷ obs) h w c past o =
    let first = add-Holds t n h w c (omega (arith, o.0)) in
    add_all-Holds t sec obs ((t, n) ∷ h) (add t n w) first.0 first.1 o.1

bucket-zeros : (i n : ℕ) → bucket i (zeros n) ≡ 0
unfolding bucket zeros
bucket-zeros i zero = refl
bucket-zeros zero (suc n) = refl
bucket-zeros (suc i) (suc n) = bucket-zeros i n

length-zeros : (n : ℕ) → length (zeros n) ≡ n
unfolding zeros
length-zeros zero = refl
length-zeros (suc n) = ap suc (length-zeros n)

empty-Holds : Holds [] empty_window
unfolding total_at empty_window
empty-Holds = record {
  size = length-zeros velocity_buckets;
  exact = λ s below recent. bucket-zeros (s % velocity_buckets) velocity_buckets;
  later = λ s above. refl;
}

-- After observations in seconds that do not decrease, on an empty window, the series has the last 64
-- seconds, from the oldest to the present one, and for each the sum of the positive numbers of tokens
-- observed in it, modulo 2^64.
pub series-totals :
    (sec : ℕ) (obs : List (ℕ × ℕ))
    → Ordered 0 obs sec
    → (series sec (add_all obs empty_window)).1 ≡ totals velocity_buckets sec (newest_last obs [])
unfolding series empty_window
series-totals sec obs o =
    let c = add_all-Holds 0 sec obs [] empty_window empty-Holds (omega arith) o in
    let at = advance-Holds sec (newest_last obs []) (add_all obs empty_window) c.0 c.1 in
    points-totals velocity_buckets sec (newest_last obs []) (advance sec (add_all obs empty_window))
      at.0 at.1 (omega arith)
