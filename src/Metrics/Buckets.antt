-- ===== src/Metrics/Buckets.antt =====
-- The ring of the seconds: what a bucket holds after the clearing and the updates.
use finops_proxy.Prelude.{
  ℕ, zero, suc, ◌+◌, ◌%◌, ◌≤◌, ◌<◌, ◌≡◌, ◌≢◌, refl, ap, ◌∙◌, arith, List, [], ◌∷◌, length, dec_lt,
}
use finops_proxy.Metrics.{velocity_buckets, bucket, set_bucket, clear}

pub length-set_bucket : (i v : ℕ) (xs : List ℕ) → length (set_bucket i v xs) ≡ length xs
unfolding set_bucket
length-set_bucket i v [] = refl
length-set_bucket zero v (x ∷ xs) = refl
length-set_bucket (suc i) v (x ∷ xs) = ap suc (length-set_bucket i v xs)

pub bucket-set_bucket_same :
    (i v : ℕ) (xs : List ℕ) → i < length xs → bucket i (set_bucket i v xs) ≡ v
unfolding bucket set_bucket
bucket-set_bucket_same i v [] h = absurd (omega arith)
bucket-set_bucket_same zero v (x ∷ xs) h = refl
bucket-set_bucket_same (suc i) v (x ∷ xs) h = bucket-set_bucket_same i v xs (omega arith)

pub bucket-set_bucket_ne :
    (i j v : ℕ) (xs : List ℕ) → i ≢ j → bucket j (set_bucket i v xs) ≡ bucket j xs
unfolding bucket set_bucket
bucket-set_bucket_ne i j v [] h = refl
bucket-set_bucket_ne zero zero v (x ∷ xs) h = absurd (h refl)
bucket-set_bucket_ne zero (suc j) v (x ∷ xs) h = refl
bucket-set_bucket_ne (suc i) zero v (x ∷ xs) h = refl
bucket-set_bucket_ne (suc i) (suc j) v (x ∷ xs) h =
    bucket-set_bucket_ne i j v xs (λ e. h (ap suc e))

pub length-clear : (n i : ℕ) (xs : List ℕ) → length (clear n i xs) ≡ length xs
unfolding clear
length-clear zero i xs = refl
length-clear (suc n) i xs =
    length-clear n (i + 1) (set_bucket (i % velocity_buckets) 0 xs)
    ∙ length-set_bucket (i % velocity_buckets) 0 xs

-- a bucket of a second that is not cleared
pub bucket-clear_before :
    (n i s : ℕ) (xs : List ℕ)
    → s < i
    → i + n ≤ s + velocity_buckets
    → bucket (s % velocity_buckets) (clear n i xs) ≡ bucket (s % velocity_buckets) xs
unfolding clear
bucket-clear_before zero i s xs h k = refl
bucket-clear_before (suc n) i s xs h k =
    bucket-clear_before n (i + 1) s (set_bucket (i % velocity_buckets) 0 xs) (omega arith)
      (omega arith)
    ∙ bucket-set_bucket_ne (i % velocity_buckets) (s % velocity_buckets) 0 xs (λ e. omega arith)

-- a bucket of a second that is cleared, and of none cleared later
pub bucket-clear_within :
    (n i s : ℕ) (xs : List ℕ)
    → length xs ≡ velocity_buckets
    → i ≤ s
    → s < i + n
    → i + n ≤ s + velocity_buckets
    → bucket (s % velocity_buckets) (clear n i xs) ≡ 0
unfolding clear
bucket-clear_within zero i s xs l h k m = absurd (omega arith)
bucket-clear_within (suc n) i s xs l h k m = elim (dec_lt i s) [
  | yes later ↦
      bucket-clear_within n (i + 1) s (set_bucket (i % velocity_buckets) 0 xs)
        (length-set_bucket (i % velocity_buckets) 0 xs ∙ l) (omega arith) (omega arith)
        (omega arith)
  | no now ↦
      let here : i ≡ s = omega arith in
      bucket-clear_before n (i + 1) s (set_bucket (i % velocity_buckets) 0 xs) (omega arith)
        (omega arith)
      ∙ ap (λ j. bucket (s % velocity_buckets) (set_bucket (j % velocity_buckets) 0 xs)) here
      ∙ bucket-set_bucket_same (s % velocity_buckets) 0 xs (omega (arith, l))
]
