-- ===== src/Metrics/Seconds.antt =====
-- The tokens of each of the last 64 seconds.
use finops_proxy.Prelude.{
  ℕ, ◌+◌, ◌-◌, ◌%◌, ◌≤◌, ◌<◌, ◌≡◌, ◌≢◌, refl, sym, ap, ◌∙◌, arith, true, false, ◌&&◌, List, [], ◌∷◌,
  if◌then◌else◌, ◌==◌, length, dec_lt, ℕ_discrete, add64, slt64, Bool-cases, inl, inr, gt→leb,
  le→leb, lt→ltb, le→ltb_false,
}
use finops_proxy.Metrics.{velocity_buckets, bucket, set_bucket, clear, TokenWindow, advance, add}
use finops_proxy.Metrics.Buckets.{
  length-set_bucket, bucket-set_bucket_same, bucket-set_bucket_ne, length-clear,
  bucket-clear_before, bucket-clear_within,
}

-- the tokens observed in a second, in a history with the newest observation first; a number that is
-- not positive does not count
unfoldable pub total_at : ℕ → List (ℕ × ℕ) → ℕ
total_at s [] = 0
total_at s ((sec, tokens) ∷ h) =
    let rest = total_at s h in if s == sec && slt64 0 tokens then add64 rest tokens else rest

-- the window holds the seconds of a history
pub record Holds (h : List (ℕ × ℕ)) (w : TokenWindow) : Type 0 where
  pub size : length w.buckets ≡ velocity_buckets
  pub exact :
      (s : ℕ)
      → s ≤ w.latest
      → w.latest < s + velocity_buckets
      → bucket (s % velocity_buckets) w.buckets ≡ total_at s h
  pub later : (s : ℕ) → w.latest < s → total_at s h ≡ 0

cleared-Holds :
    (sec first : ℕ) (h : List (ℕ × ℕ)) (w : TokenWindow)
    → Holds h w
    → w.latest < sec
    → w.latest < first
    → first ≤ sec + 1
    → ((s : ℕ) → w.latest < s → sec < s + velocity_buckets → first ≤ s)
    → Holds h (record { buckets = clear (sec + 1 - first) first w.buckets; latest = sec })
cleared-Holds sec first h w c past after small reach = record {
  size = length-clear (sec + 1 - first) first w.buckets ∙ c.size;
  exact = λ s below recent. elim (dec_lt w.latest s) [
    | yes new ↦
        let from : first ≤ s = reach s new recent in
        bucket-clear_within (sec + 1 - first) first s w.buckets c.size from (omega arith)
          (omega arith)
        ∙ sym (c.later s new)
    | no old ↦
        bucket-clear_before (sec + 1 - first) first s w.buckets (omega arith) (omega arith)
        ∙ c.exact s (omega arith) (omega arith)
  ];
  later = λ s above. c.later s (omega arith);
}

pub advance-Holds :
    (sec : ℕ) (h : List (ℕ × ℕ)) (w : TokenWindow)
    → Holds h w
    → w.latest ≤ sec
    → Holds h (advance sec w) × ((advance sec w).latest ≡ sec)
unfolding advance
advance-Holds sec h w c past = elim (dec_lt w.latest sec) [
  | yes ahead ↦ elim (dec_lt velocity_buckets (sec - w.latest)) [
    | yes far ↦
        rw (advance, gt→leb sec w.latest ahead, lt→ltb velocity_buckets (sec - w.latest) far)
          (
            cleared-Holds sec (sec - velocity_buckets + 1) h w c ahead (omega arith) (omega arith)
                (λ s new recent. omega arith),
            refl,
          )
    | no near ↦
        rw
          (
            advance,
            gt→leb sec w.latest ahead,
            le→ltb_false (sec - w.latest) velocity_buckets (omega arith),
          )
          (
            cleared-Holds sec (w.latest + 1) h w c ahead (omega arith) (omega arith)
                (λ s new recent. omega arith),
            refl,
          )
  ]
  | no now ↦
      let same : w.latest ≡ sec = omega arith in
      rw (advance, le→leb sec w.latest (omega arith)) (c, same)
]

total_same :
    (s tokens : ℕ) (h : List (ℕ × ℕ))
    → slt64 0 tokens ≡ true
    → total_at s ((s, tokens) ∷ h) ≡ add64 (total_at s h) tokens
unfolding total_at
total_same s tokens h positive =
    let here : s == s ≡ true = ground arith in rw (total_at, here, positive) refl

total_ne :
    (s sec tokens : ℕ) (h : List (ℕ × ℕ)) → s ≢ sec → total_at s ((sec, tokens) ∷ h) ≡ total_at s h
unfolding total_at
total_ne s sec tokens h ne =
    let other : s == sec ≡ false = ground arith in rw (total_at, other) refl

total_skips :
    (s sec tokens : ℕ) (h : List (ℕ × ℕ))
    → slt64 0 tokens ≡ false
    → total_at s ((sec, tokens) ∷ h) ≡ total_at s h
unfolding total_at
total_skips s sec tokens h skipped = elim (Bool-cases (s == sec)) [
  | inl e ↦ rw (total_at, e, skipped) refl
  | inr e ↦ rw (total_at, e) refl
]

-- the window after an observation at its latest second
abbrev pub observed : ℕ → ℕ → TokenWindow → TokenWindow
observed sec tokens w = record w {
  buckets =
      set_bucket (sec % velocity_buckets) (add64 (bucket (sec % velocity_buckets) w.buckets) tokens)
        w.buckets;
}

observed-Holds :
    (sec tokens : ℕ) (h : List (ℕ × ℕ)) (w : TokenWindow)
    → Holds h w
    → w.latest ≡ sec
    → slt64 0 tokens ≡ true
    → Holds ((sec, tokens) ∷ h) (observed sec tokens w)
observed-Holds sec tokens h w c at positive =
    let i = sec % velocity_buckets in
    let v = add64 (bucket i w.buckets) tokens in
    record {
      size = length-set_bucket i v w.buckets ∙ c.size;
      exact = λ s below recent. elim (ℕ_discrete s sec) [
        | yes e ↦
            ap (λ k. bucket (k % velocity_buckets) (set_bucket i v w.buckets)) e
            ∙ bucket-set_bucket_same i v w.buckets (omega (arith, c.size))
            ∙ ap (λ n. add64 n tokens) (c.exact sec (omega arith) (omega arith))
            ∙ sym (total_same sec tokens h positive)
            ∙ ap (λ k. total_at k ((sec, tokens) ∷ h)) (sym e)
        | no ne ↦
            bucket-set_bucket_ne i (s % velocity_buckets) v w.buckets (λ e. omega arith)
            ∙ c.exact s below recent
            ∙ sym (total_ne s sec tokens h ne)
      ];
      later = λ s above. total_ne s sec tokens h (λ e. omega arith) ∙ c.later s above;
    }

skipped-Holds :
    (sec tokens : ℕ) (h : List (ℕ × ℕ)) (w : TokenWindow)
    → Holds h w
    → slt64 0 tokens ≡ false
    → Holds ((sec, tokens) ∷ h) w
skipped-Holds sec tokens h w c skipped = record {
  size = c.size;
  exact = λ s below recent. c.exact s below recent ∙ sym (total_skips s sec tokens h skipped);
  later = λ s above. total_skips s sec tokens h skipped ∙ c.later s above;
}

pub add-Holds :
    (sec tokens : ℕ) (h : List (ℕ × ℕ)) (w : TokenWindow)
    → Holds h w
    → w.latest ≤ sec
    → Holds ((sec, tokens) ∷ h) (add sec tokens w) × ((add sec tokens w).latest ≤ sec)
unfolding add
add-Holds sec tokens h w c past = elim (Bool-cases (slt64 0 tokens)) [
  | inl positive ↦
      let at = advance-Holds sec h w c past in
      rw (add, positive)
        (observed-Holds sec tokens h (advance sec w) at.0 at.1 positive, omega (arith, at.1))
  | inr skipped ↦ rw (add, skipped) (skipped-Holds sec tokens h w c skipped, past)
]
