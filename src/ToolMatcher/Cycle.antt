-- ===== src/ToolMatcher/Cycle.antt =====
-- `detectCycle` of tool_matcher.go: the least period whose block ends the sequence twice in a row.
use finops_proxy.Prelude.{
  ℕ, zero, suc, ◌+◌, ◌-◌, ◌*◌, ◌≤◌, ◌<◌, ◌≡◌, refl, ◌∙◌, sym, ap, none, some, true, false, List, [],
  ◌∷◌, ◌++◌, arith, length, take, drop, Bytes, bytes_eq, length-append, length-drop, length-take,
  drop-drop, take-append-drop, take_all, take_front, drop_front,
}
use finops_proxy.ToolMatcher.{equal_strings, slice, repeats_at, detect_from, detect_cycle}

equal_strings→eq : (xs ys : List Bytes) → equal_strings xs ys ≡ true → xs ≡ ys
unfolding equal_strings
equal_strings→eq [] [] h = refl
equal_strings→eq [] (y ∷ ys) h = absurd (ground arith)
equal_strings→eq (x ∷ xs) [] h = absurd (ground arith)
equal_strings→eq (x ∷ xs) (y ∷ ys) h = ground (arith, equal_strings→eq xs ys)

equal_strings_refl : (xs : List Bytes) → equal_strings xs xs ≡ true
unfolding equal_strings
equal_strings_refl [] = refl
equal_strings_refl (x ∷ xs) = ground (arith, equal_strings_refl xs)

-- The sequence ends in a block of `p` names that stands twice in a row.
abbrev pub EndsTwice : ℕ → List Bytes → Type 0
EndsTwice p seq = (pre block : List Bytes) × (seq ≡ pre ++ (block ++ block)) × (length block ≡ p)

-- The last 2p names, cut in the middle.
abbrev pub tail2 : ℕ → List Bytes → List Bytes
tail2 p seq = drop (length seq - 2 * p) seq

module _ (p : ℕ) (seq : List Bytes) (fits : 2 * p ≤ length seq) where
  length-tail2 : length (tail2 p seq) ≡ 2 * p
  length-tail2 = omega (arith, length-drop (length seq - 2 * p) seq)

  front-slice : slice (length seq - 2 * p) (length seq - p) seq ≡ take p (tail2 p seq)
  front-slice =
      let e : length seq - p - (length seq - 2 * p) ≡ p = omega arith in
      ap (λ (n : ℕ). take n (tail2 p seq)) e

  back-slice : slice (length seq - p) (length seq) seq ≡ drop p (tail2 p seq)
  back-slice =
      let e : length seq - (length seq - p) ≡ p = omega arith in
      let e2 : length seq - 2 * p + p ≡ length seq - p = omega arith in
      ap (λ (n : ℕ). take n (drop (length seq - p) seq)) e
      ∙ take_all p (drop (length seq - p) seq) (omega (arith, length-drop (length seq - p) seq))
      ∙ sym (drop-drop p (length seq - 2 * p) seq ∙ ap (λ (n : ℕ). drop n seq) e2)

  pub repeats_at-halves :
      repeats_at p seq ≡ equal_strings (take p (tail2 p seq)) (drop p (tail2 p seq))
  unfolding repeats_at
  repeats_at-halves = rw (front-slice, back-slice)

  repeats_at→EndsTwice : repeats_at p seq ≡ true → EndsTwice p seq
  repeats_at→EndsTwice h =
      let halves =
        equal_strings→eq (take p (tail2 p seq)) (drop p (tail2 p seq))
          (sym repeats_at-halves ∙ h) in
      (
        take (length seq - 2 * p) seq,
        take p (tail2 p seq),
        sym (
            ap (λ (b : List Bytes). take (length seq - 2 * p) seq ++ (take p (tail2 p seq) ++ b))
              halves
            ∙ ap (λ (t : List Bytes). take (length seq - 2 * p) seq ++ t)
                (take-append-drop p (tail2 p seq))
            ∙ take-append-drop (length seq - 2 * p) seq),
        omega (arith, length-take p (tail2 p seq), length-tail2),
      )

module _ (pre block : List Bytes) where
  length-twice : length (pre ++ (block ++ block)) ≡ length pre + 2 * length block
  length-twice = omega (arith, length-append pre (block ++ block), length-append block block)

  tail2-twice : tail2 (length block) (pre ++ (block ++ block)) ≡ block ++ block
  tail2-twice =
      let e : length (pre ++ (block ++ block)) - 2 * length block ≡ length pre =
        omega (arith, length-twice) in
      ap (λ (n : ℕ). drop n (pre ++ (block ++ block))) e ∙ drop_front pre (block ++ block)

  EndsTwice→repeats_at : repeats_at (length block) (pre ++ (block ++ block)) ≡ true
  EndsTwice→repeats_at =
      rw
        (
          repeats_at-halves (length block) (pre ++ (block ++ block)) (omega (arith, length-twice)),
          tail2-twice,
          take_front block block,
          drop_front block block,
        )
        (equal_strings_refl block)

-- A block that ends the sequence twice is found by the test of its length.
EndsTwice-repeats_at :
    (p : ℕ) (seq : List Bytes) → EndsTwice p seq → (2 * p ≤ length seq) × (repeats_at p seq ≡ true)
EndsTwice-repeats_at p seq (pre, block, e, len) =
    rw (e, ← len) (omega (arith, length-twice pre block), EndsTwice→repeats_at pre block)

-- What the loop returns: the first period that passes, or none if none does.
detect_from-some :
    (rounds p q : ℕ) (seq : List Bytes)
    → detect_from rounds p seq ≡ some q
    → (p ≤ q) × (q < p + rounds) × (2 * q ≤ length seq) × (repeats_at q seq ≡ true)
unfolding detect_from
detect_from-some zero p q seq h = absurd (ground arith)
detect_from-some (suc rounds) p q seq h = ground (arith, detect_from-some rounds (p + 1) q seq)

detect_from-least :
    (rounds p q r : ℕ) (seq : List Bytes)
    → detect_from rounds p seq ≡ some q
    → p ≤ r
    → 2 * r ≤ length seq
    → repeats_at r seq ≡ true
    → q ≤ r
unfolding detect_from
detect_from-least zero p q r seq h le fits hit = absurd (ground arith)
detect_from-least (suc rounds) p q r seq h le fits hit =
    ground (arith, detect_from-least rounds (p + 1) q r seq)

detect_from-none :
    (rounds p r : ℕ) (seq : List Bytes)
    → detect_from rounds p seq ≡ none
    → p ≤ r
    → r < p + rounds
    → 2 * r ≤ length seq
    → repeats_at r seq ≡ false
unfolding detect_from
detect_from-none zero p r seq h a b c = absurd (omega arith)
detect_from-none (suc rounds) p r seq h a b c =
    ground (arith, detect_from-none rounds (p + 1) r seq)

-- A detected period p is between 2 and the longest one tested, the sequence ends in a block of p
-- names that stands twice in a row, and no shorter block of two or more names does.
pub detect_cycle_sound :
    (seq : List Bytes) (max_period p : ℕ)
    → detect_cycle seq max_period ≡ some p
    → (2 ≤ p) × (p ≤ max_period) × EndsTwice p seq × ((q : ℕ) → 2 ≤ q → EndsTwice q seq → p ≤ q)
unfolding detect_cycle
detect_cycle_sound seq max_period p h =
    let (low, high, fits, hit) = detect_from-some (max_period - 1) 2 p seq h in
    (
      low,
      omega arith,
      repeats_at→EndsTwice p seq fits hit,
      λ q two twice.
          let (fits', hit') = EndsTwice-repeats_at q seq twice in
          detect_from-least (max_period - 1) 2 p q seq h two fits' hit',
    )

-- If nothing is detected, no block of 2 to `max_period` names ends the sequence twice in a row.
pub detect_cycle_complete :
    (seq : List Bytes) (max_period q : ℕ)
    → detect_cycle seq max_period ≡ none
    → 2 ≤ q
    → q ≤ max_period
    → ¬ EndsTwice q seq
unfolding detect_cycle
detect_cycle_complete seq max_period q h low high twice =
    let (fits, hit) = EndsTwice-repeats_at q seq twice in
    let miss = detect_from-none (max_period - 1) 2 q seq h low (omega arith) fits in cc (hit, miss)
