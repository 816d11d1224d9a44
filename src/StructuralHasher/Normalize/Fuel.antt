-- ===== src/StructuralHasher/Normalize/Fuel.antt =====
-- The loop of `normalizePayload`: every round shortens the body, and the form is no longer.
use finops_proxy.Prelude.{
  ℕ, zero, suc, ◌+◌, ◌≤◌, ◌≡◌, refl, ap, Option, none, some, Bool, true, false, [], ◌∷◌, ◌++◌,
  arith, length, drop, length-append, length-drop, Bytes, Option-cases, Bool-cases, inl, inr,
  if◌then◌else◌, ◌==◌, ◌||◌,
}
use finops_proxy.StructuralHasher.Normalize.{
  scan_string, after, skip_number, string_step, classify_string, step, is_digit, is_number_byte,
  normalize_from, normalize_payload,
}

after-length :
    (cs : Bytes) (n : ℕ) (o : Option (Bytes × Bytes)) (content rest : Bytes)
    → ((inner rest' : Bytes) → o ≡ some (inner, rest') → length inner + (1 + length rest') ≡ n)
    → after cs o ≡ some (content, rest)
    → length content + (1 + length rest) ≡ length cs + n
after-length cs n none content rest found h = absurd (ground arith)
after-length cs n (some (inner, rest')) content rest found h =
    let content_eq : cs ++ inner ≡ content = ground arith in
    let rest_eq : rest' ≡ rest = ground arith in
    rw (← content_eq, ← rest_eq) (omega (arith, found inner rest' refl, length-append cs inner))

-- A string is its content, a quote, and the rest.
pub scan_string-length :
    (s content rest : Bytes)
    → scan_string s ≡ some (content, rest)
    → length content + (1 + length rest) ≡ length s
unfolding scan_string
scan_string-length [] content rest h = absurd (ground arith)
scan_string-length (c ∷ []) content rest h = ground arith
scan_string-length (c ∷ d ∷ s) content rest h = elim (Bool-cases (c == b'\\')) [
  | inl slash ↦
      let h' = rw slash at h in
      omega (
        arith,
        after-length (c ∷ d ∷ []) (length s) (scan_string s) content rest (scan_string-length s) h',
      )
  | inr plain ↦
      let h' = rw plain at h in
      elim (Bool-cases (c == b'"')) [
        | inl quote ↦ let h'' = rw quote at h' in ground arith
        | inr other ↦
            let h'' = rw other at h' in
            omega (
              arith,
              after-length (c ∷ []) (length (d ∷ s)) (scan_string (d ∷ s)) content rest
                  (scan_string-length (d ∷ s)) h'',
            )
      ]
]

length-skip_number-le : (s : Bytes) → length (skip_number s) ≤ length s
unfolding skip_number
length-skip_number-le [] = omega arith
length-skip_number-le (c ∷ s) = ground (arith, length-skip_number-le s)

-- What one round does to the lengths.
pub record IsShorter (n : ℕ) (r : Bytes × Bytes) : Type 0 where
  pub whole : length r.0 + length r.1 ≤ suc n
  pub left : length r.1 ≤ n

string_step-IsShorter : (c : ℕ) (s : Bytes) → IsShorter (length s) (string_step c s)
unfolding string_step
string_step-IsShorter c s = elim (Option-cases (scan_string s)) [
  | inl unclosed ↦ rw (string_step, unclosed) (record { whole = omega arith; left = omega arith })
  | inr ((content, rest), closed) ↦
      let len = scan_string-length s content rest closed in
      elim (Option-cases (classify_string content)) [
        | inl static ↦
            rw (string_step, closed, static)
              (record {
                whole = omega (arith, len, length-append content (b'"' ∷ []));
                left = omega (arith, len);
              })
        | inr (tag, dynamic) ↦
            rw (string_step, closed, dynamic)
              (record { whole = omega (arith, len); left = omega (arith, len) })
      ]
]

skip_first : (c : ℕ) (s : Bytes) → is_number_byte c ≡ true → skip_number (c ∷ s) ≡ skip_number s
unfolding skip_number
skip_first c s h = rw h

number_start : (c : ℕ) → (c == b'-' || is_digit c) ≡ true → is_number_byte c ≡ true
unfolding is_number_byte
number_start c h = ground arith

if-IsShorter :
    (n : ℕ) (b : Bool) (r t : Bytes × Bytes)
    → (b ≡ true → IsShorter n r)
    → IsShorter n t
    → IsShorter n (if b then r else t)
if-IsShorter n true r t h k = h refl
if-IsShorter n false r t h k = k

number-IsShorter :
    (c : ℕ) (s : Bytes)
    → (c == b'-' || is_digit c) ≡ true
    → IsShorter (length s) (b'#' ∷ [], skip_number (c ∷ s))
number-IsShorter c s h =
    let len : length (skip_number (c ∷ s)) ≤ length s = omega (
      arith,
      length-skip_number-le s,
      ap (λ (y : Bytes). length y) (skip_first c s (number_start c h)),
    ) in
    record { whole = omega (arith, len); left = len }

drop-IsShorter : (tag k : ℕ) (s : Bytes) → IsShorter (length s) (tag ∷ [], drop k s)
drop-IsShorter tag k s = record {
  whole = omega (arith, length-drop k s);
  left = omega (arith, length-drop k s);
}

space-IsShorter : (s : Bytes) → IsShorter (length s) ([], s)
space-IsShorter s = record { whole = omega arith; left = omega arith }

step-IsShorter : (c : ℕ) (s : Bytes) → IsShorter (length s) (step c s)
unfolding step
step-IsShorter c s =
    let n = length s in
    if-IsShorter n _ _ _ (λ _. string_step-IsShorter c s)
      (if-IsShorter n _ _ _ (λ _. space-IsShorter s)
        (if-IsShorter n _ _ _ (number-IsShorter c s) (
          if-IsShorter n _ _ _ (λ _. drop-IsShorter b'B' 3 s)
            (if-IsShorter n _ _ _ (λ _. drop-IsShorter b'B' 4 s)
              (if-IsShorter n _ _ _ (λ _. drop-IsShorter b'N' 3 s) (drop-IsShorter c 0 s))))))

-- More fuel than the length does not change the form.
pub normalize_from_fuel :
    (f g : ℕ) (body : Bytes)
    → length body ≤ f
    → length body ≤ g
    → normalize_from f body ≡ normalize_from g body
unfolding normalize_from
normalize_from_fuel zero zero body hf hg = refl
normalize_from_fuel zero (suc g) [] hf hg = refl
normalize_from_fuel zero (suc g) (c ∷ s) hf hg = absurd (omega arith)
normalize_from_fuel (suc f) zero [] hf hg = refl
normalize_from_fuel (suc f) zero (c ∷ s) hf hg = absurd (omega arith)
normalize_from_fuel (suc f) (suc g) [] hf hg = refl
normalize_from_fuel (suc f) (suc g) (c ∷ s) hf hg =
    let shorter = (step-IsShorter c s).left in
    ap (λ (y : Bytes). (step c s).0 ++ y)
      (normalize_from_fuel f g (step c s).1 (omega arith) (omega arith))

-- One round, without the fuel.
pub normalize_payload-step :
    (c : ℕ) (s : Bytes) → normalize_payload (c ∷ s) ≡ (step c s).0 ++ normalize_payload (step c s).1
unfolding normalize_payload normalize_from
normalize_payload-step c s =
    let shorter = (step-IsShorter c s).left in
    ap (λ (y : Bytes). (step c s).0 ++ y)
      (normalize_from_fuel (length s) (length (step c s).1) (step c s).1 shorter (omega arith))

length-normalize_from-le :
    (fuel : ℕ) (body : Bytes) → length (normalize_from fuel body) ≤ length body
unfolding normalize_from
length-normalize_from-le zero body = omega arith
length-normalize_from-le (suc fuel) [] = omega arith
length-normalize_from-le (suc fuel) (c ∷ s) = omega (
  arith,
  (step-IsShorter c s).whole,
  length-append (step c s).0 (normalize_from fuel (step c s).1),
  length-normalize_from-le fuel (step c s).1,
)
