-- ===== src/StructuralHasher/Tests.antt =====
-- structural_hasher.go on concrete inputs, with natural numbers for the floats.
use finops_proxy.Prelude.{
  ℕ, ◌≡◌, refl, true, List, [], ◌∷◌, arith, Bytes, bytes_discrete, ℕ_discrete, dec_le, dec_lt,
}
use finops_proxy.Float.Naturals.{naturals}
use finops_proxy.GoMap.{lookup}
use finops_proxy.StructuralHasher.{StructuralConfig, StructuralHasher, fresh_state, check_payload}
use finops_proxy.StructuralHasher.Normalize.{
  normalize_payload, normalize_from, step, string_step, scan_string, classify_string, skip_number,
  is_digit, is_number_byte, is_hex, is_uuid, is_uuid_from, is_rfc3339, is_all_digits,
  hex_with_digit, has_word,
}
use finops_proxy.StructuralHasher.Normalize.Tokens
use finops_proxy.StructuralHasher.Normalize.Tokens.{
  Token, number, text, space, word_true, punctuation, print_all, form_all, form, AreTokens,
}
use finops_proxy.StructuralHasher.Sketch.{min_hash}
use finops_proxy.StructuralHasher.Same
use finops_proxy.StructuralHasher.Same.{blocks}
use finops_proxy.StructuralHasher.Requests
use finops_proxy.StructuralHasher.Requests.{check_all}
use finops_proxy.StructuralHasher.Capacity.{IsValid}

runs : Unit {0}
unfolding normalize_payload normalize_from step string_step scan_string classify_string skip_number
    is_digit is_number_byte is_hex is_uuid is_uuid_from is_rfc3339 is_all_digits hex_with_digit
    has_word print_all form_all form bytes_discrete ℕ_discrete dec_le dec_lt lookup
runs = tt

-- {"a": -12,true}
abbrev tokens : List Token
tokens =
    punctuation b'{'
    ∷ text (b'a' ∷ [])
    ∷ punctuation b':'
    ∷ space b' '
    ∷ number b'-' (b'1' ∷ b'2' ∷ [])
    ∷ punctuation b','
    ∷ word_true
    ∷ punctuation b'}'
    ∷ []

tokens-AreTokens : AreTokens tokens
unfolding runs
tokens-AreTokens = (
  refl,
  tt,
  (
    (refl, refl),
    tt,
    (
      refl,
      tt,
      (refl, tt, ((refl, (refl, (refl, tt))), refl, (refl, tt, (tt, tt, (refl, tt, tt))))),
    ),
  ),
)

normalize_payload-print_all_example : normalize_payload (print_all tokens) ≡ form_all tokens
normalize_payload-print_all_example = Tokens.normalize_payload-print_all tokens tokens-AreTokens

-- {"a":#,B}
form_example : form_all tokens ≡ (b'{' ∷ b'"' ∷ b'a' ∷ b'"' ∷ b':' ∷ b'#' ∷ b',' ∷ b'B' ∷ b'}' ∷ [])
unfolding runs
form_example = refl

-- an object key of ten digits is not kept
key_example :
    normalize_payload (
      b'"' ∷ b'1' ∷ b'2' ∷ b'3' ∷ b'4' ∷ b'5' ∷ b'6' ∷ b'7' ∷ b'8' ∷ b'9' ∷ b'0' ∷ b'"' ∷ b':' ∷ [])
    ≡ (b'T' ∷ b':' ∷ [])
unfolding runs
key_example = refl

abbrev cfg : StructuralConfig ℕ
cfg = record { threshold = 1; window = 2; limit = 2; ttl = 900; max_entries = 4 }

-- {5}, and the form {#} of all such bodies
abbrev with_number : ℕ → Bytes
with_number digit = b'{' ∷ digit ∷ b'}' ∷ []

abbrev body : Bytes
body = with_number b'#'

same_form_blocked_example :
    (check_payload (b'a' ∷ []) (with_number b'3') 3 (
      check_all
        (b'a' ∷ [])
        ((with_number b'1', 1) ∷ (with_number b'2', 2) ∷ [])
        (record { cfg = cfg; seen = [] }))).1.block
    ≡ true
unfolding runs
same_form_blocked_example =
    Requests.same_form_blocked (b'a' ∷ []) body (omega arith) (with_number b'1') (with_number b'3')
      1 3 ((with_number b'2', 2) ∷ []) (record { cfg = cfg; seen = [] }) refl (omega arith) refl
      (refl, (refl, tt)) refl (omega arith, (omega arith, tt)) (omega arith) (omega arith)

-- a limit beyond the window
abbrev beyond : StructuralConfig ℕ
beyond = record cfg { limit = 3 }

blocks_none_example :
    blocks beyond
      ((min_hash body, 1) ∷ (min_hash body, 2) ∷ (min_hash body, 3) ∷ (min_hash body, 4) ∷ [])
      (fresh_state 900)
    ≡ 0
blocks_none_example =
    Same.blocks_none beyond
      ((min_hash body, 1) ∷ (min_hash body, 2) ∷ (min_hash body, 3) ∷ (min_hash body, 4) ∷ [])
      (fresh_state 900) (omega arith) (omega arith)

abbrev hasher : StructuralHasher ℕ
hasher = record { cfg = cfg; seen = (b'a' ∷ [], fresh_state 900) ∷ [] }

hasher-IsValid : IsValid hasher
unfolding runs
hasher-IsValid = record { positive = omega arith; bounded = omega arith; distinct = (refl, tt) }
