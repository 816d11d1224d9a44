-- ===== src/StructuralHasher/Normalize/Tokens.antt =====
-- What `normalizePayload` makes of a body that is written as a sequence of JSON tokens.
use finops_proxy.Prelude.{
  ℕ, ◌≡◌, refl, ◌∙◌, ap, none, some, Bool, true, false, not, List, [], ◌∷◌, ◌++◌, arith, Bytes,
  Option-cases, Bool-cases, inl, inr, if◌then◌else◌, ◌==◌, ◌||◌, All, append_assoc, bytes_eq,
  bytes_discrete, ℕ_discrete,
}
use finops_proxy.StructuralHasher.Normalize.{
  scan_string, after, skip_number, string_step, classify_string, step, is_space, is_digit,
  is_number_byte, normalize_payload,
}
use finops_proxy.StructuralHasher.Normalize.Fuel.{normalize_payload-step}

-- A number is its first byte and the others; a string is its escaped content.
pub data Token : Type 0 where
  number : ℕ → Bytes → Token
  text : Bytes → Token
  space : ℕ → Token
  word_true : Token
  word_false : Token
  word_null : Token
  punctuation : ℕ → Token

abbrev pub print : Token → Bytes
print (number c ds) = c ∷ ds
print (text s) = b'"' ∷ (s ++ (b'"' ∷ []))
print (space c) = c ∷ []
print word_true = b't' ∷ b'r' ∷ b'u' ∷ b'e' ∷ []
print word_false = b'f' ∷ b'a' ∷ b'l' ∷ b's' ∷ b'e' ∷ []
print word_null = b'n' ∷ b'u' ∷ b'l' ∷ b'l' ∷ []
print (punctuation c) = c ∷ []

unfoldable pub print_all : List Token → Bytes
print_all [] = []
print_all (t ∷ ts) = print t ++ print_all ts

-- the placeholder of a token, or the token itself
unfoldable pub form : Token → Bytes
form (number c ds) = b'#' ∷ []
form (text s) = elim (classify_string s) [ none ↦ print (text s) | some tag ↦ tag ∷ [] ]
form (space c) = []
form word_true = b'B' ∷ []
form word_false = b'B' ∷ []
form word_null = b'N' ∷ []
form (punctuation c) = c ∷ []

unfoldable pub form_all : List Token → Bytes
unfolding form
form_all [] = []
form_all (t ∷ ts) = form t ++ form_all ts

-- Every quote in the content stands after a backslash, and no backslash is left over.
abbrev pub IsEscaped : Bytes → Type 0
IsEscaped [] = Unit
IsEscaped (c ∷ []) = ((c == b'\\') ≡ false) × ((c == b'"') ≡ false)
IsEscaped (c ∷ d ∷ s) =
    if c == b'\\' then IsEscaped s else (((c == b'"') ≡ false) × IsEscaped (d ∷ s))

-- a byte that starts none of the other tokens
abbrev pub is_punctuation : ℕ → Bool
is_punctuation c =
    not (c == b'"' || is_space c || c == b'-' || is_digit c || c == b't' || c == b'f' || c == b'n')

abbrev pub starts_number : Bytes → Bool
starts_number [] = false
starts_number (c ∷ s) = is_number_byte c

abbrev pub IsToken : Token → Type 0
IsToken (number c ds) = ((c == b'-' || is_digit c) ≡ true) × All (λ d. is_number_byte d ≡ true) ds
IsToken (text s) = IsEscaped s
IsToken (space c) = is_space c ≡ true
IsToken (punctuation c) = is_punctuation c ≡ true
IsToken _ = Unit

-- A number is not followed by a byte that would continue it.
abbrev pub IsApart : Token → Bytes → Type 0
IsApart (number c ds) rest = starts_number rest ≡ false
IsApart _ rest = Unit

abbrev pub AreTokens : List Token → Type 0
AreTokens [] = Unit
AreTokens (t ∷ ts) = IsToken t × IsApart t (print_all ts) × AreTokens ts

skip_number-rest :
    (ds rest : Bytes)
    → All (λ d. is_number_byte d ≡ true) ds
    → starts_number rest ≡ false
    → skip_number (ds ++ rest) ≡ rest
unfolding skip_number
skip_number-rest [] [] h k = refl
skip_number-rest [] (c ∷ rest) h k = rw k
skip_number-rest (d ∷ ds) rest h k = rw h.0 (skip_number-rest ds rest h.1 k)

scan_string-IsEscaped :
    (s rest : Bytes) → IsEscaped s → scan_string (s ++ (b'"' ∷ rest)) ≡ some (s, rest)
unfolding scan_string
scan_string-IsEscaped [] [] h = refl
scan_string-IsEscaped [] (c ∷ rest) h = refl
scan_string-IsEscaped (c ∷ []) rest h =
    rw (h.0, h.1) (ap (after (c ∷ [])) (scan_string-IsEscaped [] rest tt))
scan_string-IsEscaped (c ∷ d ∷ s) rest h = elim (Bool-cases (c == b'\\')) [
  | inl slash ↦
      let h' = rw slash at h in rw slash (ap (after (c ∷ d ∷ [])) (scan_string-IsEscaped s rest h'))
  | inr plain ↦
      let h' = rw plain at h in
      rw (plain, h'.0) (ap (after (c ∷ [])) (scan_string-IsEscaped (d ∷ s) rest h'.1))
]

-- what the other tests say of the first byte of a number, of a space and of punctuation
number_byte_tests :
    (c : ℕ)
    → (c == b'-' || is_digit c) ≡ true
    → ((c == b'"') ≡ false) × (is_space c ≡ false) × (is_number_byte c ≡ true)
unfolding is_digit is_number_byte
number_byte_tests c h = (ground arith, ground arith, ground arith)

space_tests : (c : ℕ) → is_space c ≡ true → (c == b'"') ≡ false
space_tests c h = ground arith

step_number :
    (c : ℕ) (ds rest : Bytes)
    → IsToken (number c ds)
    → starts_number rest ≡ false
    → step c (ds ++ rest) ≡ (b'#' ∷ [], rest)
unfolding step
step_number c ds rest h apart =
    let (quote, space_no, digit) = number_byte_tests c h.0 in
    rw (quote, space_no, h.0)
      (ap (λ (y : Bytes). (b'#' ∷ [], y)) (skip_number-rest (c ∷ ds) rest (digit, h.1) apart))

step_space : (c : ℕ) (rest : Bytes) → is_space c ≡ true → step c rest ≡ ([], rest)
unfolding step
step_space c rest h = rw (space_tests c h, h)

step_punctuation : (c : ℕ) (rest : Bytes) → is_punctuation c ≡ true → step c rest ≡ (c ∷ [], rest)
unfolding step
step_punctuation c rest h = ground arith

string_step-IsEscaped :
    (s rest : Bytes) → IsEscaped s → string_step b'"' (s ++ (b'"' ∷ rest)) ≡ (form (text s), rest)
unfolding string_step form
string_step-IsEscaped s rest h = elim (Option-cases (classify_string s)) [
  | inl static ↦ rw (string_step, form, scan_string-IsEscaped s rest h, static)
  | inr (tag, dynamic) ↦ rw (string_step, form, scan_string-IsEscaped s rest h, dynamic)
]

step_text : (s rest : Bytes) → IsEscaped s → step b'"' (s ++ (b'"' ∷ rest)) ≡ (form (text s), rest)
unfolding step
step_text s rest h = string_step-IsEscaped s rest h

step_true : (rest : Bytes) → step b't' (b'r' ∷ b'u' ∷ b'e' ∷ rest) ≡ (b'B' ∷ [], rest)
unfolding step bytes_discrete ℕ_discrete
step_true rest = refl

step_false : (rest : Bytes) → step b'f' (b'a' ∷ b'l' ∷ b's' ∷ b'e' ∷ rest) ≡ (b'B' ∷ [], rest)
unfolding step bytes_discrete ℕ_discrete
step_false rest = refl

step_null : (rest : Bytes) → step b'n' (b'u' ∷ b'l' ∷ b'l' ∷ rest) ≡ (b'N' ∷ [], rest)
unfolding step bytes_discrete ℕ_discrete
step_null rest = refl

empty_form : normalize_payload [] ≡ []
unfolding normalize_payload
empty_form = refl

round :
    (c : ℕ) (s out rest : Bytes)
    → step c s ≡ (out, rest)
    → normalize_payload (c ∷ s) ≡ out ++ normalize_payload rest
round c s out rest h =
    normalize_payload-step c s ∙ ap (λ (r : Bytes × Bytes). r.0 ++ normalize_payload r.1) h

-- One token.
print-normalize :
    (t : Token) (rest : Bytes)
    → IsToken t
    → IsApart t rest
    → normalize_payload (print t ++ rest) ≡ form t ++ normalize_payload rest
unfolding form
print-normalize (number c ds) rest h apart =
    round c (ds ++ rest) (b'#' ∷ []) rest (step_number c ds rest h apart)
print-normalize (text s) rest h apart =
    ap (λ (y : Bytes). normalize_payload (b'"' ∷ y)) (append_assoc s (b'"' ∷ []) rest)
    ∙ round b'"' (s ++ (b'"' ∷ rest)) (form (text s)) rest (step_text s rest h)
print-normalize (space c) rest h apart = round c rest [] rest (step_space c rest h)
print-normalize word_true rest h apart =
    round b't' (b'r' ∷ b'u' ∷ b'e' ∷ rest) (b'B' ∷ []) rest (step_true rest)
print-normalize word_false rest h apart =
    round b'f' (b'a' ∷ b'l' ∷ b's' ∷ b'e' ∷ rest) (b'B' ∷ []) rest (step_false rest)
print-normalize word_null rest h apart =
    round b'n' (b'u' ∷ b'l' ∷ b'l' ∷ rest) (b'N' ∷ []) rest (step_null rest)
print-normalize (punctuation c) rest h apart =
    round c rest (c ∷ []) rest (step_punctuation c rest h)

-- The structural form of a body that is a sequence of tokens, with no number run into by the token
-- after it: each number, literal and dynamic string is its placeholder, every other string and the
-- punctuation is itself, and the white space between the tokens is left out.
pub normalize_payload-print_all :
    (ts : List Token) → AreTokens ts → normalize_payload (print_all ts) ≡ form_all ts
unfolding print_all form_all
normalize_payload-print_all [] h = empty_form
normalize_payload-print_all (t ∷ ts) h =
    print-normalize t (print_all ts) h.0 h.1
    ∙ ap (λ (y : Bytes). form t ++ y) (normalize_payload-print_all ts h.2)
