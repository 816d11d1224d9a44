-- ===== src/StructuralHasher/Normalize.antt =====
-- `normalizePayload` of structural_hasher.go: the structural form of a body.
pub mod Fuel
pub mod Tokens
use finops_proxy.Prelude.{
  ℕ, zero, suc, ◌+◌, ◌-◌, ◌==◌, Option, none, some, Bool, true, false, not, ◌&&◌, ◌||◌, List, [],
  ◌∷◌, ◌++◌, length, drop, take, get_elem?, ltb, leb, equals, if◌then◌else◌, Bytes, bytes_eq,
}

unfoldable pub is_digit : ℕ → Bool
is_digit c = leb b'0' c && leb c b'9'

unfoldable pub is_hex : ℕ → Bool
unfolding is_digit
is_hex c = is_digit c || (leb b'a' c && leb c b'f') || (leb b'A' c && leb c b'F')

unfoldable pub is_number_byte : ℕ → Bool
unfolding is_digit
is_number_byte c = is_digit c || c == b'-' || c == b'+' || c == b'.' || c == b'e' || c == b'E'

-- `s[i]`, where every read is in range
abbrev byte_at : ℕ → Bytes → ℕ
byte_at i s = elim (get_elem? s i) [ none ↦ 0 | some c ↦ c ]

abbrev pub is_uuid_dash : ℕ → Bool
is_uuid_dash i = i == 8 || i == 13 || i == 18 || i == 23

-- the loop of `isUUID`, with the index of the first byte
unfoldable pub is_uuid_from : ℕ → Bytes → Bool
unfolding is_hex
is_uuid_from i [] = true
is_uuid_from i (c ∷ s) =
    let rest = is_uuid_from (i + 1) s in
    if is_uuid_dash i then (if c == b'-' then rest else false) else if is_hex c then rest else false

unfoldable pub is_uuid : Bytes → Bool
unfolding is_uuid_from
is_uuid s = length s == 36 && is_uuid_from 0 s

unfoldable pub is_all_digits : Bytes → Bool
unfolding is_digit
is_all_digits [] = true
is_all_digits (c ∷ s) = let rest = is_all_digits s in if is_digit c then rest else false

unfoldable pub is_rfc3339 : Bytes → Bool
unfolding is_digit is_all_digits
is_rfc3339 s =
    leb 16 (length s)
    && is_all_digits (take 4 s)
    && byte_at 4 s == b'-'
    && is_digit (byte_at 5 s)
    && is_digit (byte_at 6 s)
    && byte_at 7 s == b'-'
    && is_digit (byte_at 8 s)
    && is_digit (byte_at 9 s)
    && (byte_at 10 s == b'T' || byte_at 10 s == b't')
    && is_digit (byte_at 11 s)
    && is_digit (byte_at 12 s)
    && byte_at 13 s == b':'
    && is_digit (byte_at 14 s)
    && is_digit (byte_at 15 s)

-- the loop of `isHexWithDigit`, with what `hasDigit` is so far
unfoldable pub hex_with_digit : Bool → Bytes → Bool
unfolding is_digit is_hex
hex_with_digit has_digit [] = has_digit
hex_with_digit has_digit (c ∷ s) =
    let rest = hex_with_digit (has_digit || is_digit c) s in if is_hex c then rest else false

unfoldable pub classify_string : Bytes → Option ℕ
unfolding is_uuid is_rfc3339 is_all_digits hex_with_digit
classify_string s =
    let n = length s in
    if n == 0
    then none
    else if is_uuid s
    then some b'U'
    else if is_rfc3339 s
    then some b'T'
    else if (n == 10 || n == 13) && is_all_digits s
    then some b'T'
    else if leb 8 n && hex_with_digit false s
    then some b'H'
    else none

-- Puts a byte before the content that was found.
abbrev pub after : Bytes → Option (Bytes × Bytes) → Option (Bytes × Bytes)
after cs none = none
after cs (some (content, rest)) = some (cs ++ content, rest)

-- The search for the closing quote: the content and what follows the quote, or none if the string
-- is not terminated.
unfoldable pub scan_string : Bytes → Option (Bytes × Bytes)
scan_string [] = none
scan_string (c ∷ []) = if c == b'\\' then none else if c == b'"' then some ([], []) else none
scan_string (c ∷ d ∷ s) =
    let escaped = scan_string s in
    let next = scan_string (d ∷ s) in
    if c == b'\\'
    then after (c ∷ d ∷ []) escaped
    else if c == b'"'
    then some ([], d ∷ s)
    else after (c ∷ []) next

-- `for j < n && isNumberByte(body[j]) { j++ }`
unfoldable pub skip_number : Bytes → Bytes
unfolding is_number_byte
skip_number [] = []
skip_number (c ∷ s) = let rest = skip_number s in if is_number_byte c then rest else c ∷ s

unfoldable pub has_word : Bytes → Bytes → Bool
has_word w body = equals (take (length w) body) w

abbrev pub is_space : ℕ → Bool
is_space c = c == b' ' || c == b'\t' || c == b'\n' || c == b'\r'

-- One round of the loop on `c ∷ s`: what is appended to the form, and what is left of the body.
unfoldable pub string_step : ℕ → Bytes → Bytes × Bytes
unfolding scan_string classify_string
string_step c s = elim (scan_string s) [
  | none ↦ (c ∷ s, [])
  | some (content, rest) ↦ elim (classify_string content) [
    | some tag ↦ (tag ∷ [], rest)
    | none ↦ (c ∷ (content ++ (b'"' ∷ [])), rest)
  ]
]

unfoldable pub step : ℕ → Bytes → Bytes × Bytes
unfolding string_step skip_number has_word is_digit
step c s =
    if c == b'"'
    then string_step c s
    else if is_space c
    then ([], s)
    else if c == b'-' || is_digit c
    then (b'#' ∷ [], skip_number (c ∷ s))
    else if c == b't' && has_word (b't' ∷ b'r' ∷ b'u' ∷ b'e' ∷ []) (c ∷ s)
    then (b'B' ∷ [], drop 3 s)
    else if c == b'f' && has_word (b'f' ∷ b'a' ∷ b'l' ∷ b's' ∷ b'e' ∷ []) (c ∷ s)
    then (b'B' ∷ [], drop 4 s)
    else if c == b'n' && has_word (b'n' ∷ b'u' ∷ b'l' ∷ b'l' ∷ []) (c ∷ s)
    then (b'N' ∷ [], drop 3 s)
    else (c ∷ [], s)

-- the loop, with the rounds that are left
unfoldable pub normalize_from : ℕ → Bytes → Bytes
unfolding step
normalize_from zero body = []
normalize_from (suc fuel) [] = []
normalize_from (suc fuel) (c ∷ s) = let (out, rest) = step c s in out ++ normalize_from fuel rest

-- Every round takes a byte, so the length is enough fuel.
unfoldable pub normalize_payload : Bytes → Bytes
unfolding normalize_from
normalize_payload body = normalize_from (length body) body
