-- ===== src/PriceText.antt =====
-- pkg/pricing/fetcher.go: `splitFloatPrefix`, the number at the start of a price of the catalog. The
-- index `i` of the source is the text before it and the text from it on. `parse` is strconv.ParseFloat
-- to a float64 of the type `F`, none for a range error.
pub mod Decimal
mod Tests
use finops_proxy.Prelude.{
  ℕ, ◌==◌, ◌&&◌, ◌||◌, not, Option, none, some, Bool, true, false, List, [], ◌∷◌, ◌++◌, leb, Bytes,
  if◌then◌else◌,
}

unfoldable pub is_digit : ℕ → Bool
is_digit c = leb 48 c && leb c 57

abbrev pub no_bytes : Bytes → Bool
no_bytes [] = true
no_bytes (c ∷ s) = false

-- the loops over the digits
unfoldable pub span_digits : Bytes → Bytes × Bytes
span_digits [] = ([], [])
span_digits (c ∷ s) =
    let rest = span_digits s in if is_digit c then (c ∷ rest.0, rest.1) else ([], c ∷ s)

-- `if i < n && (s[i] == '+' || s[i] == '-') { i++ }`
unfoldable pub span_sign : Bytes → Bytes × Bytes
span_sign [] = ([], [])
span_sign (c ∷ s) = if c == 43 || c == 45 then (c ∷ [], s) else ([], c ∷ s)

-- the point and the digits after it, where the digits before it are `whole`
unfoldable pub span_fraction : Bytes → Bytes → Bytes × Bytes
span_fraction whole [] = ([], [])
span_fraction whole (c ∷ s) =
    let digits = span_digits s in
    if not (c == 46) || no_bytes digits.0 && no_bytes whole
    then ([], c ∷ s)
    else (c ∷ digits.0, digits.1)

-- an exponent, which has a digit
unfoldable pub span_exponent : Bytes → Bytes × Bytes
span_exponent [] = ([], [])
span_exponent (c ∷ s) =
    let sign = span_sign s in
    let digits = span_digits sign.1 in
    if (c == 101 || c == 69) && not (no_bytes digits.0)
    then (c ∷ sign.0 ++ digits.0, digits.1)
    else ([], c ∷ s)

-- the number that was read, if it is in the range, and what is left
unfoldable pub with_rest : {F : Type 0} → Bytes → Option F → Option (F × Bytes)
with_rest rest none = none
with_rest rest (some v) = some (v, rest)

unfoldable pub split_float_prefix : {F : Type 0} → (Bytes → Option F) → Bytes → Option (F × Bytes)
unfolding with_rest
split_float_prefix parse s =
    let sign = span_sign s in
    let whole = span_digits sign.1 in
    let fraction = span_fraction whole.0 whole.1 in
    let exponent = span_exponent fraction.1 in
    if no_bytes whole.0 && no_bytes fraction.0
    then none
    else with_rest exponent.1 (parse (sign.0 ++ whole.0 ++ fraction.0 ++ exponent.0))
