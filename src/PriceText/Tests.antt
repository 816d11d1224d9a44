-- ===== src/PriceText/Tests.antt =====
-- Prices of the catalog, split.
use finops_proxy.Prelude.{
  ℕ, ◌≡◌, refl, Option, none, some, true, false, [], ◌∷◌, ◌++◌, Bytes, length,
}
use finops_proxy.PriceText.{
  split_float_prefix, with_rest, span_sign, span_digits, span_fraction, span_exponent, is_digit,
}
use finops_proxy.PriceText.Decimal
use finops_proxy.PriceText.Decimal.{
  Decimal, print, minus, no_sign, IsDecimal, goes_on, print_sign, print_fraction, print_exponent,
}

-- -0.27E6
abbrev price : Decimal
price = record {
  sign = minus;
  whole = 48 ∷ [];
  fraction = some (50 ∷ 55 ∷ []);
  exponent = some (record { capital = true; sign = no_sign; digits = 54 ∷ [] });
}

-- 5, and a mark and a sign without a digit: e-/M
abbrev five : Decimal
five = record { sign = no_sign; whole = 53 ∷ []; fraction = none; exponent = none }

abbrev scale : Bytes
scale = 101 ∷ 45 ∷ 47 ∷ 77 ∷ []

five-IsDecimal : IsDecimal five
unfolding is_digit
five-IsDecimal = record { whole = (refl, tt); fraction = tt; exponent = tt; digit = refl }

five_ends : goes_on five.fraction five.exponent scale ≡ false
unfolding is_digit
five_ends = refl

-- the floats are the lengths of their texts
abbrev parse : Bytes → Option ℕ
parse s = some (length s)

split_float_prefix-print_example :
    split_float_prefix parse (print five ++ scale) ≡ with_rest scale (parse (print five))
split_float_prefix-print_example =
    Decimal.split_float_prefix-print parse five scale five-IsDecimal five_ends

-- the mark stays in the rest
left : split_float_prefix parse (print five ++ scale) ≡ some (1, scale)
unfolding split_float_prefix with_rest span_sign span_digits span_fraction span_exponent is_digit
    print print_sign print_fraction print_exponent
left = refl

-- seven bytes of -0.27E6e-/M are the number
seven : split_float_prefix parse (print price ++ scale) ≡ some (7, scale)
unfolding split_float_prefix with_rest span_sign span_digits span_fraction span_exponent is_digit
    print print_sign print_fraction print_exponent
seven = refl

-- a point alone is no number
point : split_float_prefix parse (46 ∷ []) ≡ none
unfolding split_float_prefix with_rest span_sign span_digits span_fraction span_exponent is_digit
point = refl
