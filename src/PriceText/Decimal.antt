-- ===== src/PriceText/Decimal.antt =====
-- The numbers that `splitFloatPrefix` of pkg/pricing/fetcher.go reads, and their texts.
use finops_proxy.Prelude.{
  ℕ, ◌≡◌, refl, sym, ap, ◌∙◌, ◌==◌, ◌&&◌, ◌||◌, not, Option, none, some, Bool, true, false, [], ◌∷◌,
  ◌++◌, append_assoc, Bytes, arith, All, if◌then◌else◌, Bool-cases, inl, inr,
}
use finops_proxy.PriceText.{
  is_digit, no_bytes, span_digits, span_sign, span_fraction, span_exponent, split_float_prefix,
  with_rest,
}

abbrev pub IsDigits : Bytes → Type 0
IsDigits ds = All (λ (c : ℕ). is_digit c ≡ true) ds

-- the text begins with a byte of this kind
abbrev pub begins : (ℕ → Bool) → Bytes → Bool
begins p [] = false
begins p (c ∷ s) = p c

abbrev pub is_sign : ℕ → Bool
is_sign c = c == 43 || c == 45

abbrev pub is_point : ℕ → Bool
is_point c = c == 46

abbrev pub is_mark : ℕ → Bool
is_mark c = c == 101 || c == 69

span_digits-append :
    (ds rest : Bytes)
    → IsDigits ds
    → begins is_digit rest ≡ false
    → span_digits (ds ++ rest) ≡ (ds, rest)
unfolding span_digits
span_digits-append [] [] h e = refl
span_digits-append [] (c ∷ s) h e = let other : is_digit c ≡ false = ground arith in rw other refl
span_digits-append (d ∷ ds) rest (h, hs) e = rw (h, span_digits-append ds rest hs e) refl

pub data Sign : Type 0 where
  no_sign : Sign
  plus : Sign
  minus : Sign

unfoldable pub print_sign : Sign → Bytes
print_sign no_sign = []
print_sign plus = 43 ∷ []
print_sign minus = 45 ∷ []

span_sign-print :
    (g : Sign) (s : Bytes)
    → begins is_sign s ≡ false
    → span_sign (print_sign g ++ s) ≡ (print_sign g, s)
unfolding span_sign print_sign
span_sign-print no_sign [] e = refl
span_sign-print no_sign (c ∷ s) e =
    let other : (c == 43 || c == 45) ≡ false = ground arith in rw other refl
span_sign-print plus s e = refl
span_sign-print minus s e = refl

-- the digits after a point, if there is one
unfoldable pub print_fraction : Option Bytes → Bytes
print_fraction none = []
print_fraction (some ds) = 46 ∷ ds

abbrev pub IsFraction : Option Bytes → Type 0
IsFraction none = Unit
IsFraction (some ds) = IsDigits ds

-- whether there is a digit before the exponent
abbrev pub has_digit : Bytes → Option Bytes → Bool
has_digit whole none = not (no_bytes whole)
has_digit whole (some ds) = not (no_bytes ds && no_bytes whole)

span_fraction-print :
    (whole ds rest : Bytes)
    → IsDigits ds
    → has_digit whole (some ds) ≡ true
    → begins is_digit rest ≡ false
    → span_fraction whole (46 ∷ ds ++ rest) ≡ (46 ∷ ds, rest)
unfolding span_fraction
span_fraction-print whole ds rest h d e =
    let some_digit : (no_bytes ds && no_bytes whole) ≡ false = ground arith in
    rw (span_digits-append ds rest h e, some_digit) refl

span_fraction_none : (whole s : Bytes) → begins is_point s ≡ false → span_fraction whole s ≡ ([], s)
unfolding span_fraction
span_fraction_none whole [] e = refl
span_fraction_none whole (c ∷ s) e = rw e refl

-- the mark `e` or `E`, a sign and digits
pub record Exponent : Type 0 where
  pub capital : Bool
  pub sign : Sign
  pub digits : Bytes

unfoldable pub print_exponent : Option Exponent → Bytes
print_exponent none = []
print_exponent (some x) = (if x.capital then 69 else 101) ∷ print_sign x.sign ++ x.digits

abbrev pub IsExponent : Option Exponent → Type 0
IsExponent none = Unit
IsExponent (some x) = IsDigits x.digits × (no_bytes x.digits ≡ false)

abbrev pub begins_signed : Bytes → Bool
begins_signed [] = false
begins_signed (c ∷ s) = if is_sign c then begins is_digit s else is_digit c

-- a mark, perhaps a sign, and a digit
abbrev pub begins_exponent : Bytes → Bool
begins_exponent [] = false
begins_exponent (c ∷ s) = is_mark c && begins_signed s

digits-avoid :
    (ds rest : Bytes) → IsDigits ds → no_bytes ds ≡ false → begins is_sign (ds ++ rest) ≡ false
unfolding is_digit
digits-avoid [] rest h e = ground arith
digits-avoid (d ∷ ds) rest (h, hs) e = ground arith

digits_none : (s : Bytes) → begins is_digit s ≡ false → no_bytes (span_digits s).0 ≡ true
unfolding span_digits
digits_none [] h = refl
digits_none (c ∷ s) h = rw h refl

signed_none :
    (s : Bytes) → begins_signed s ≡ false → no_bytes (span_digits (span_sign s).1).0 ≡ true
unfolding span_sign
signed_none [] h = digits_none [] h
signed_none (c ∷ s) h = elim (Bool-cases (is_sign c)) [
  | inl sign ↦
      let h' = ap (λ b. if b then begins is_digit s else is_digit c) (sym sign) ∙ h in
      rw sign (digits_none s h')
  | inr other ↦
      let h' = ap (λ b. if b then begins is_digit s else is_digit c) (sym other) ∙ h in
      rw other (digits_none (c ∷ s) h')
]

span_exponent_none : (s : Bytes) → begins_exponent s ≡ false → span_exponent s ≡ ([], s)
unfolding span_exponent
span_exponent_none [] h = refl
span_exponent_none (c ∷ s) h = elim (Bool-cases (is_mark c)) [
  | inl mark ↦
      let no_digit : begins_signed s ≡ false = ground (arith, h, mark) in
      rw (mark, signed_none s no_digit) refl
  | inr other ↦ rw other refl
]

mark_lem : (capital : Bool) → is_mark (if capital then 69 else 101) ≡ true
mark_lem true = refl
mark_lem false = refl

span_exponent-print :
    (x : Exponent) (rest : Bytes)
    → IsExponent (some x)
    → begins is_digit rest ≡ false
    → span_exponent (print_exponent (some x) ++ rest) ≡ (print_exponent (some x), rest)
unfolding span_exponent print_exponent
span_exponent-print x rest (h, some_digit) e = rw (append_assoc (print_sign x.sign) x.digits rest) (
    rw
      (
        span_sign-print x.sign (x.digits ++ rest) (digits-avoid x.digits rest h some_digit),
        span_digits-append x.digits rest h e,
        some_digit,
        mark_lem x.capital,
      )
      refl)

-- a number, as its text
pub record Decimal : Type 0 where
  pub sign : Sign
  pub whole : Bytes
  pub fraction : Option Bytes
  pub exponent : Option Exponent

unfoldable pub print : Decimal → Bytes
unfolding print_sign print_fraction print_exponent
print d = print_sign d.sign ++ d.whole ++ print_fraction d.fraction ++ print_exponent d.exponent

pub record IsDecimal (d : Decimal) : Type 0 where
  pub whole : IsDigits d.whole
  pub fraction : IsFraction d.fraction
  pub exponent : IsExponent d.exponent
  pub digit : has_digit d.whole d.fraction ≡ true

-- whether the text goes on with the number: by a digit; by an exponent if the number has none; and by
-- a point if it has neither a point nor an exponent
abbrev pub goes_on : Option Bytes → Option Exponent → Bytes → Bool
goes_on f (some x) rest = begins is_digit rest
goes_on (some ds) none rest = begins is_digit rest || begins_exponent rest
goes_on none none rest = begins is_digit rest || begins_exponent rest || begins is_point rest

mark_not_digit : (capital : Bool) → is_digit (if capital then 69 else 101) ≡ false
unfolding is_digit
mark_not_digit true = refl
mark_not_digit false = refl

mark_not_point : (capital : Bool) → is_point (if capital then 69 else 101) ≡ false
mark_not_point true = refl
mark_not_point false = refl

no_digit_after :
    (f : Option Bytes) (x : Option Exponent) (rest : Bytes)
    → goes_on f x rest ≡ false
    → begins is_digit (print_exponent x ++ rest) ≡ false
unfolding print_exponent
no_digit_after f (some x) rest e = mark_not_digit x.capital
no_digit_after none none rest e = ground arith
no_digit_after (some ds) none rest e = ground arith

no_point_after :
    (x : Option Exponent) (rest : Bytes)
    → goes_on none x rest ≡ false
    → begins is_point (print_exponent x ++ rest) ≡ false
unfolding print_exponent
no_point_after (some x) rest e = mark_not_point x.capital
no_point_after none rest e = ground arith

exponent-split :
    (f : Option Bytes) (x : Option Exponent) (rest : Bytes)
    → IsExponent x
    → goes_on f x rest ≡ false
    → span_exponent (print_exponent x ++ rest) ≡ (print_exponent x, rest)
unfolding print_exponent
exponent-split f (some x) rest h e = span_exponent-print x rest h e
exponent-split none none rest h e = span_exponent_none rest (ground arith)
exponent-split (some ds) none rest h e = span_exponent_none rest (ground arith)

fraction-split :
    (whole : Bytes) (f : Option Bytes) (x : Option Exponent) (rest : Bytes)
    → IsFraction f
    → has_digit whole f ≡ true
    → goes_on f x rest ≡ false
    → span_fraction whole (print_fraction f ++ (print_exponent x ++ rest))
      ≡ (print_fraction f, print_exponent x ++ rest)
unfolding print_fraction
fraction-split whole none x rest h d e =
    span_fraction_none whole (print_exponent x ++ rest) (no_point_after x rest e)
fraction-split whole (some ds) x rest h d e =
    span_fraction-print whole ds (print_exponent x ++ rest) h d (no_digit_after (some ds) x rest e)

fraction_no_digit :
    (f : Option Bytes) (rest : Bytes)
    → begins is_digit rest ≡ false
    → begins is_digit (print_fraction f ++ rest) ≡ false
unfolding print_fraction is_digit
fraction_no_digit none rest h = h
fraction_no_digit (some ds) rest h = refl

start_no_sign :
    (whole : Bytes) (f : Option Bytes) (rest : Bytes)
    → IsDigits whole
    → has_digit whole f ≡ true
    → begins is_sign (whole ++ (print_fraction f ++ rest)) ≡ false
unfolding print_fraction is_digit
start_no_sign [] none rest h d = ground arith
start_no_sign [] (some ds) rest h d = refl
start_no_sign (c ∷ cs) f rest (h, hs) d = ground arith

digit_first :
    (whole : Bytes) (f : Option Bytes)
    → has_digit whole f ≡ true
    → (no_bytes whole && no_bytes (print_fraction f)) ≡ false
unfolding print_fraction
digit_first [] none d = ground arith
digit_first (c ∷ cs) none d = refl
digit_first [] (some ds) d = refl
digit_first (c ∷ cs) (some ds) d = refl

-- The text of a number with a digit before its exponent, followed by any text that does not go on with
-- it, is split into the number, if it is in the range of the floats, and that text. A digit goes on
-- with a number; so does a mark with a digit, perhaps after a sign, if the number has no exponent; and
-- so does a point if it has neither a point nor an exponent.
pub split_float_prefix-print :
    {F : Type 0} (parse : Bytes → Option F) (d : Decimal) (rest : Bytes)
    → IsDecimal d
    → goes_on d.fraction d.exponent rest ≡ false
    → split_float_prefix parse (print d ++ rest) ≡ with_rest rest (parse (print d))
unfolding split_float_prefix print
split_float_prefix-print parse d rest h e =
    let sg = print_sign d.sign in
    let fr = print_fraction d.fraction in
    let ex = print_exponent d.exponent in
    let no_digit = no_digit_after d.fraction d.exponent rest e in
    rw
      (
        append_assoc (sg ++ d.whole ++ fr) ex rest,
        append_assoc (sg ++ d.whole) fr (ex ++ rest),
        append_assoc sg d.whole (fr ++ (ex ++ rest)),
        span_sign-print d.sign (d.whole ++ (fr ++ (ex ++ rest)))
            (start_no_sign d.whole d.fraction (ex ++ rest) h.whole h.digit),
        span_digits-append d.whole (fr ++ (ex ++ rest)) h.whole
            (fraction_no_digit d.fraction (ex ++ rest) no_digit),
        fraction-split d.whole d.fraction d.exponent rest h.fraction h.digit e,
        exponent-split d.fraction d.exponent rest h.exponent e,
        digit_first d.whole d.fraction h.digit,
      )
      refl
