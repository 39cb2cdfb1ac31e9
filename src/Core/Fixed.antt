-- ===== src/Core/Fixed.antt =====
-- src/core/fixed.ts: decimals with 18 places as integers scaled by 10^18. The source computes in
-- BigInt; apart from `formatFixed`, whose sign is modelled, every value that it is given is
-- non-negative, and the numbers here are naturals. `none` is a call that throws.
mod Tests
pub mod Digits
pub mod Positive
mod Printing
pub mod Bounds
pub mod RoundTrip
use positioncrew.Prelude.Integers.{ℤ, pos, negsuc}
use positioncrew.Prelude.{
  ℕ, zero, suc, ◌+◌, ◌-◌, ◌*◌, ◌/◌, ◌%◌, ◌^◌, ◌≡◌, refl, Bool, true, false, not, ◌&&◌, ◌||◌, Option,
  none, some, List, [], ◌∷◌, ◌++◌, ltb, leb, ◌==◌, if◌then◌else◌, Text, codes, is_digit, pad_start,
  pad_end, length, take, all, and_then,
}

abbrev pub scale_decimals : ℕ
scale_decimals = 18

abbrev pub fixed_scale : ℕ
fixed_scale = 10 ^ 18

-- The longest run of digits at the front, and what follows it.
unfoldable pub span_digits : Text → Text × Text
span_digits [] = ([], [])
span_digits (c ∷ s) = let (w, r) = span_digits s in if is_digit c then (c ∷ w, r) else ([], c ∷ s)

-- `0|[1-9]\d*`, of a run of digits.
abbrev pub is_whole : Text → Bool
is_whole [] = false
is_whole (c ∷ []) = true
is_whole (c ∷ d ∷ s) = not (c == b'0')

-- `(?:\.(\d{1,18}))?$`
abbrev pub match_fraction : Text → Option Text
match_fraction [] = some []
match_fraction (c ∷ f) =
    if c == b'.' && all is_digit f && leb 1 (length f) && leb (length f) scale_decimals
    then some f
    else none

-- `DECIMAL_PATTERN.exec`: the two groups, the second empty where it did not take part.
unfoldable pub match_decimal : Text → Option (Text × Text)
unfolding span_digits
match_decimal s =
    let (w, r) = span_digits s in
    if is_whole w then and_then (match_fraction r) (λ f. some (w, f)) else none

-- `BigInt` of a text of digits.
unfoldable pub value_from : ℕ → Text → ℕ
value_from acc [] = acc
value_from acc (c ∷ s) = value_from (acc * 10 + (c - b'0')) s

unfoldable pub to_big_int : Text → ℕ
unfolding value_from
to_big_int s = value_from 0 s

unfoldable pub parse_fixed : Text → Option ℕ
unfolding match_decimal to_big_int
parse_fixed value =
    and_then (match_decimal value)
      λ (w, f). some (to_big_int w * fixed_scale + to_big_int (pad_end scale_decimals b'0' f))

-- `toString` of a natural: its digits, on fuel that `to_string` gives.
unfoldable pub digits : ℕ → ℕ → Text
digits zero n = []
digits (suc f) n =
    let rest = digits f (n / 10) in
    if ltb n 10 then (b'0' + n) ∷ [] else rest ++ (b'0' + n % 10) ∷ []

unfoldable pub to_string : ℕ → Text
unfolding digits
to_string n = digits (suc n) n

-- `replace(/0+$/, "")`
unfoldable pub strip_zeros : Text → Text
strip_zeros [] = []
strip_zeros (c ∷ s) =
    let rest = strip_zeros s in if c == b'0' && length rest == 0 then [] else c ∷ rest

-- `formatFixed` of a value that is not negative.
unfoldable pub format_fixed : ℕ → ℕ → Text
unfolding to_string strip_zeros
format_fixed value max_decimals =
    let whole = to_string (value / fixed_scale) in
    let fraction =
      strip_zeros
        (take max_decimals (pad_start scale_decimals b'0' (to_string (value % fixed_scale)))) in
    if max_decimals == 0
    then whole
    else if ltb 0 (length fraction)
    then whole ++ b'.' ∷ fraction
    else whole

unfoldable pub format_signed : ℤ → ℕ → Text
unfolding format_fixed
format_signed (pos n) max_decimals = format_fixed n max_decimals
format_signed (negsuc n) max_decimals = b'-' ∷ format_fixed (suc n) max_decimals

unfoldable pub multiply_fixed : ℕ → ℕ → ℕ
multiply_fixed left right = left * right / fixed_scale

unfoldable pub divide_fixed : ℕ → ℕ → Option ℕ
divide_fixed numerator denominator =
    if denominator == 0 then none else some (numerator * fixed_scale / denominator)

unfoldable pub ceil_divide : ℕ → ℕ → Option ℕ
ceil_divide numerator denominator =
    if leb denominator 0 then none else some ((numerator + denominator - 1) / denominator)

unfoldable pub ratio_from_bps : ℕ → ℕ
ratio_from_bps bps = bps * fixed_scale / 10_000

unfoldable pub token_base_units_for_usd : ℕ → ℕ → ℕ → Option ℕ
unfolding ceil_divide
token_base_units_for_usd usd_value token_price_usd token_decimals =
    if leb token_price_usd 0
    then none
    else ceil_divide (usd_value * 10 ^ token_decimals) token_price_usd

unfoldable pub fixed_token_amount_from_base_units : ℕ → ℕ → ℕ
fixed_token_amount_from_base_units base_units token_decimals =
    base_units * fixed_scale / 10 ^ token_decimals

unfoldable pub minimum : ℕ → ℕ → ℕ
minimum left right = if leb left right then left else right

parse_fixed_test :
    (parse_fixed (codes "12.5") ≡ some 12_500_000_000_000_000_000)
    × (parse_fixed (codes "012") ≡ none)
    × (parse_fixed (codes "1.") ≡ none)
    × (parse_fixed (codes "0.0000000000000000001") ≡ none)
unfolding parse_fixed
parse_fixed_test = (refl, refl, refl, refl)

format_fixed_test :
    (format_fixed 12_500_000_000_000_000_000 6 ≡ codes "12.5")
    × (format_fixed 1_999_999_999_999_999_999 6 ≡ codes "1.999999")
    × (format_signed (negsuc 999_999_999_999_999_999) 6 ≡ codes "-1")
unfolding format_signed
format_fixed_test = (refl, refl, refl)
