-- ===== src/Core/Fixed/Positive.antt =====
-- A decimal with a digit other than zero is read as a positive value.
use positioncrew.Prelude.{
  ℕ, ◌+◌, ◌-◌, ◌*◌, ◌<◌, ◌≤◌, ◌≡◌, Bool, true, ◌&&◌, some, [], ◌∷◌, ◌++◌, arith, leb, any, Text,
  inl, inr, ◌⊎◌, Bool-cases, pad_end, and_then-eq-some,
}
use positioncrew.Core.Fixed.{
  span_digits, is_whole, match_fraction, match_decimal, value_from, to_big_int, parse_fixed,
  fixed_scale, scale_decimals, is_digit,
}

abbrev pub is_significant : ℕ → Bool
is_significant c = leb b'1' c && leb c b'9'

value_from-grows : (acc : ℕ) (s : Text) → acc ≤ value_from acc s
unfolding value_from
value_from-grows acc [] = omega arith
value_from-grows acc (c ∷ s) = omega (arith, value_from-grows (acc * 10 + (c - b'0')) s)

value_from-positive : (acc : ℕ) (s : Text) → any is_significant s ≡ true → 0 < value_from acc s
unfolding value_from
value_from-positive acc [] h = absurd (ground arith)
value_from-positive acc (c ∷ s) h = elim (Bool-cases (is_significant c)) [
  | inl here ↦
      let g = value_from-grows (acc * 10 + (c - b'0')) s in
      let digit : b'1' ≤ c = ground arith in omega arith
  | inr later ↦ value_from-positive (acc * 10 + (c - b'0')) s (ground arith)
]

-- A significant digit stands in the run of digits or in what follows it.
any-span_digits :
    (s : Text)
    → any is_significant s ≡ true
    → (any is_significant (span_digits s).0 ≡ true) ⊎ (any is_significant (span_digits s).1 ≡ true)
unfolding span_digits
any-span_digits [] h = inr h
any-span_digits (c ∷ s) h = elim (Bool-cases (is_digit c)) [
  | inr other ↦ rw other (inr h)
  | inl digit ↦ elim (Bool-cases (is_significant c)) [
    | inl here ↦ rw digit (inl (ground arith))
    | inr later ↦ elim (any-span_digits s (ground arith)) [
      | inl front ↦ rw digit (inl (ground arith))
      | inr back ↦ rw digit (inr back)
    ]
  ]
]

match_fraction-same :
    (r f : Text)
    → match_fraction r ≡ some f
    → any is_significant r ≡ true
    → any is_significant f ≡ true
match_fraction-same [] f h k = absurd (ground arith)
match_fraction-same (c ∷ r) f h k = ground arith

any-append-left :
    (xs ys : Text) → any is_significant xs ≡ true → any is_significant (xs ++ ys) ≡ true
any-append-left [] ys h = absurd (ground arith)
any-append-left (x ∷ xs) ys h = elim (Bool-cases (is_significant x)) [
  | inl here ↦ ground arith
  | inr later ↦ let rest = any-append-left xs ys (ground arith) in ground arith
]

-- A decimal that is read and has a digit from 1 to 9 has a positive value.
pub parse_fixed_positive :
    (s : Text) {v : ℕ} → any is_significant s ≡ true → parse_fixed s ≡ some v → 0 < v
unfolding parse_fixed match_decimal to_big_int
parse_fixed_positive s {v} h e =
    let (parts, matched, made) = and_then-eq-some (match_decimal s) _ e in
    let whole : is_whole (span_digits s).0 ≡ true = ground arith in
    let found = rw whole at matched in
    let (f, fraction, split) = and_then-eq-some (match_fraction (span_digits s).1) _ found in
    let padded = pad_end scale_decimals b'0' f in
    let value : v ≡ value_from 0 (span_digits s).0 * fixed_scale + value_from 0 padded = cc in
    elim (any-span_digits s h) [
      | inl front ↦ let p = value_from-positive 0 (span_digits s).0 front in omega arith
      | inr back ↦
          let here = match_fraction-same (span_digits s).1 f fraction back in
          let p = value_from-positive 0 padded (any-append-left f _ here) in omega arith
    ]
