-- ===== src/Core/Fixed/RoundTrip.antt =====
-- `parseFixed` after `formatFixed`.
use native.Mathlib.Nat.{div-add-mod', mul-add-div_right}
use positioncrew.Prelude.{
  ℕ, zero, suc, ◌+◌, ◌-◌, ◌*◌, ◌/◌, ◌%◌, ◌^◌, ◌≤◌, ◌<◌, ◌≡◌, refl, ap, ◌∙◌, [], ◌∷◌, ◌++◌, arith,
  Text, ltb, ◌==◌, length, take, pad_end, pad_start, is_digit, all, true, inl, inr, Bool-cases,
  if◌then◌else◌, some, and_then, nil_of_length-zero,
}
use positioncrew.Core.Fixed.{
  fixed_scale, value_from, to_string, to_big_int, strip_zeros, is_whole, match_decimal,
  match_fraction, parse_fixed, format_fixed,
}
use positioncrew.Core.Fixed.Digits.{
  pow-ten-pos, pow-ten-add, fixed_digits, fixed_digits-is_digit, length-fixed_digits,
  value_from-fixed_digits, pad_start-digits, take-fixed_digits, value_from-digits,
}
use positioncrew.Core.Fixed.Printing.{
  digits-is_digit, is_whole-digits, stops, span_digits-append, length-strip_zeros-le,
  strip_zeros-is_digit, value_from-strip_zeros,
}
use positioncrew.Prelude.Numbers.{div-lt}
use mathlib.Core.List.{append-nil}

-- What is left of `v` at `d` places: `v` rounded down to a multiple of 10 ^ (18 - d).
abbrev pub truncate_to : ℕ → ℕ → ℕ
truncate_to d v = v / 10 ^ (18 - d) * 10 ^ (18 - d)

-- A printed fraction of `d` places.
-- The two factors of the scale that `d` places split it into.
scale_split : (d : ℕ) → d ≤ 18 → 10 ^ d * 10 ^ (18 - d) ≡ fixed_scale
scale_split d h =
    let e : d + (18 - d) ≡ 18 = omega arith in rw (← pow-ten-add d (18 - d)) (ap (λ t. 10 ^ t) e)

take_places : (d n : ℕ) → d ≤ 18 → take d (fixed_digits 18 n) ≡ fixed_digits d (n / 10 ^ (18 - d))
take_places d n h =
    let e : 18 - d + d ≡ 18 = omega arith in rw e at (take-fixed_digits d (18 - d) n)

fraction_text : ℕ → ℕ → Text
unfolding to_string
fraction_text d v = strip_zeros (take d (pad_start 18 b'0' (to_string (v % fixed_scale))))

fraction_text_lem :
    (d v : ℕ)
    → d ≤ 18
    → fraction_text d v ≡ strip_zeros (fixed_digits d (v % fixed_scale / 10 ^ (18 - d)))
unfolding fraction_text
fraction_text_lem d v h =
    rw (pad_start-digits 17 (suc (v % fixed_scale)) (v % fixed_scale) (omega arith) (omega arith))
      (ap strip_zeros (take_places d (v % fixed_scale) h))

value_from-fraction_text :
    (d v : ℕ)
    → d ≤ 18
    → value_from 0 (pad_end 18 b'0' (fraction_text d v)) ≡ truncate_to d (v % fixed_scale)
value_from-fraction_text d v h =
    let q = v % fixed_scale / 10 ^ (18 - d) in
    let places : length (fixed_digits d q) ≡ d = length-fixed_digits d q in
    let fits : q < 10 ^ d =
      div-lt (10 ^ (18 - d)) (v % fixed_scale) (10 ^ d) (pow-ten-pos (18 - d))
        (omega (arith, scale_split d h)) in
    rw (
      fraction_text_lem d v h,
      value_from-strip_zeros 18 0 (fixed_digits d q) (omega (arith, places)),
      places,
      value_from-fixed_digits d q fits,
    )

fraction_text-is_digit : (d v : ℕ) → d ≤ 18 → all is_digit (fraction_text d v) ≡ true
fraction_text-is_digit d v h =
    rw (fraction_text_lem d v h)
      (strip_zeros-is_digit (fixed_digits d _) (fixed_digits-is_digit d _))

length-fraction_text-le : (d v : ℕ) → d ≤ 18 → length (fraction_text d v) ≤ 18
length-fraction_text-le d v h =
    let q = v % fixed_scale / 10 ^ (18 - d) in
    rw (fraction_text_lem d v h)
      (omega (arith, length-strip_zeros-le (fixed_digits d q), length-fixed_digits d q))

to_string-is_digit : (n : ℕ) → all is_digit (to_string n) ≡ true
unfolding to_string
to_string-is_digit n = digits-is_digit (suc n) n

is_whole-to_string : (n : ℕ) → is_whole (to_string n) ≡ true
unfolding to_string
is_whole-to_string n = is_whole-digits (suc n) n (omega arith)

to_string-value : (n : ℕ) → value_from 0 (to_string n) ≡ n
unfolding to_string
to_string-value n = value_from-digits (suc n) n (omega arith)

match_decimal-number :
    (w r f : Text)
    → all is_digit w ≡ true
    → is_whole w ≡ true
    → stops r ≡ true
    → match_fraction r ≡ some f
    → match_decimal (w ++ r) ≡ some (w, f)
unfolding match_decimal
match_decimal-number w r f digits_only whole stop found =
    rw (span_digits-append w r digits_only stop, whole, found)

split_at : (a b v : ℕ) → 0 < b → v / (a * b) * (a * b) + v % (a * b) / b * b ≡ v / b * b
split_at a b v p =
    let q = v / (a * b) in
    let r = v % (a * b) in
    let whole : v ≡ q * a * b + r = omega (arith, div-add-mod' v (a * b)) in
    let quotient : v / b ≡ q * a + r / b =
      ap (λ (t : ℕ). t / b) whole ∙ mul-add-div_right p (q * a) r in
    omega (arith, ap (λ (t : ℕ). t * b) quotient)

truncate_split :
    (d v : ℕ)
    → d ≤ 18
    → v / fixed_scale * fixed_scale + truncate_to d (v % fixed_scale) ≡ truncate_to d v
truncate_split d v h =
    rw (scale_split d h) at (split_at (10 ^ d) (10 ^ (18 - d)) v (pow-ten-pos (18 - d)))

-- What `format_fixed` puts behind the whole part.
fraction_part : ℕ → ℕ → Text
fraction_part d v =
    if d == 0
    then []
    else if ltb 0 (length (fraction_text d v))
    then b'.' ∷ fraction_text d v
    else []

format_fixed-parts : (v d : ℕ) → format_fixed v d ≡ to_string (v / fixed_scale) ++ fraction_part d v
unfolding format_fixed fraction_part fraction_text
format_fixed-parts v d = elim (Bool-cases (d == 0)) [
  | inl whole ↦ rw (whole, append-nil)
  | inr places ↦ elim (Bool-cases (ltb 0 (length (fraction_text d v)))) [
    | inl shown ↦ rw (places, shown)
    | inr nothing ↦ rw (places, nothing, append-nil)
  ]
]

match_fraction-fraction_part :
    (v d : ℕ)
    → d ≤ 18
    → (match_fraction (fraction_part d v) ≡ some (fraction_text d v))
      × (stops (fraction_part d v) ≡ true)
unfolding fraction_part
match_fraction-fraction_part v zero h = unfold fraction_text strip_zeros in (refl, refl)
match_fraction-fraction_part v (suc d) h =
    elim (Bool-cases (ltb 0 (length (fraction_text (suc d) v)))) [
      | inl shown ↦
          rw shown (
            ground (arith, fraction_text-is_digit (suc d) v h, length-fraction_text-le (suc d) v h))
      | inr nothing ↦
          let empty : fraction_text (suc d) v ≡ [] =
            nil_of_length-zero (fraction_text (suc d) v) (ground arith) in
          rw empty (ground arith)
    ]

parse_fixed_of_match :
    (s w f : Text)
    → match_decimal s ≡ some (w, f)
    → parse_fixed s ≡ some (value_from 0 w * fixed_scale + value_from 0 (pad_end 18 b'0' f))
unfolding parse_fixed
parse_fixed_of_match s w f h =
    ap
      (λ o.
        and_then o (λ (w, f). some (to_big_int w * fixed_scale + to_big_int (pad_end 18 b'0' f))))
      h

-- A number that is printed to at most 18 places reads back as the number rounded down to them.
pub parse_fixed-format_fixed :
    (v d : ℕ) → d ≤ 18 → parse_fixed (format_fixed v d) ≡ some (truncate_to d v)
parse_fixed-format_fixed v d h =
    let n = v / fixed_scale in
    let (found, stop) = match_fraction-fraction_part v d h in
    let parts =
      match_decimal-number (to_string n) (fraction_part d v) (fraction_text d v)
        (to_string-is_digit n) (is_whole-to_string n) stop found in
    rw (
      format_fixed-parts v d,
      parse_fixed_of_match _ _ _ parts,
      to_string-value n,
      value_from-fraction_text d v h,
      truncate_split d v h,
    )

-- At all 18 places nothing is lost.
pub parse_fixed-format_fixed_exact : (v : ℕ) → parse_fixed (format_fixed v 18) ≡ some v
parse_fixed-format_fixed_exact v =
    rw (parse_fixed-format_fixed v 18 (omega arith)) (ap some (omega arith))
