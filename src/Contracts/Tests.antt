-- ===== src/Contracts/Tests.antt =====
-- What a valid decimal gives, at a concrete text.
use positioncrew.Prelude.{ℕ, ◌<◌, ◌≡◌, refl, true, some, codes}
use positioncrew.Core.Fixed.{parse_fixed, match_decimal, span_digits}
use positioncrew.Contracts.{is_positive_decimal, is_unsigned_decimal}
use positioncrew.Contracts.Valid.{positive_decimal-parse_fixed}

smallest_decimal : is_positive_decimal (codes "0.000000000000000001") ≡ true
unfolding is_positive_decimal is_unsigned_decimal match_decimal span_digits
smallest_decimal = refl

positive_decimal-parse_fixed_example :
    (v : ℕ) × (parse_fixed (codes "0.000000000000000001") ≡ some v) × (0 < v)
positive_decimal-parse_fixed_example =
    positive_decimal-parse_fixed (codes "0.000000000000000001") smallest_decimal
