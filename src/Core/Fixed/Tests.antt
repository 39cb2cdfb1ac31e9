-- ===== src/Core/Fixed/Tests.antt =====
-- The theorems on the arithmetic, at concrete numbers.
use positioncrew.Prelude.{ℕ, ◌*◌, ◌≤◌, ◌≡◌, refl, some, arith}
use positioncrew.Core.Fixed.{
  fixed_scale, parse_fixed, format_fixed, multiply_fixed, divide_fixed, ceil_divide,
  token_base_units_for_usd, fixed_token_amount_from_base_units,
}
use positioncrew.Core.Fixed.RoundTrip.{truncate_to, parse_fixed-format_fixed}
use positioncrew.Core.Fixed.Bounds.{
  ceil_divide_least, divide_fixed_greatest, token_base_units_least,
}

parse_fixed-format_fixed_example :
    parse_fixed (format_fixed 1_234_567_890_000_000_000 6)
    ≡ some (truncate_to 6 1_234_567_890_000_000_000)
parse_fixed-format_fixed_example =
    parse_fixed-format_fixed 1_234_567_890_000_000_000 6 (omega arith)

ceil_divide_least_example : (10 ≤ 4 * 3) × ((j : ℕ) → 10 ≤ j * 3 → 4 ≤ j)
unfolding ceil_divide
ceil_divide_least_example = ceil_divide_least 10 3 refl

divide_fixed_greatest_example :
    (333_333_333_333_333_333 * 3 ≤ 1 * fixed_scale)
    × ((j : ℕ) → j * 3 ≤ 1 * fixed_scale → j ≤ 333_333_333_333_333_333)
unfolding divide_fixed
divide_fixed_greatest_example = divide_fixed_greatest 1 3 refl

-- Ten dollars of a token of six decimals at three dollars.
token_base_units_least_example :
    (10_000_000_000_000_000_000
      ≤ multiply_fixed (fixed_token_amount_from_base_units 3_333_334 6) 3_000_000_000_000_000_000)
    × ((c : ℕ)
        → 10_000_000_000_000_000_000
          ≤ multiply_fixed (fixed_token_amount_from_base_units c 6) 3_000_000_000_000_000_000
        → 3_333_334 ≤ c)
unfolding token_base_units_for_usd ceil_divide
token_base_units_least_example =
    token_base_units_least 10_000_000_000_000_000_000 3_000_000_000_000_000_000 6 (omega arith) refl
