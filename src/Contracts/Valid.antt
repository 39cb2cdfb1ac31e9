-- ===== src/Contracts/Valid.antt =====
-- What a valid request gives: decimals that can be read.
use positioncrew.Prelude.{ℕ, ◌<◌, ◌≡◌, true, some, arith, Text, inl, inr, Option-cases}
use positioncrew.Core.Fixed.{parse_fixed}
use positioncrew.Core.Fixed.Positive.{parse_fixed_positive}
use positioncrew.Contracts.{BaseRequest, is_unsigned_decimal, is_positive_decimal, is_base_request}
use positioncrew.Contracts.LendingRescue.{LendingRescueRequest, is_lending_request}

pub parse_fixed_of_unsigned :
    (s : Text) → is_unsigned_decimal s ≡ true → (v : ℕ) × (parse_fixed s ≡ some v)
unfolding is_unsigned_decimal parse_fixed
parse_fixed_of_unsigned s h = elim (Option-cases (parse_fixed s)) [
  | inl unread ↦ absurd (ground arith)
  | inr read ↦ read
]

pub parse_fixed_of_positive :
    (s : Text) → is_positive_decimal s ≡ true → (v : ℕ) × (parse_fixed s ≡ some v)
unfolding is_positive_decimal
parse_fixed_of_positive s h = parse_fixed_of_unsigned s (ground arith)

-- A text that the schema of positive decimals admits is read, as a positive value.
pub positive_decimal-parse_fixed :
    (s : Text) → is_positive_decimal s ≡ true → (v : ℕ) × (parse_fixed s ≡ some v) × (0 < v)
unfolding is_positive_decimal
positive_decimal-parse_fixed s h =
    let (v, read) = parse_fixed_of_positive s h in
    (v, read, parse_fixed_positive s (ground arith) read)

pub base_request_decimals :
    (r : BaseRequest)
    → is_base_request r ≡ true
    → (is_positive_decimal r.max_action_usd ≡ true) × (is_positive_decimal r.max_gas_usd ≡ true)
unfolding is_base_request
base_request_decimals r h = ground arith

pub lending_request_decimals :
    (r : LendingRescueRequest)
    → is_lending_request r ≡ true
    → (is_base_request r.base ≡ true) × (is_unsigned_decimal r.estimated_gas_usd ≡ true)
unfolding is_lending_request
lending_request_decimals r h = ground arith
