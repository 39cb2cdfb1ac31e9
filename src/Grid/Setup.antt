-- ===== src/Grid/Setup.antt =====
-- The numbers that an actionable grid is planned with satisfy what its plans need.
use positioncrew.Prelude.{
  ℕ, zero, suc, ◌+◌, ◌-◌, ◌*◌, ◌/◌, ◌^◌, ◌≤◌, ◌<◌, ◌≡◌, Bool, true, false, some, List, [], ◌∷◌,
  arith, leb, ◌&&◌, All, All-imp, length, Text, Bool-cases, inl, inr, All-filter,
}
use positioncrew.Prelude.Numbers.{le-div, div-lt, mul_mono}
use positioncrew.Core.Fixed.{fixed_scale, parse_fixed, minimum}
use positioncrew.Core.Fixed.Digits.{pow-ten-pos, pow-ten-add}
use positioncrew.Core.Fixed.Positive.{parse_fixed_positive}
use positioncrew.Contracts.{
  AssetIdentity, is_address, is_base_request, is_positive_decimal, is_asset_identity,
}
use positioncrew.Contracts.BoundedGrid.{
  BoundedGridRequest, BoundedGridDeliverable, GridConstraints, is_grid_request, is_grid_constraints,
  is_grid_market,
}
use positioncrew.Lending.Provider.{is_empty}
use positioncrew.Grid.Provider.{levels_from}
use positioncrew.Grid.Monotone.{IsSetup}
use positioncrew.Grid.Inversion.{IsMarket, IsLevels, all_levels}

pub levels_from-All {κ} :
    (P : ℕ → Type κ) (level : ℕ → ℕ) (n index : ℕ)
    → ((i : ℕ) → i < index + n → P (level i))
    → All P (levels_from level n index)
unfolding levels_from
levels_from-All P level zero index h = tt
levels_from-All P level (suc n) index h =
    (h index (omega arith), levels_from-All P level n (index + 1) (λ i k. h i (omega arith)))

is_empty-length : {A : Type 0} (xs : List A) → is_empty xs ≡ false → 0 < length xs
is_empty-length [] h = absurd (ground arith)
is_empty-length (x ∷ xs) h = ground arith

minimum_le : (a b : ℕ) → minimum a b ≤ a
unfolding minimum
minimum_le a b = ground arith

unit_positive : (d : ℕ) → 0 < fixed_scale / 10 ^ minimum 18 d
unfolding minimum
unit_positive d = elim (Bool-cases (leb 18 d)) [
  | inl big ↦ rw big (omega arith)
  | inr small ↦
      let bound : d ≤ 18 = ground arith in
      let split : 10 ^ ((18 - d) + d) ≡ 10 ^ (18 - d) * 10 ^ d = pow-ten-add (18 - d) d in
      let same : (18 - d) + d ≡ 18 = omega arith in
      let whole = rw same at split in
      let within = le-div (10 ^ d) 1 fixed_scale (pow-ten-pos d) (
        omega (
          arith,
          whole,
          mul_mono 1 (10 ^ (18 - d)) (10 ^ d) (10 ^ d) (pow-ten-pos (18 - d)) (omega arith),
        )) in
      rw small within
]

constraints-lower :
    (number_lt : Text → Text → Bool) (c : GridConstraints)
    → is_grid_constraints number_lt c ≡ true
    → is_positive_decimal c.lower_price ≡ true
unfolding is_grid_constraints
constraints-lower number_lt c h = ground arith

constraints-levels :
    (number_lt : Text → Text → Bool) (c : GridConstraints)
    → is_grid_constraints number_lt c ≡ true
    → 2 ≤ c.level_count
unfolding is_grid_constraints
constraints-levels number_lt c h = ground arith

asset-places : (a : AssetIdentity) → is_asset_identity a ≡ true → a.decimals ≤ 18
unfolding is_asset_identity
asset-places a h = ground arith

six_tests :
    (a b c d e f : Bool)
    → (a && b && c && d && e && f) ≡ true
    → (a ≡ true) × (d ≡ true) × (f ≡ true)
six_tests a b c d e f h = ground arith

module _ (number_lt : Text → Text → Bool) (request : BoundedGridRequest) where
  -- The base fields, the quote asset and the constraints of a valid request are valid.
  request-parts :
      is_grid_request number_lt request ≡ true
      → (is_base_request request.base ≡ true)
        × (is_asset_identity request.quote_asset ≡ true)
        × (is_grid_constraints number_lt request.constraints ≡ true)
  unfolding is_grid_request
  request-parts h =
      six_tests (is_base_request request.base) (is_address request.venue)
        (is_asset_identity request.base_asset) (is_asset_identity request.quote_asset)
        (is_grid_market request.market_state) (is_grid_constraints number_lt request.constraints) h

  pub request-places : is_grid_request number_lt request ≡ true → request.quote_asset.decimals ≤ 18
  request-places h = asset-places request.quote_asset (request-parts h).1

  lower-positive :
      is_grid_request number_lt request ≡ true
      → {lower : ℕ} → parse_fixed request.constraints.lower_price ≡ some lower
      → 0 < lower
  unfolding is_positive_decimal
  lower-positive h read =
      let positive = constraints-lower number_lt request.constraints (request-parts h).2 in
      parse_fixed_positive request.constraints.lower_price (ground arith) read

  pub request-levels :
      is_grid_request number_lt request ≡ true → 2 ≤ request.constraints.level_count
  request-levels h = constraints-levels number_lt request.constraints (request-parts h).2

-- Every level of the range is at least the lower price, and at most the upper one.
pub levels-within :
    (request : BoundedGridRequest) (lower upper : ℕ)
    → 2 ≤ request.constraints.level_count
    → lower ≤ upper
    → All (λ p. (lower ≤ p) × (p ≤ upper)) (all_levels request lower upper)
levels-within request lower upper several h =
    let parts = request.constraints.level_count - 1 in
    levels_from-All (λ p. (lower ≤ p) × (p ≤ upper)) _ request.constraints.level_count 0
      (λ i k.
        let reach = mul_mono (upper - lower) (upper - lower) i parts (omega arith) (omega arith) in
        let share =
          div-lt parts ((upper - lower) * i) (upper - lower + 1) (omega arith) (omega arith) in
        (omega arith, omega arith))

module _ (number_lt : Text → Text → Bool) (request : BoundedGridRequest) (now : ℕ) where
  -- The setup of an actionable grid is ready for planning.
  pub answer_levels-IsSetup :
      {d : BoundedGridDeliverable}
      → is_grid_request number_lt request ≡ true
      → (market : IsMarket number_lt request now d)
      → (levels : IsLevels number_lt request now market.mid market.lower market.upper market.capital
          d)
      → IsSetup levels.setup
  answer_levels-IsSetup {d} valid market levels =
      let positive = lower-positive number_lt request valid market.lower_read in
      let above = market.above in
      let below = market.below in
      let every =
        All-imp (λ p. (market.lower ≤ p) × (p ≤ market.upper)) (λ p. 0 < p)
          (all_levels request market.lower market.upper) (λ p k. omega (arith, k.0))
          (levels-within request market.lower market.upper (request-levels number_lt request valid)
            (omega arith)) in
      record {
        buys_positive = rw levels.buys (All-filter (λ p. 0 < p) _ _ every);
        sells_positive = rw levels.sells (All-filter (λ p. 0 < p) _ _ every);
        some_buys = is_empty-length _ levels.some_buys;
        some_sells = is_empty-length _ levels.some_sells;
        unit_positive = rw levels.unit (unit_positive request.quote_asset.decimals);
        mid_positive = rw levels.mid_same (omega arith);
        decimals_bound = rw levels.base_places (minimum_le 18 request.base_asset.decimals);
      }
