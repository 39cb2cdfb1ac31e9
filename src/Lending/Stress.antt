-- ===== src/Lending/Stress.antt =====
-- What the loop of `calculateLendingPosition` over the collateral makes of the amounts, the prices and
-- the price multiplier.
use positioncrew.Prelude.{
  ◌^◌, ℕ, ◌+◌, ◌*◌, ◌/◌, ◌≤◌, ◌<◌, ◌≡◌, some, List, [], ◌∷◌, arith, All, length, inl, inr,
  Bool-cases, Text, if◌then◌else◌, some_inj, sym,
}
use positioncrew.Prelude.Throws.{>>=-eq-some}
use positioncrew.Prelude.Numbers.{div-mul-le, lt-div-mul, mul_mono}
use positioncrew.Core.Fixed.{fixed_scale, parse_fixed, multiply_fixed, ratio_from_bps}
use positioncrew.Contracts.LendingRescue.{LendingCollateral}
use positioncrew.Lending.{value_usd, add_collaterals}

-- The unstressed values of the collaterals, each its amount times its price, rounded down.
abbrev pub IsValued : List LendingCollateral → List ℕ → Type 0
IsValued [] [] = Unit
IsValued (c ∷ cs) (u ∷ us) =
    ((amount : ℕ) × (price : ℕ) × (parse_fixed c.amount ≡ some amount)
      × (parse_fixed c.price_usd ≡ some price)
      × (u ≡ amount * price / fixed_scale))
    × IsValued cs us
IsValued _ _ = ⊥

abbrev pub HasShare : LendingCollateral → Type 0
HasShare c = c.liquidation_threshold_bps ≤ 10_000

abbrev pub total_value : List ℕ → ℕ
total_value [] = 0
total_value (u ∷ us) = u + total_value us

-- The values of the enabled collaterals, each times its threshold in basis points.
abbrev pub threshold_value : List LendingCollateral → List ℕ → ℕ
threshold_value (c ∷ cs) (u ∷ us) =
    (if c.collateral_enabled then u * c.liquidation_threshold_bps else 0) + threshold_value cs us
threshold_value _ _ = 0

multiply_fixed-bounds :
    (a b : ℕ)
    → (multiply_fixed a b * fixed_scale ≤ a * b)
      × (a * b < multiply_fixed a b * fixed_scale + fixed_scale)
unfolding multiply_fixed
multiply_fixed-bounds a b =
    (div-mul-le (a * b) fixed_scale, lt-div-mul (a * b) fixed_scale (omega arith))

ratio_from_bps-eq : (bps : ℕ) → ratio_from_bps bps ≡ bps * 10 ^ 14
unfolding ratio_from_bps
ratio_from_bps-eq bps = omega arith

share-bounds :
    (v bps : ℕ)
    → (multiply_fixed v (ratio_from_bps bps) * 10_000 ≤ v * bps)
      × (v * bps < multiply_fixed v (ratio_from_bps bps) * 10_000 + 10_000)
share-bounds v bps =
    let (low, high) = multiply_fixed-bounds v (bps * 10 ^ 14) in
    rw (ratio_from_bps-eq bps) (omega (arith, low), omega (arith, high))

-- One collateral: its stressed value and its weighted share, against its value.
stressed-bounds :
    (u m bps : ℕ)
    → bps ≤ 10_000
    → (multiply_fixed u m * fixed_scale ≤ u * m)
      × (u * m ≤ multiply_fixed u m * fixed_scale + fixed_scale)
      × (multiply_fixed (multiply_fixed u m) (ratio_from_bps bps) * (10_000 * fixed_scale)
          ≤ u * bps * m)
      × (u * bps * m
          ≤ multiply_fixed (multiply_fixed u m) (ratio_from_bps bps) * (10_000 * fixed_scale)
            + 2 * (10_000 * fixed_scale))
stressed-bounds u m bps most =
    let v = multiply_fixed u m in
    let (low, high) = multiply_fixed-bounds u m in
    let (least, below) = share-bounds v bps in
    let down : v * fixed_scale * bps ≤ u * m * bps =
      mul_mono (v * fixed_scale) (u * m) bps bps low (omega arith) in
    let up : u * m * bps ≤ (v * fixed_scale + fixed_scale) * bps =
      mul_mono (u * m) (v * fixed_scale + fixed_scale) bps bps (omega (arith, high))
        (omega arith) in
    (low, omega (arith, high), omega (arith, least, down), omega (arith, below, up, most))

-- The sums over the collaterals, within a unit for each rounding.
pub record Stressed (m : ℕ) (cs : List LendingCollateral) (value weighted : ℕ) : Type 0 where
  pub values : List ℕ
  pub valued : IsValued cs values
  pub value_low : value * fixed_scale ≤ total_value values * m
  pub value_high : total_value values * m ≤ (value + length cs) * fixed_scale
  pub weighted_low : weighted * (10_000 * fixed_scale) ≤ threshold_value cs values * m
  pub weighted_high :
      threshold_value cs values * m ≤ (weighted + 2 * length cs) * (10_000 * fixed_scale)

pub value_usd-eq-some :
    (held price_usd : Text) {u : ℕ}
    → value_usd held price_usd ≡ some u
    → (amount : ℕ) × (price : ℕ) × (parse_fixed held ≡ some amount)
      × (parse_fixed price_usd ≡ some price)
      × (u ≡ amount * price / fixed_scale)
unfolding value_usd multiply_fixed
value_usd-eq-some held price_usd h =
    let (amount, amount_read, h₁) = >>=-eq-some (parse_fixed held) _ h in
    let (price, price_read, h₂) = >>=-eq-some (parse_fixed price_usd) _ h₁ in
    (amount, price, amount_read, price_read, sym (some_inj h₂))

-- A collateral joins the sums of the others.
stress-collateral :
    (m : ℕ) (c : LendingCollateral) (cs : List LendingCollateral) (u value weighted : ℕ)
    → HasShare c
    → value_usd c.amount c.price_usd ≡ some u
    → Stressed m cs value weighted
    → Stressed m (c ∷ cs) (multiply_fixed u m + value) (
        (if c.collateral_enabled
          then multiply_fixed (multiply_fixed u m) (ratio_from_bps c.liquidation_threshold_bps)
          else 0)
        + weighted)
stress-collateral m c cs u value weighted most read rest =
    let (low, high, least, greatest) = stressed-bounds u m c.liquidation_threshold_bps most in
    let value_low = rest.value_low in
    let value_high = rest.value_high in
    let weighted_low = rest.weighted_low in
    let weighted_high = rest.weighted_high in
    record {
      values = u ∷ rest.values;
      valued = (value_usd-eq-some c.amount c.price_usd read, rest.valued);
      value_low = omega (arith, low, value_low);
      value_high = omega (arith, high, value_high);
      weighted_low = elim (Bool-cases c.collateral_enabled) [
        | inl on ↦ rw on (omega (arith, least, weighted_low))
        | inr off ↦ rw off (omega (arith, weighted_low))
      ];
      weighted_high = elim (Bool-cases c.collateral_enabled) [
        | inl on ↦ rw on (omega (arith, greatest, weighted_high))
        | inr off ↦ rw off (omega (arith, weighted_high))
      ];
    }

pub add_collaterals-Stressed :
    (m : ℕ) (cs : List LendingCollateral) (v w : ℕ) {t : ℕ × ℕ}
    → All HasShare cs
    → add_collaterals m cs v w ≡ some t
    → (value : ℕ) × (weighted : ℕ) × (t.0 ≡ v + value)
      × (t.1 ≡ w + weighted)
      × Stressed m cs value weighted
unfolding add_collaterals
add_collaterals-Stressed m [] v w shares e = (
  0,
  0,
  ground arith,
  ground arith,
  record {
    values = [];
    valued = tt;
    value_low = omega arith;
    value_high = omega arith;
    weighted_low = omega arith;
    weighted_high = omega arith;
  },
)
add_collaterals-Stressed m (c ∷ cs) v w {t} shares e =
    let (u, read, rest) = >>=-eq-some (value_usd c.amount c.price_usd) _ e in
    let (value, weighted, total, share, sums) = add_collaterals-Stressed m cs _ _ shares.1 rest in
    (
      multiply_fixed u m + value,
      (if c.collateral_enabled
            then multiply_fixed (multiply_fixed u m) (ratio_from_bps c.liquidation_threshold_bps)
            else 0)
          + weighted,
      omega (arith, total),
      elim (Bool-cases c.collateral_enabled) [
        | inl on ↦ rw on (omega (arith, rw on at share))
        | inr off ↦ rw off (omega (arith, rw off at share))
      ],
      stress-collateral m c cs u value weighted shares.0 read sums,
    )
