-- ===== src/Lending/Position.antt =====
-- The metrics of `calculateLendingPosition`, against the amounts, the prices and the multiplier.
use positioncrew.Prelude.{
  ℕ, ◌+◌, ◌*◌, ◌/◌, ◌≤◌, ◌<◌, ◌≡◌, refl, Option, none, some, List, [], ◌∷◌, arith, ◌==◌, inl, inr,
  Bool-cases, All, length,
}
use positioncrew.Prelude.Throws.{>>=-eq-some}
use positioncrew.Prelude.Numbers.{div-mul-le, lt-div-mul}
use positioncrew.Core.Fixed.{fixed_scale, parse_fixed, divide_fixed}
use positioncrew.Contracts.{PricedBalance}
use positioncrew.Contracts.LendingRescue.{LendingRescueRequest}
use positioncrew.Lending.{
  LendingPositionMetrics, value_usd, add_collaterals, add_debts, health, calculate_lending_position,
}
use positioncrew.Lending.Stress.{
  IsValued, HasShare, total_value, threshold_value, value_usd-eq-some, add_collaterals-Stressed,
}

-- The sums from which the metrics are made.
record Sums (request : LendingRescueRequest) (m : ℕ) (x : LendingPositionMetrics) : Type 0 where
  pub totals : ℕ × ℕ
  pub added : add_collaterals m request.collateral 0 0 ≡ some totals
  pub value : x.collateral_value_usd ≡ totals.0
  pub weighted : x.liquidation_weighted_collateral_usd ≡ totals.1
  pub owed : add_debts request.debt 0 ≡ some x.debt_value_usd
  pub ratio : health x.liquidation_weighted_collateral_usd x.debt_value_usd ≡ some x.health_factor

calculate_lending_position-Sums :
    (request : LendingRescueRequest) (m : ℕ) {x : LendingPositionMetrics}
    → calculate_lending_position request m ≡ some x
    → Sums request m x
unfolding calculate_lending_position
calculate_lending_position-Sums request m {x} e =
    let (totals, added, e₁) = >>=-eq-some (add_collaterals m request.collateral 0 0) _ e in
    let (debt, owed, e₂) = >>=-eq-some (add_debts request.debt 0) _ e₁ in
    let (h, ratio, e₃) = >>=-eq-some (health totals.1 debt) _ e₂ in
    let made : record {
      collateral_value_usd = totals.0;
      liquidation_weighted_collateral_usd = totals.1;
      debt_value_usd = debt;
      health_factor = h;
    }
        ≡ x =
      cc in
    rw (← made) (record {
      totals = totals;
      added = added;
      value = refl;
      weighted = refl;
      owed = owed;
      ratio = ratio;
    })

-- The debts' values, each its amount times its price, rounded down.
abbrev pub IsOwed : List PricedBalance → List ℕ → Type 0
IsOwed [] [] = Unit
IsOwed (d ∷ ds) (u ∷ us) =
    ((amount : ℕ) × (price : ℕ) × (parse_fixed d.amount ≡ some amount)
      × (parse_fixed d.price_usd ≡ some price)
      × (u ≡ amount * price / fixed_scale))
    × IsOwed ds us
IsOwed _ _ = ⊥

add_debts-IsOwed :
    (ds : List PricedBalance) (total : ℕ) {t : ℕ}
    → add_debts ds total ≡ some t
    → (us : List ℕ) × IsOwed ds us × (t ≡ total + total_value us)
unfolding add_debts
add_debts-IsOwed [] total e = ([], tt, ground arith)
add_debts-IsOwed (d ∷ ds) total e =
    let (u, read, rest) = >>=-eq-some (value_usd d.amount d.price_usd) _ e in
    let (us, owed, sum) = add_debts-IsOwed ds (total + u) rest in
    (u ∷ us, (value_usd-eq-some d.amount d.price_usd read, owed), omega (arith, sum))

-- The health factor is the weighted value over the debt, rounded down, and there is none without debt.
abbrev pub IsHealth : Option ℕ → ℕ → ℕ → Type 0
IsHealth none weighted debt = debt ≡ 0
IsHealth (some h) weighted debt =
    (h * debt ≤ weighted * fixed_scale) × (weighted * fixed_scale < (h + 1) * debt)

health-IsHealth :
    (weighted debt : ℕ) (h : Option ℕ) → health weighted debt ≡ some h → IsHealth h weighted debt
unfolding divide_fixed
health-IsHealth weighted debt none e = elim (Bool-cases (debt == 0)) [
  | inl free ↦ ground arith
  | inr owed ↦ absurd (ground arith)
]
health-IsHealth weighted debt (some h) e = elim (Bool-cases (debt == 0)) [
  | inl free ↦ absurd (ground arith)
  | inr owed ↦
      let made : weighted * fixed_scale / debt ≡ h = ground arith in
      let low = div-mul-le (weighted * fixed_scale) debt in
      let high = lt-div-mul (weighted * fixed_scale) debt (ground arith) in
      (rw made at low, omega (arith, rw made at high))
]

-- The metrics of a position under a price multiplier, against its amounts and prices.
pub record IsPosition (request : LendingRescueRequest) (m : ℕ) (x : LendingPositionMetrics)
    : Type 0 where
  pub values : List ℕ
  pub debts : List ℕ
  pub valued : IsValued request.collateral values
  pub owed : IsOwed request.debt debts
  pub value_low : x.collateral_value_usd * fixed_scale ≤ total_value values * m
  pub value_high :
      total_value values * m ≤ (x.collateral_value_usd + length request.collateral) * fixed_scale
  pub weighted_low :
      x.liquidation_weighted_collateral_usd * (10_000 * fixed_scale)
      ≤ threshold_value request.collateral values * m
  pub weighted_high :
      threshold_value request.collateral values * m
      ≤ (x.liquidation_weighted_collateral_usd + 2 * length request.collateral)
        * (10_000 * fixed_scale)
  pub debt : x.debt_value_usd ≡ total_value debts
  pub ratio : IsHealth x.health_factor x.liquidation_weighted_collateral_usd x.debt_value_usd

-- Where every liquidation threshold is at most 10,000 basis points, the value of the collateral under
-- a price multiplier is the sum of its amounts times its prices, times the multiplier, and the
-- weighted value is the same over the enabled collaterals with each times its threshold: each within
-- the last digits that one rounding per collateral loses, or two for the weighted value. The debt is
-- the sum of its values, the multiplier left aside, and the health factor is the weighted value over
-- the debt, rounded down, given exactly if there is debt.
pub calculate_lending_position-IsPosition :
    (request : LendingRescueRequest) (m : ℕ) {x : LendingPositionMetrics}
    → All HasShare request.collateral
    → calculate_lending_position request m ≡ some x
    → IsPosition request m x
calculate_lending_position-IsPosition request m {x} shares e =
    let sums = calculate_lending_position-Sums request m e in
    let (value, weighted, total, share, stressed) =
      add_collaterals-Stressed m request.collateral 0 0 shares sums.added in
    let (debts, owed, debt) = add_debts-IsOwed request.debt 0 sums.owed in
    let same_value : x.collateral_value_usd ≡ value = omega (arith, sums.value, total) in
    let same_weighted : x.liquidation_weighted_collateral_usd ≡ weighted =
      omega (arith, sums.weighted, share) in
    record {
      values = stressed.values;
      debts = debts;
      valued = stressed.valued;
      owed = owed;
      value_low = rw same_value stressed.value_low;
      value_high = rw same_value stressed.value_high;
      weighted_low = rw same_weighted stressed.weighted_low;
      weighted_high = rw same_weighted stressed.weighted_high;
      debt = omega (arith, debt);
      ratio =
          health-IsHealth x.liquidation_weighted_collateral_usd x.debt_value_usd x.health_factor
            sums.ratio;
    }
