-- ===== src/Lending/Collateral.antt =====
-- The collateral top-up that `buildLendingActionCandidates` proposes.
use positioncrew.Prelude.{
  ℕ, suc, ◌+◌, ◌-◌, ◌*◌, ◌/◌, ◌%◌, ◌≤◌, ◌<◌, ◌≡◌, true, some, arith, leb, leb→le, value_or,
}
use positioncrew.Prelude.Numbers.{div-lt, le-div, mul-le_of_le-div}
use positioncrew.Core.Fixed.{
  fixed_scale, parse_fixed, to_string, multiply_fixed, divide_fixed, ratio_from_bps,
  token_base_units_for_usd,
}
use positioncrew.Contracts.LendingRescue.{LendingRescueRequest, LendingCollateral, add_collateral}
use positioncrew.Lending.{
  LendingPositionMetrics, LendingActionCandidate, ActionHash, available_amount, propose,
  collateral_candidate,
}
use positioncrew.Lending.Repay.{Meets, worth, amount_of, propose-eq-some}

-- The sum that the source buys collateral for: what is missing, over the threshold, rounded up.
abbrev pub add_usd_of : ℕ → ℕ → ℕ
add_usd_of required threshold = (required * fixed_scale + threshold - 1) / threshold

-- The weight that a sum has at a threshold.
abbrev pub weight : ℕ → ℕ → ℕ
weight threshold usd = multiply_fixed usd threshold

-- The sum is the least whose weight is the missing one.
pub add_usd_least :
    (required threshold v : ℕ)
    → 0 < threshold
    → required ≤ weight threshold v
    → add_usd_of required threshold ≤ v
unfolding multiply_fixed
add_usd_least required threshold v p h =
    let product : required * fixed_scale ≤ v * threshold =
      mul-le_of_le-div fixed_scale required (v * threshold) (omega arith) h in
    omega (arith, div-lt threshold (required * fixed_scale + threshold - 1) (suc v) p (omega arith))

module _ (weighted target debt : ℕ) where
  -- The weight that the source asks for.
  abbrev pub required_weight : ℕ
  required_weight = multiply_fixed target debt - weighted

  -- Below the target the difference is not negative.
  pub weighted-le : weighted * fixed_scale < debt * target → weighted ≤ multiply_fixed target debt
  unfolding multiply_fixed
  weighted-le short = le-div fixed_scale weighted (target * debt) (omega arith) (omega arith)

  -- Added weight that meets the target is at least what the source asks for.
  pub required-le : (w : ℕ) → Meets (weighted + w) target debt → required_weight ≤ w
  unfolding multiply_fixed
  required-le w h =
      omega
        (arith, div-lt fixed_scale (target * debt) (suc (weighted + w)) (omega arith) (omega arith))

  -- Where the target debt is no whole number of units, what the source asks for is one unit short.
  pub required_short :
      weighted * fixed_scale < debt * target
      → 0 < target * debt % fixed_scale
      → ¬ Meets (weighted + required_weight) target debt
        × Meets (weighted + required_weight + 1) target debt
  unfolding multiply_fixed
  required_short short rest =
      let low = weighted-le short in (λ h. omega (arith, low), omega (arith, low))

module _ (hash : ActionHash) (request : LendingRescueRequest) (metrics : LendingPositionMetrics)
    (target max_action required : ℕ) (c : LendingCollateral) where
  abbrev pub threshold : ℕ
  threshold = ratio_from_bps c.liquidation_threshold_bps

  -- What the source has read and tested when it adds a top-up.
  pub record TopsUp (found : LendingActionCandidate) : Type 0 where
    pub price : ℕ
    pub units : ℕ
    pub wallet : ℕ
    pub enabled : c.collateral_enabled ≡ true
    pub weighs : 0 < threshold
    pub priced : parse_fixed c.price_usd ≡ some price
    pub bought :
        token_base_units_for_usd (add_usd_of required threshold) price c.asset.decimals ≡ some units
    pub funded : available_amount request.available_assets c.asset.address ≡ some wallet
    pub capital : found.capital_required_usd ≡ worth c.asset.decimals price units
    pub kind : found.plan.kind ≡ add_collateral
    pub base_units : found.plan.amount_base_units ≡ to_string units
    pub in_wallet : amount_of c.asset.decimals units ≤ wallet
    pub in_budget : worth c.asset.decimals price units ≤ max_action
    pub at_target :
        Meets
          (metrics.liquidation_weighted_collateral_usd
            + weight threshold (worth c.asset.decimals price units))
          target
          metrics.debt_value_usd

  abbrev price_read : ℕ
  price_read = value_or 0 (parse_fixed c.price_usd)

  abbrev units_bought : ℕ
  units_bought =
      value_or 0
        (token_base_units_for_usd (add_usd_of required threshold) price_read c.asset.decimals)

  abbrev wallet_read : ℕ
  wallet_read = value_or 0 (available_amount request.available_assets c.asset.address)

  abbrev usd_added : ℕ
  usd_added = worth c.asset.decimals price_read units_bought

  abbrev weighted_after : ℕ
  weighted_after = metrics.liquidation_weighted_collateral_usd + weight threshold usd_added

  collateral_candidate-propose :
      {found : LendingActionCandidate}
      → collateral_candidate hash request metrics target max_action required c ≡ some (some found)
      → (c.collateral_enabled ≡ true)
        × (0 < threshold)
        × (parse_fixed c.price_usd ≡ some price_read)
        × (token_base_units_for_usd (add_usd_of required threshold) price_read c.asset.decimals
            ≡ some units_bought)
        × (available_amount request.available_assets c.asset.address ≡ some wallet_read)
        × (0 < metrics.debt_value_usd)
        × (propose hash request metrics target max_action add_collateral c.asset units_bought
              (amount_of c.asset.decimals units_bought)
              usd_added
              (some (weighted_after * fixed_scale / metrics.debt_value_usd))
              (leb (amount_of c.asset.decimals units_bought) wallet_read)
            ≡ some (some found))
  unfolding collateral_candidate divide_fixed
  collateral_candidate-propose e = ground arith

  pub collateral_candidate-TopsUp :
      {found : LendingActionCandidate}
      → collateral_candidate hash request metrics target max_action required c ≡ some (some found)
      → TopsUp found
  collateral_candidate-TopsUp e =
      let (enabled, weighs, priced, bought, funded, owed, proposed) =
        collateral_candidate-propose e in
      let (fits, budget, safe, capital, kind, _, base) =
        propose-eq-some hash request metrics target max_action add_collateral c.asset units_bought
          (amount_of c.asset.decimals units_bought) usd_added
          (some (weighted_after * fixed_scale / metrics.debt_value_usd)) _ proposed in
      record {
        price = price_read;
        units = units_bought;
        wallet = wallet_read;
        enabled = enabled;
        weighs = weighs;
        priced = priced;
        bought = bought;
        funded = funded;
        capital = capital;
        kind = kind;
        base_units = base;
        in_wallet = leb→le _ _ fits;
        in_budget = budget;
        at_target = omega (
          arith,
          mul-le_of_le-div metrics.debt_value_usd target (weighted_after * fixed_scale) owed
              (leb→le target _ safe),
        );
      }
