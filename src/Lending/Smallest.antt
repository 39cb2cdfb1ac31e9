-- ===== src/Lending/Smallest.antt =====
-- The properties of the single candidates of `buildLendingActionCandidates`.
use positioncrew.Prelude.{
  ℕ, ◌+◌, ◌-◌, ◌%◌, ◌*◌, ◌/◌, ◌≤◌, ◌<◌, ◌≡◌, ◌↔◌, true, false, ◌&&◌, Option, none, some, arith, leb,
  lt→not-leb,
}
use positioncrew.Core.Fixed.{fixed_scale, parse_fixed, ratio_from_bps, token_base_units_for_usd}
use positioncrew.Core.Fixed.Bounds.{token_base_units_least, divide_fixed-pos}
use positioncrew.Contracts.{PricedBalance}
use positioncrew.Contracts.LendingRescue.{LendingRescueRequest, LendingCollateral, repay_debt}
use positioncrew.Lending.{
  LendingPositionMetrics, LendingActionCandidate, ActionHash, available_amount, propose,
  repay_candidate, collateral_candidate,
}
use positioncrew.Lending.Collateral.{
  add_usd_of, weight, add_usd_least, required_weight, required-le, required_short, TopsUp,
  collateral_candidate-TopsUp,
}
use positioncrew.Prelude.Numbers.{div-lt, factor-pos}
use positioncrew.Lending.Repay.{
  Meets, worth, amount_of, debt_after, Meets-iff_repaid, is_at_target_iff, Repays,
  repay_candidate-Repays, is_some, propose_total,
}

module _ (hash : ActionHash) (request : LendingRescueRequest) (metrics : LendingPositionMetrics)
    (target max_action : ℕ) (debt : PricedBalance) where
  -- The weighted collateral, the debt, and the sum that the source asks a repayment to be worth.
  abbrev weighted : ℕ
  weighted = metrics.liquidation_weighted_collateral_usd

  abbrev owed_usd : ℕ
  owed_usd = metrics.debt_value_usd

  abbrev repay_usd : ℕ
  repay_usd = owed_usd - weighted * fixed_scale / target

  abbrev left_after : ℕ → ℕ → ℕ
  left_after price units = debt_after owed_usd (worth debt.asset.decimals price units)

  -- Below the target, a proposed repayment of a token of at most 18 decimals leaves a debt that
  -- meets the target, no smaller number of base units does, and it fits the wallet, the balance
  -- owed and the action limit.
  pub repay_candidate_smallest :
      {c : LendingActionCandidate}
      → 0 < target
      → weighted * fixed_scale < owed_usd * target
      → debt.asset.decimals ≤ 18
      → repay_candidate hash request metrics target max_action repay_usd debt ≡ some (some c)
      → (r : Repays hash request metrics target max_action repay_usd debt c) × Meets weighted target
          (left_after r.price r.units)
        × ((fewer : ℕ) → Meets weighted target (left_after r.price fewer) → r.units ≤ fewer)
  repay_candidate_smallest positive short places e =
      let r = repay_candidate-Repays hash request metrics target max_action repay_usd debt e in
      let (reach, least) =
        token_base_units_least repay_usd r.price debt.asset.decimals places r.bought in
      let exact = Meets-iff_repaid weighted target owed_usd positive in
      (r, (exact _).1 reach, λ fewer h. least fewer ((exact _).0 h))

  -- Once its inputs are read, a round over a debt throws nothing, and it proposes a repayment exactly
  -- if the base units that cover the missing sum fit the wallet, the balance owed and the limit: the
  -- test of the projected health factor never refuses one.
  pub repay_candidate_iff_fits :
      {price units wallet held gas : ℕ}
      → 0 < target
      → weighted * fixed_scale < owed_usd * target
      → debt.asset.decimals ≤ 18
      → parse_fixed debt.price_usd ≡ some price
      → token_base_units_for_usd repay_usd price debt.asset.decimals ≡ some units
      → available_amount request.available_assets debt.asset.address ≡ some wallet
      → parse_fixed debt.amount ≡ some held
      → parse_fixed request.estimated_gas_usd ≡ some gas
      → (found : Option LendingActionCandidate) × (repay_candidate hash request metrics target
            max_action repay_usd debt
          ≡ some found)
        × ((is_some found ≡ true) ↔ (
            (amount_of debt.asset.decimals units ≤ wallet)
            × (amount_of debt.asset.decimals units ≤ held)
            × (worth debt.asset.decimals price units ≤ max_action)))
  unfolding repay_candidate
  repay_candidate_iff_fits {price} {units} {wallet} {held} {gas} positive short places ep eu ew eh
        eg =
      let (reach, _) = token_base_units_least repay_usd price debt.asset.decimals places eu in
      let meets = (Meets-iff_repaid weighted target owed_usd positive _).1 reach in
      let (after, known, agrees) =
        is_at_target_iff weighted target owed_usd positive (left_after price units) in
      let safe = agrees.1 meets in
      let (found, proposed, iff) =
        propose_total hash request metrics target max_action repay_debt debt.asset units
          (amount_of debt.asset.decimals units) (worth debt.asset.decimals price units) after
          (leb (amount_of debt.asset.decimals units) wallet
            && leb (amount_of debt.asset.decimals units) held)
          eg safe in
      (
        found,
        rw (ep, eu, ew, eh, known) proposed,
        (
          λ h. let (fits, budget) = iff.0 h in (ground arith, ground arith, budget),
          λ (w, o, b). iff.1 (ground arith, b),
        ),
      )

module _ (hash : ActionHash) (request : LendingRescueRequest) (metrics : LendingPositionMetrics)
    (target max_action : ℕ) (c : LendingCollateral) where
  abbrev held_weight : ℕ
  held_weight = metrics.liquidation_weighted_collateral_usd

  abbrev debt_usd : ℕ
  debt_usd = metrics.debt_value_usd

  abbrev missing : ℕ
  missing = required_weight held_weight target debt_usd

  abbrev threshold_of : ℕ
  threshold_of = ratio_from_bps c.liquidation_threshold_bps

  abbrev weight_of : ℕ → ℕ → ℕ
  weight_of price units = weight threshold_of (worth c.asset.decimals price units)

  -- A proposed top-up of a token of at most 18 decimals meets the target, no smaller number of base
  -- units does, and it fits the wallet and the action limit.
  pub collateral_candidate_smallest :
      {found : LendingActionCandidate}
      → c.asset.decimals ≤ 18
      → collateral_candidate hash request metrics target max_action missing c ≡ some (some found)
      → (r : TopsUp hash request metrics target max_action missing c found) × Meets
          (held_weight + weight_of r.price r.units)
          target
          debt_usd
        × ((fewer : ℕ)
            → Meets (held_weight + weight_of r.price fewer) target debt_usd
            → r.units ≤ fewer)
  collateral_candidate_smallest places e =
      let r = collateral_candidate-TopsUp hash request metrics target max_action missing c e in
      let (_, least) =
        token_base_units_least (add_usd_of missing threshold_of) r.price c.asset.decimals places
          r.bought in
      (
        r,
        r.at_target,
        λ fewer h. least fewer (
            add_usd_least missing threshold_of _ r.weighs
              (required-le held_weight target debt_usd (weight_of r.price fewer) h)),
      )

  -- Where the target debt is no whole number of units and the base units bought add no more weight
  -- than the source asks for, the top-up is dropped, whatever the wallet holds and the limits
  -- allow, although one unit of weight more would meet the target.
  pub collateral_candidate_dropped :
      {price units wallet : ℕ}
      → held_weight * fixed_scale < debt_usd * target
      → 0 < target * debt_usd % fixed_scale
      → c.collateral_enabled ≡ true
      → 0 < threshold_of
      → parse_fixed c.price_usd ≡ some price
      → token_base_units_for_usd (add_usd_of missing threshold_of) price c.asset.decimals
        ≡ some units
      → available_amount request.available_assets c.asset.address ≡ some wallet
      → weight_of price units ≤ missing
      → (collateral_candidate hash request metrics target max_action missing c ≡ some none)
        × Meets (held_weight + missing + 1) target debt_usd
  unfolding collateral_candidate propose
  collateral_candidate_dropped {price} {units} below rest on weighs ep eu ew low =
      let (short, enough) = required_short held_weight target debt_usd below rest in
      let after : ℕ = held_weight + weight_of price units in
      let owed : 0 < debt_usd = factor-pos debt_usd target _ below in
      let under : leb target (after * fixed_scale / debt_usd) ≡ false =
        lt→not-leb target _ (div-lt debt_usd (after * fixed_scale) target owed (omega arith)) in
      (ground (arith, divide_fixed-pos after debt_usd owed), enough)
