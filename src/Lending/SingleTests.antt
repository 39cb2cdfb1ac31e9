-- ===== src/Lending/SingleTests.antt =====
-- The theorems on single candidates and on their list, on a position that is rescued.
use positioncrew.Prelude.{
  ℕ, ◌+◌, ◌-◌, ◌*◌, ◌/◌, ◌≤◌, ◌<◌, ◌≡◌, ◌≢◌, ◌↔◌, refl, Bool, true, false, Option, none, some, List,
  [], ◌∷◌, value_or, arith, All,
}
use positioncrew.Prelude.Sort.{IsSorted}
use positioncrew.Core.Fixed.{
  fixed_scale, parse_fixed, format_fixed, multiply_fixed, divide_fixed, ceil_divide,
  token_base_units_for_usd, fixed_token_amount_from_base_units, ratio_from_bps,
}
use positioncrew.Contracts.LendingRescue.{repay_debt, LendingCollateral}
use positioncrew.Lending.{
  LendingPositionMetrics, LendingActionCandidate, comes_first, repay_candidate,
  collateral_candidate, build_lending_action_candidates,
}
use positioncrew.Lending.Repay.{Meets, worth, debt_after, Repays, amount_of, is_some}
use positioncrew.Lending.Collateral.{TopsUp, weight, required_weight}
use positioncrew.Lending.Smallest.{
  repay_candidate_smallest, repay_candidate_iff_fits, collateral_candidate_smallest,
  collateral_candidate_dropped,
}
use positioncrew.Lending.Candidates.{IsAllowed, build_candidates_offer}
use positioncrew.Lending.Samples.{
  hash, request, usdc, usdc_debt, wbnb_collateral, current, target, limit,
}

abbrev no_candidate : LendingActionCandidate
no_candidate = record {
  plan = record {
    action_id = [];
    kind = repay_debt;
    chain_id = 0;
    protocol = [];
    market = [];
    account = [];
    asset = usdc;
    amount = [];
    amount_base_units = [];
    amount_usd = [];
    estimated_gas_usd = [];
    projected_health_factor = none;
    execute_before = 0;
    max_slippage_bps = 0;
  };
  capital_required_usd = 0;
}

-- The worth of the repayment that is missing.
abbrev missing_debt : ℕ
missing_debt =
    current.debt_value_usd - current.liquidation_weighted_collateral_usd * fixed_scale / target

abbrev repayment : LendingActionCandidate
repayment =
    value_or no_candidate
      (value_or none (repay_candidate hash request current target limit missing_debt usdc_debt))

repayment_made :
    repay_candidate hash request current target limit missing_debt usdc_debt ≡ some (some repayment)
unfolding repay_candidate parse_fixed positioncrew.Core.Fixed.match_decimal token_base_units_for_usd
    ceil_divide positioncrew.Lending.available_amount positioncrew.Lending.propose
    positioncrew.Lending.make_plan divide_fixed multiply_fixed fixed_token_amount_from_base_units
    positioncrew.Core.Fixed.minimum
repayment_made = refl

repay_candidate_smallest_example :
    (r : Repays hash request current target limit missing_debt usdc_debt repayment) × Meets
      current.liquidation_weighted_collateral_usd target
      (debt_after current.debt_value_usd (worth 6 r.price r.units))
    × ((fewer : ℕ)
        → Meets current.liquidation_weighted_collateral_usd target
            (debt_after current.debt_value_usd (worth 6 r.price fewer))
        → r.units ≤ fewer)
repay_candidate_smallest_example =
    repay_candidate_smallest hash request current target limit usdc_debt (omega arith) (omega arith)
      (omega arith) repayment_made

repay_candidate_iff_fits_example :
    (found : Option LendingActionCandidate) × (repay_candidate hash request current target limit
        missing_debt usdc_debt
      ≡ some found)
    × ((is_some found ≡ true) ↔ (
        (amount_of 6 318_181_819 ≤ 700_000_000_000_000_000_000)
        × (amount_of 6 318_181_819 ≤ 2_500_000_000_000_000_000_000)
        × (worth 6 1_000_000_000_000_000_000 318_181_819 ≤ limit)))
unfolding parse_fixed positioncrew.Core.Fixed.match_decimal token_base_units_for_usd ceil_divide
    positioncrew.Lending.available_amount
repay_candidate_iff_fits_example =
    repay_candidate_iff_fits hash request current target limit usdc_debt
      {gas = 500_000_000_000_000_000} (omega arith) (omega arith) (omega arith) refl refl refl refl
      refl

-- The weight of the collateral that is missing.
abbrev missing_weight : ℕ
missing_weight =
    required_weight current.liquidation_weighted_collateral_usd target current.debt_value_usd

abbrev top_up : LendingActionCandidate
top_up = value_or no_candidate (
    value_or none
      (collateral_candidate hash request current target limit missing_weight wbnb_collateral))

top_up_made :
    collateral_candidate hash request current target limit missing_weight wbnb_collateral
    ≡ some (some top_up)
unfolding collateral_candidate parse_fixed positioncrew.Core.Fixed.match_decimal
    token_base_units_for_usd ceil_divide positioncrew.Lending.available_amount
    positioncrew.Lending.propose positioncrew.Lending.make_plan divide_fixed multiply_fixed
    fixed_token_amount_from_base_units positioncrew.Core.Fixed.minimum ratio_from_bps
top_up_made = refl

collateral_candidate_smallest_example :
    (r : TopsUp hash request current target limit missing_weight wbnb_collateral top_up) × Meets
      (current.liquidation_weighted_collateral_usd
        + weight (ratio_from_bps 8_000) (worth 18 r.price r.units))
      target
      current.debt_value_usd
    × ((fewer : ℕ)
        → Meets
            (current.liquidation_weighted_collateral_usd
              + weight (ratio_from_bps 8_000) (worth 18 r.price fewer))
            target
            current.debt_value_usd
        → r.units ≤ fewer)
collateral_candidate_smallest_example =
    collateral_candidate_smallest hash request current target limit wbnb_collateral (omega arith)
      top_up_made

-- A debt whose target is no whole number of units, and a collateral at one dollar.
abbrev odd_metrics : LendingPositionMetrics
odd_metrics = record {
  collateral_value_usd = 0;
  liquidation_weighted_collateral_usd = 0;
  debt_value_usd = 1_000_000_000_000_000_001;
  health_factor = some 0;
}

abbrev odd_collateral : LendingCollateral
odd_collateral = record wbnb_collateral {
  balance = record wbnb_collateral.balance { price_usd = usdc_debt.price_usd };
}

collateral_candidate_dropped_example :
    (collateral_candidate hash request odd_metrics target limit
        (required_weight 0 target 1_000_000_000_000_000_001)
        odd_collateral
      ≡ some none)
    × Meets
        (0 + required_weight 0 target 1_000_000_000_000_000_001 + 1)
        target
        1_000_000_000_000_000_001
unfolding parse_fixed positioncrew.Core.Fixed.match_decimal token_base_units_for_usd ceil_divide
    positioncrew.Lending.available_amount ratio_from_bps multiply_fixed
    fixed_token_amount_from_base_units
collateral_candidate_dropped_example =
    collateral_candidate_dropped hash request odd_metrics target limit odd_collateral (omega arith)
      (omega arith) refl (omega arith) refl refl refl (omega arith)

abbrev candidates : List LendingActionCandidate
candidates = value_or [] (build_lending_action_candidates hash request current)

candidates_made : build_lending_action_candidates hash request current ≡ some candidates
unfolding build_lending_action_candidates positioncrew.Lending.gather_candidates
    positioncrew.Lending.repay_candidates positioncrew.Lending.collateral_candidates
    positioncrew.Lending.collect comes_first positioncrew.Lending.below_target repay_candidate
    collateral_candidate parse_fixed positioncrew.Core.Fixed.match_decimal token_base_units_for_usd
    ceil_divide positioncrew.Lending.available_amount positioncrew.Lending.propose
    positioncrew.Lending.make_plan positioncrew.Lending.includes positioncrew.Prelude.Sort.insert
    positioncrew.Prelude.Sort.sort divide_fixed multiply_fixed fixed_token_amount_from_base_units
    positioncrew.Core.Fixed.minimum ratio_from_bps
candidates_made = refl

build_candidates_offer_example :
    All (IsAllowed request limit) candidates
    × IsSorted comes_first candidates
    × (candidates ≢ [] → 500_000_000_000_000_000 ≤ 5_000_000_000_000_000_000)
unfolding parse_fixed positioncrew.Core.Fixed.match_decimal
build_candidates_offer_example =
    build_candidates_offer hash request current refl refl refl candidates_made
