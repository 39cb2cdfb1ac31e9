-- ===== src/Lending/Tests.antt =====
-- The theorems on the answer, on a position that is rescued.
use positioncrew.Prelude.{
  ℕ, ◌+◌, ◌*◌, ◌≤◌, ◌<◌, ◌≡◌, refl, Bool, true, false, Option, none, some, List, [], ◌∷◌, Text,
  codes, value_or, arith, All,
}
use positioncrew.Core.Fixed.{
  fixed_scale, parse_fixed, format_fixed, multiply_fixed, divide_fixed, ceil_divide,
  token_base_units_for_usd,
}
use positioncrew.Contracts.{
  Timestamp, SourceObservation, AssetIdentity, PricedBalance, ProviderStatus,
}
use positioncrew.Contracts.LendingRescue.{
  ActionKind, repay_debt, add_collateral, LendingCollateral, LendingRescueRequest,
  LendingRescueDeliverable, LendingPosition, nothing,
}
use positioncrew.Lending.{LendingPositionMetrics, ActionHash, calculate_lending_position}
use positioncrew.Lending.Provider.{create_lending_rescue_deliverable}
use positioncrew.Lending.Position.{IsPosition, calculate_lending_position-IsPosition}
use positioncrew.Lending.Actionable.{IsRescue, actionable-IsRescue, deliverable_expiry}
use positioncrew.Lending.Samples.{request, hash, delivered, metrics_at}

delivered_made :
    (create_lending_rescue_deliverable hash request 1_000_000 ≡ some delivered)
    × (delivered.status ≡ ProviderStatus.actionable)
unfolding create_lending_rescue_deliverable calculate_lending_position
    positioncrew.Lending.add_collaterals positioncrew.Lending.value_usd parse_fixed
    positioncrew.Lending.add_debts multiply_fixed divide_fixed positioncrew.Core.Fixed.match_decimal
    positioncrew.Contracts.LendingRescue.is_lending_request positioncrew.Lending.Provider.answer
    positioncrew.Lending.Provider.source_integrity_problems
    positioncrew.Lending.Provider.entry_problems positioncrew.Lending.Provider.find_source
    positioncrew.Lending.Provider.stale_sources positioncrew.Lending.Provider.rescue
    positioncrew.Core.Fixed.ratio_from_bps positioncrew.Lending.build_lending_action_candidates
    positioncrew.Contracts.LendingRescue.is_lending_deliverable
    positioncrew.Lending.Provider.deliver positioncrew.Lending.gather_candidates
    positioncrew.Lending.repay_candidates positioncrew.Lending.collateral_candidates
    positioncrew.Lending.collect positioncrew.Lending.comes_first positioncrew.Lending.below_target
    positioncrew.Lending.repay_candidate positioncrew.Lending.collateral_candidate
    positioncrew.Lending.propose positioncrew.Lending.make_plan positioncrew.Lending.action_id
    positioncrew.Lending.available_amount positioncrew.Lending.execute_before
    positioncrew.Lending.includes positioncrew.Prelude.Sort.insert positioncrew.Prelude.Sort.sort
    ceil_divide token_base_units_for_usd positioncrew.Core.Fixed.fixed_token_amount_from_base_units
    format_fixed positioncrew.Core.Fixed.to_string positioncrew.Core.Fixed.digits
    positioncrew.Core.Fixed.strip_zeros positioncrew.Lending.Provider.problems_of
    positioncrew.Lending.Provider.result_expiry positioncrew.Lending.Provider.position_of
    positioncrew.Core.Fixed.minimum
delivered_made = (refl, refl)

actionable-IsRescue_example : IsRescue hash request 1_000_000 delivered
actionable-IsRescue_example =
    actionable-IsRescue hash request 1_000_000 {d = delivered} delivered_made.0 delivered_made.1

deliverable_expiry_example :
    (delivered.expires_at ≤ request.deadline.ms)
    × All
        (λ (s : SourceObservation).
          delivered.expires_at ≤ s.observed_at.ms + request.max_data_age_seconds * 1_000)
        request.sources
    × (delivered.status ≡ ProviderStatus.actionable → 1_000_000 ≤ delivered.expires_at)
deliverable_expiry_example =
    deliverable_expiry hash request 1_000_000 {d = delivered} delivered_made.0

calculate_lending_position-IsPosition_example :
    IsPosition request 800_000_000_000_000_000 (metrics_at 800_000_000_000_000_000)
unfolding calculate_lending_position positioncrew.Lending.add_collaterals
    positioncrew.Lending.value_usd parse_fixed positioncrew.Lending.add_debts multiply_fixed
    divide_fixed positioncrew.Core.Fixed.match_decimal
calculate_lending_position-IsPosition_example =
    calculate_lending_position-IsPosition request 800_000_000_000_000_000 (omega arith, tt) refl
