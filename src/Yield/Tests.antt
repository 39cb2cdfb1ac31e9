-- ===== src/Yield/Tests.antt =====
-- Runs of the yield provider.
use positioncrew.Contracts.{
  is_address, is_asset_identity, is_base_request, is_positive_decimal, is_request_window,
  is_unsigned_decimal, is_source,
}
use positioncrew.Core.Fixed.{
  fixed_scale, minimum, format_fixed, to_string, digits, span_digits, strip_zeros, to_big_int,
  value_from,
}
use positioncrew.Prelude.{
  ℕ, ◌+◌, ◌*◌, ◌≤◌, ◌≡◌, refl, false, some, arith, List, [], ◌∷◌, ◌++◌, map, Text, ◌<◌,
}
use positioncrew.Prelude.Dict.{lookup, insert as insert_entry}
use positioncrew.Prelude.Integers.{◌+ℤ◌, ◌-ℤ◌}
use positioncrew.Prelude.Sort.{sort, insert}
use positioncrew.Yield.{
  Holding, has_duplicate, portfolio_input_issues, current_weighted_apy, market_of, sum_of,
  conflicts, duplicate_markets, available_withdrawal, asset_key, protocol_key,
}
use positioncrew.Yield.Accounts.{
  RespectsLimits, IsBalanced, candidate_plan-RespectsLimits, candidate_plan-IsBalanced,
}
use positioncrew.Yield.Choice.{IsProposed, yield_candidates-greatest}
use positioncrew.Yield.Eligible.{yield_candidates-total}
use positioncrew.Yield.Draws.{Distinct}
use positioncrew.Yield.Plan.{
  YieldPlan, candidate_plan, attempt, settle_round, conclude, yield_plan, yield_gain,
  with_allocation, annual_uplift, exceeds_costs, plan_withdrawals, repair_exposures,
  repair_protocol, planned_allocation, protocol_limit, migration_cost, principal_limit,
  final_holdings, available_by_protocol, fill_shortfall, repair_sources, repair_source,
}
use positioncrew.Yield.Portfolio.{IsConsistent, portfolio_input_issues-nil}
use positioncrew.Yield.Provider.{
  yield_candidates, plan_opportunity, is_eligible, is_funding_source, potential_sources, route_to,
  held_by_protocol, by_benefit, answer_selected, yield_result, empty_yield_result,
}
use positioncrew.Yield.Rate.{total_amount, weighted_amount, current_weighted_apy-bounds}
use positioncrew.Yield.Samples.{
  chosen_from, text_before, request, limits, positions, opportunities, lista, venus, pancake, route,
  plan,
}
use positioncrew.Yield.Sources.{
  best_plan, funding_source_sets, affordable_sources, cost_limit, greedy_sets, by_apy,
  by_funding_cost, by_exit_cost,
}

plan_made :
    (candidate_plan route 3 (lista ∷ venus ∷ []) ≡ some (some plan))
    × (has_duplicate (map (λ (h : Holding). h.opportunity_id) (lista ∷ venus ∷ [])) ≡ false)
    × (has_duplicate (map (λ (e : Text × ℕ). e.0) route.held_by_protocol) ≡ false)
    × (portfolio_input_issues (1_000 * fixed_scale) (lista ∷ venus ∷ []) (pancake ∷ []) ≡ [])
unfolding portfolio_input_issues has_duplicate conflicts duplicate_markets yield_candidates
    plan_opportunity is_eligible is_funding_source potential_sources route_to held_by_protocol
    best_plan funding_source_sets affordable_sources cost_limit greedy_sets by_apy by_funding_cost
    by_exit_cost by_benefit candidate_plan attempt settle_round conclude yield_plan yield_gain
    with_allocation annual_uplift exceeds_costs plan_withdrawals repair_exposures repair_protocol
    planned_allocation protocol_limit migration_cost principal_limit final_holdings
    available_by_protocol fill_shortfall repair_sources repair_source available_withdrawal asset_key
    protocol_key current_weighted_apy answer_selected yield_result empty_yield_result lookup
    insert_entry insert sort minimum format_fixed to_string digits span_digits strip_zeros
    to_big_int value_from is_address is_asset_identity is_base_request is_positive_decimal
    is_request_window is_source is_unsigned_decimal ◌+ℤ◌ ◌-ℤ◌
plan_made = (refl, refl, refl, refl)

candidate_plan-RespectsLimits_example : RespectsLimits route plan
candidate_plan-RespectsLimits_example =
    candidate_plan-RespectsLimits route 3 (lista ∷ venus ∷ []) plan plan_made.0

candidate_plan-IsBalanced_example : IsBalanced route plan
candidate_plan-IsBalanced_example =
    candidate_plan-IsBalanced route 3 (lista ∷ venus ∷ []) plan plan_made.1 plan_made.2 refl
      plan_made.0

yield_candidates-total_example :
    (found : List YieldPlan) × (yield_candidates text_before request 1_000_000 limits positions
        opportunities
      ≡ some found)
yield_candidates-total_example =
    yield_candidates-total text_before request 1_000_000 limits positions opportunities

-- The sets that the request leads to.
abbrev both : List Holding
both = lista ∷ venus ∷ []

sets_made :
    IsProposed text_before request 1_000_000 route.limits both pancake
      ([] ∷ [])
      (lista ∷ [])
      ((venus ∷ []) ∷ both ∷ both ∷ both ∷ [])
      plan
    × (yield_candidates text_before request 1_000_000 route.limits both (pancake ∷ [])
        ≡ some chosen_from)
unfolding portfolio_input_issues has_duplicate conflicts duplicate_markets yield_candidates
    plan_opportunity is_eligible is_funding_source potential_sources route_to held_by_protocol
    best_plan funding_source_sets affordable_sources cost_limit greedy_sets by_apy by_funding_cost
    by_exit_cost by_benefit candidate_plan attempt settle_round conclude yield_plan yield_gain
    with_allocation annual_uplift exceeds_costs plan_withdrawals repair_exposures repair_protocol
    planned_allocation protocol_limit migration_cost principal_limit final_holdings
    available_by_protocol fill_shortfall repair_sources repair_source available_withdrawal asset_key
    protocol_key current_weighted_apy answer_selected yield_result empty_yield_result lookup
    insert_entry insert sort minimum format_fixed to_string digits span_digits strip_zeros
    to_big_int value_from is_address is_asset_identity is_base_request is_positive_decimal
    is_request_window is_source is_unsigned_decimal ◌+ℤ◌ ◌-ℤ◌
sets_made = ((refl, refl, refl), refl)

yield_candidates-greatest_example :
    (chosen : YieldPlan) × (rest : List YieldPlan) × (sort (by_benefit text_before) chosen_from
      ≡ chosen ∷ rest)
    × (plan.net_benefit ≤ chosen.net_benefit)
yield_candidates-greatest_example =
    yield_candidates-greatest text_before request 1_000_000 route.limits both [] [] pancake
      ([] ∷ []) ((venus ∷ []) ∷ both ∷ both ∷ both ∷ []) (lista ∷ []) plan chosen_from sets_made.0
      sets_made.1

portfolio_input_issues-nil_example :
    (sum_of (λ (h : Holding). h.amount) (lista ∷ venus ∷ []) ≤ 1_000 * fixed_scale)
    × (has_duplicate (map (λ (h : Holding). h.opportunity_id) (lista ∷ venus ∷ [])) ≡ false)
    × (has_duplicate (map (λ (h : Holding). h.opportunity_id) (pancake ∷ [])) ≡ false)
    × Distinct (λ (h : Holding). market_of h) (lista ∷ venus ∷ [])
    × IsConsistent ((lista ∷ venus ∷ []) ++ pancake ∷ [])
portfolio_input_issues-nil_example =
    portfolio_input_issues-nil (1_000 * fixed_scale) (lista ∷ venus ∷ []) (pancake ∷ []) plan_made.3

current_weighted_apy-bounds_example :
    (current_weighted_apy (lista ∷ venus ∷ []) * total_amount (lista ∷ venus ∷ [])
      ≤ weighted_amount (lista ∷ venus ∷ []))
    × (weighted_amount (lista ∷ venus ∷ [])
        < (current_weighted_apy (lista ∷ venus ∷ []) + 1) * total_amount (lista ∷ venus ∷ []))
    × (300 ≤ current_weighted_apy (lista ∷ venus ∷ []))
    × (current_weighted_apy (lista ∷ venus ∷ []) ≤ 400)
current_weighted_apy-bounds_example =
    current_weighted_apy-bounds 300 400 (lista ∷ venus ∷ [])
      ((omega arith, omega arith), ((omega arith, omega arith), tt)) (omega arith)
