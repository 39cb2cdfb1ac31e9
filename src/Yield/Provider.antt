-- ===== src/Yield/Provider.antt =====
-- src/providers/yield-optimization.ts: the answer to a yield request. `none` is a thrown error. The texts
-- of the answer are left out.
use positioncrew.Prelude.{
  ℕ, ◌+◌, ◌-◌, Bool, true, false, not, ◌&&◌, Option, none, some, List, [], ◌∷◌, ◌++◌, map, ltb, leb,
  ◌==◌, any, filter, Text, codes, text_eq, if◌then◌else◌,
}
use positioncrew.Prelude.Throws.{◌>>=◌, ◌>>◌, guard, each}
use positioncrew.Prelude.Dict.{Dict, insert}
use positioncrew.Prelude.Sort.{sort}
use positioncrew.Core.Fixed.{format_fixed}
use positioncrew.Contracts.{ProviderStatus}
use positioncrew.Contracts.YieldOptimization.{
  RiskTier, low, medium, high, YieldPosition, YieldOptimizationRequest, YieldDecision, hold, supply,
  migrate, nothing, WithdrawalText, AllocationText, YieldOptimizationDeliverable, is_yield_request,
  is_yield_deliverable,
}
use positioncrew.Evidence.{EvidenceStatus, EvidenceState, TimestampedObservation, validate_evidence}
use positioncrew.Lending.Provider.{is_empty}
use positioncrew.Yield.{
  Holding, YieldLimits, read_position, read_limits, protocol_key, protocol_of, market_of, asset_key,
  available_withdrawal, sum_of, current_weighted_apy, portfolio_input_issues,
}
use positioncrew.Yield.Plan.{YieldPlan, YieldRoute, amount_at}
use positioncrew.Yield.Sources.{by_apy, funding_source_sets, best_plan}

-- `RISK_RANK`
abbrev pub risk_rank : RiskTier → ℕ
risk_rank low = 0
risk_rank medium = 1
risk_rank high = 2

unfoldable pub held_by_protocol : List Holding → Dict ℕ → Dict ℕ
held_by_protocol [] d = d
held_by_protocol (h ∷ hs) d =
    held_by_protocol hs (insert (protocol_of h) (amount_at (protocol_of h) d + h.amount) d)

-- The order of the candidates: the larger net benefit first, then by identifier.
unfoldable pub by_benefit : (Text → Text → Bool) → YieldPlan → YieldPlan → Bool
by_benefit before left right =
    if left.net_benefit == right.net_benefit
    then before left.opportunity.opportunity_id right.opportunity.opportunity_id
    else ltb right.net_benefit left.net_benefit

abbrev pub observation_of : YieldPosition → TimestampedObservation
observation_of p = record { source_id = p.source_id; observed_at = p.observed_at }

module _ (before : Text → Text → Bool) (request : YieldOptimizationRequest) (now : ℕ) where
  abbrev pub yield_evidence : EvidenceState
  yield_evidence =
      validate_evidence request.sources now
        (map observation_of (request.current_positions ++ request.opportunities))
        request.deadline.ms request.max_data_age_seconds

  -- The guards of an opportunity.
  unfoldable pub is_eligible : YieldLimits → Holding → Bool
  is_eligible limits opportunity =
      any (λ (p : Text). text_eq (protocol_of opportunity) (protocol_key p))
        request.constraints.protocol_allowlist
      && leb opportunity.lockup_seconds request.constraints.maximum_lockup_seconds
      && leb limits.minimum_liquidity opportunity.liquidity
      && leb (risk_rank opportunity.risk_tier) (risk_rank request.constraints.maximum_risk_tier)

  -- The positions an opportunity can be funded from, the lowest rate first.
  unfoldable pub is_funding_source : Holding → Holding → Bool
  is_funding_source opportunity position =
      ltb 0 (available_withdrawal position)
      && position.lockup_seconds == 0
      && text_eq (asset_key position) (asset_key opportunity)
      && not (text_eq (market_of position) (market_of opportunity))

  unfoldable pub potential_sources : List Holding → Holding → List Holding
  potential_sources positions opportunity =
      sort (by_apy before) (filter (is_funding_source opportunity) positions)

  -- What `candidatePlan` is called with. Positions above the capital were refused before.
  unfoldable pub route_to : YieldLimits → List Holding → Holding → YieldRoute
  route_to limits positions opportunity = record {
    limits = limits;
    concentration_bps = request.constraints.maximum_protocol_concentration_bps;
    horizon_days = request.constraints.evaluation_horizon_days;
    opportunity = opportunity;
    held_by_protocol = held_by_protocol positions [];
    idle_capital = limits.capital - sum_of (λ (h : Holding). h.amount) positions;
    before = before;
  }

  unfoldable pub plan_opportunity : YieldLimits → List Holding → Holding → Option (Option YieldPlan)
  plan_opportunity limits positions opportunity = elim (is_eligible limits opportunity) [
    | false ↦ some none
    | true ↦
        let route = route_to limits positions opportunity in
        best_plan route (funding_source_sets route (potential_sources positions opportunity)) none
  ]

  -- `flatMap` over the opportunities.
  unfoldable pub yield_candidates :
      YieldLimits → List Holding → List Holding → Option (List YieldPlan)
  yield_candidates limits positions [] = some []
  yield_candidates limits positions (opportunity ∷ opportunities) = do
    best ← plan_opportunity limits positions opportunity
    rest ← yield_candidates limits positions opportunities
    some (elim best [ none ↦ rest | some plan ↦ plan ∷ rest ])

  -- The deliverable, if its schema admits it.
  abbrev pub admitted_yield : YieldOptimizationDeliverable → Option YieldOptimizationDeliverable
  admitted_yield d = guard (is_yield_deliverable d) >> some d

  unfoldable pub empty_yield_result :
      ProviderStatus → YieldDecision → ℕ → Option YieldOptimizationDeliverable
  empty_yield_result status decision apy = admitted_yield (record {
    request_id = request.request_id;
    generated_at = now;
    expires_at = yield_evidence.expires_at;
    status = status;
    decision = decision;
    selected_opportunity_id = none;
    allocation_usd = codes "0";
    gross_apy_bps = none;
    current_weighted_apy_bps = apy;
    annual_yield_uplift_usd = codes "0";
    net_benefit_usd = codes "0";
    migration_cost_usd = codes "0";
    break_even_days = none;
    withdrawals = none;
    idle_capital_used_usd = none;
    final_protocol_allocations = none;
    remaining_idle_capital_usd = none;
    post_migration_capital_usd = none;
  })

  abbrev pub withdrawal_text : Text × ℕ → WithdrawalText
  withdrawal_text w = record { opportunity_id = w.0; amount_usd = format_fixed w.1 18 }

  abbrev pub allocation_text : Text × ℕ → AllocationText
  allocation_text a = record { protocol = a.0; amount_usd = format_fixed a.1 18 }

  unfoldable pub yield_result : ℕ → YieldPlan → Option YieldOptimizationDeliverable
  yield_result apy plan = admitted_yield (record {
    request_id = request.request_id;
    generated_at = now;
    expires_at = yield_evidence.expires_at;
    status = ProviderStatus.actionable;
    decision = if is_empty plan.withdrawals then supply else migrate;
    selected_opportunity_id = some plan.opportunity.opportunity_id;
    allocation_usd = format_fixed plan.allocation 18;
    gross_apy_bps = some plan.opportunity.gross_apy_bps;
    current_weighted_apy_bps = apy;
    annual_yield_uplift_usd = format_fixed plan.annual_yield_uplift 18;
    net_benefit_usd = format_fixed plan.net_benefit 18;
    migration_cost_usd = format_fixed plan.migration_cost 18;
    break_even_days = some (format_fixed plan.break_even_days 18);
    withdrawals = some (map withdrawal_text plan.withdrawals);
    idle_capital_used_usd = some (format_fixed plan.idle_capital_used 18);
    final_protocol_allocations = some (map allocation_text plan.final_protocol_allocations);
    remaining_idle_capital_usd = some (format_fixed plan.remaining_idle_capital 18);
    post_migration_capital_usd = some (format_fixed plan.post_migration_capital 18);
  })

  -- The first of the candidates decides.
  unfoldable pub answer_selected : ℕ → List YieldPlan → Option YieldOptimizationDeliverable
  answer_selected apy [] = empty_yield_result ProviderStatus.no_action hold apy
  answer_selected apy (plan ∷ plans) = yield_result apy plan

  -- From the checks of the portfolio on, the evidence being fit.
  unfoldable pub answer_portfolio :
      YieldLimits → List Holding → List Holding → Option YieldOptimizationDeliverable
  answer_portfolio limits positions opportunities =
      if not (is_empty (portfolio_input_issues limits.capital positions opportunities))
      then empty_yield_result ProviderStatus.refused_inconsistent_data nothing
          (current_weighted_apy positions)
      else do
        candidates ← yield_candidates limits positions opportunities
        answer_selected (current_weighted_apy positions) (sort (by_benefit before) candidates)

  -- From the check of the evidence on.
  unfoldable pub answer_evidence :
      YieldLimits → List Holding → List Holding → Option YieldOptimizationDeliverable
  answer_evidence limits positions opportunities =
      let apy = current_weighted_apy positions in
      elim yield_evidence.status [
        | EvidenceStatus.fit ↦ answer_portfolio limits positions opportunities
        | EvidenceStatus.refused_expired ↦
            empty_yield_result ProviderStatus.refused_expired nothing apy
        | EvidenceStatus.refused_stale_data ↦
            empty_yield_result ProviderStatus.refused_stale_data nothing apy
        | EvidenceStatus.refused_inconsistent_data ↦
            empty_yield_result ProviderStatus.refused_inconsistent_data nothing apy
      ]

  unfoldable pub create_yield_optimization_deliverable : Option YieldOptimizationDeliverable
  create_yield_optimization_deliverable = do
    guard (is_yield_request request)
    limits ← read_limits request
    positions ← each read_position request.current_positions
    opportunities ← each read_position request.opportunities
    answer_evidence limits positions opportunities
