-- ===== src/Contracts/YieldOptimization.antt =====
-- src/contracts/yield-optimization.ts: the request of a yield optimization and its deliverable. The
-- free texts of a deliverable are left out.
use positioncrew.Prelude.{ℕ, Bool, ◌&&◌, Option, List, Text, leb, length, all}
use positioncrew.Contracts.LendingRescue.{optional}
use positioncrew.Contracts.{
  Timestamp, AssetIdentity, BaseRequest, ProviderStatus, has_length, in_range, is_address,
  is_asset_identity, is_base_request, is_positive_decimal, is_unsigned_decimal,
}

pub data RiskTier : Type 0 where
  low medium high : RiskTier

pub record YieldPosition : Type 0 where
  pub opportunity_id : Text
  pub protocol : Text
  pub vault_or_market : Text
  pub asset : AssetIdentity
  pub amount_usd : Text
  pub gross_apy_bps : ℕ
  pub liquidity_usd : Text
  pub lockup_seconds : ℕ
  pub estimated_entry_cost_usd : Text
  pub estimated_exit_cost_usd : Text
  pub risk_tier : RiskTier
  pub observed_at : Timestamp
  pub source_id : Text

pub record YieldConstraints : Type 0 where
  pub protocol_allowlist : List Text
  pub maximum_risk_tier : RiskTier
  pub maximum_protocol_concentration_bps : ℕ
  pub maximum_lockup_seconds : ℕ
  pub minimum_liquidity_usd : Text
  pub minimum_net_benefit_usd : Text
  pub evaluation_horizon_days : ℕ

pub record YieldOptimizationRequest : Type 0 where
  pub base : BaseRequest
  pub open base use *
  pub max_allocation_usd : Option Text
  pub max_execution_cost_usd : Option Text
  pub capital_usd : Text
  pub current_positions : List YieldPosition
  pub opportunities : List YieldPosition
  pub constraints : YieldConstraints

-- `YieldPositionSchema`
unfoldable pub is_yield_position : YieldPosition → Bool
unfolding is_address is_asset_identity is_unsigned_decimal
is_yield_position p =
    has_length 1 160 p.opportunity_id
    && has_length 1 80 p.protocol
    && is_address p.vault_or_market
    && is_asset_identity p.asset
    && is_unsigned_decimal p.amount_usd
    && leb p.gross_apy_bps 1_000_000
    && is_unsigned_decimal p.liquidity_usd
    && is_unsigned_decimal p.estimated_entry_cost_usd
    && is_unsigned_decimal p.estimated_exit_cost_usd
    && has_length 1 120 p.source_id

unfoldable pub is_yield_constraints : YieldConstraints → Bool
unfolding is_unsigned_decimal
is_yield_constraints c =
    all (has_length 1 80) c.protocol_allowlist
    && leb 1 (length c.protocol_allowlist)
    && in_range 1 10_000 c.maximum_protocol_concentration_bps
    && is_unsigned_decimal c.minimum_liquidity_usd
    && is_unsigned_decimal c.minimum_net_benefit_usd
    && in_range 1 365 c.evaluation_horizon_days

-- `YieldOptimizationRequestSchema`
unfoldable pub is_yield_request : YieldOptimizationRequest → Bool
unfolding is_base_request is_unsigned_decimal is_positive_decimal is_yield_position
    is_yield_constraints
is_yield_request r =
    is_base_request r.base
    && optional is_unsigned_decimal r.max_allocation_usd
    && optional is_unsigned_decimal r.max_execution_cost_usd
    && is_positive_decimal r.capital_usd
    && all is_yield_position r.current_positions
    && all is_yield_position r.opportunities
    && leb 1 (length r.opportunities)
    && is_yield_constraints r.constraints

pub data YieldDecision : Type 0 where
  hold supply withdraw migrate nothing : YieldDecision

pub record WithdrawalText : Type 0 where
  pub opportunity_id : Text
  pub amount_usd : Text

pub record AllocationText : Type 0 where
  pub protocol : Text
  pub amount_usd : Text

-- `YieldOptimizationDeliverable`, its times in milliseconds.
pub record YieldOptimizationDeliverable : Type 0 where
  pub request_id : Text
  pub generated_at : ℕ
  pub expires_at : ℕ
  pub status : ProviderStatus
  pub decision : YieldDecision
  pub selected_opportunity_id : Option Text
  pub allocation_usd : Text
  pub gross_apy_bps : Option ℕ
  pub current_weighted_apy_bps : ℕ
  pub annual_yield_uplift_usd : Text
  pub net_benefit_usd : Text
  pub migration_cost_usd : Text
  pub break_even_days : Option Text
  pub withdrawals : Option (List WithdrawalText)
  pub idle_capital_used_usd : Option Text
  pub final_protocol_allocations : Option (List AllocationText)
  pub remaining_idle_capital_usd : Option Text
  pub post_migration_capital_usd : Option Text

abbrev pub is_withdrawal : WithdrawalText → Bool
is_withdrawal w = has_length 1 160 w.opportunity_id && is_positive_decimal w.amount_usd

abbrev pub is_allocation : AllocationText → Bool
is_allocation a = has_length 1 80 a.protocol && is_unsigned_decimal a.amount_usd

-- `YieldOptimizationDeliverableSchema`, of the fields above.
unfoldable pub is_yield_deliverable : YieldOptimizationDeliverable → Bool
unfolding is_unsigned_decimal is_positive_decimal
is_yield_deliverable d =
    has_length 8 120 d.request_id
    && optional (has_length 1 160) d.selected_opportunity_id
    && is_unsigned_decimal d.allocation_usd
    && is_unsigned_decimal d.annual_yield_uplift_usd
    && is_unsigned_decimal d.net_benefit_usd
    && is_unsigned_decimal d.migration_cost_usd
    && optional is_unsigned_decimal d.break_even_days
    && optional (all is_withdrawal) d.withdrawals
    && optional is_unsigned_decimal d.idle_capital_used_usd
    && optional (all is_allocation) d.final_protocol_allocations
    && optional is_unsigned_decimal d.remaining_idle_capital_usd
    && optional is_unsigned_decimal d.post_migration_capital_usd
