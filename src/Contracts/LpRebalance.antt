-- ===== src/Contracts/LpRebalance.antt =====
-- src/contracts/lp-rebalance.ts: the request of an LP rebalance. Ticks are integers.
use positioncrew.Prelude.Integers.{ℤ, lebℤ}
use positioncrew.Prelude.{ℕ, ◌+◌, Bool, not, ◌&&◌, Option, Text, leb, ◌==◌}
use positioncrew.Contracts.LendingRescue.{optional}
use positioncrew.Contracts.{
  Timestamp, AssetIdentity, BaseRequest, has_length, in_range, is_address, is_asset_identity,
  is_base_request, is_positive_decimal, is_unsigned_decimal,
}

pub record LpPosition : Type 0 where
  pub lower_tick : ℤ
  pub upper_tick : ℤ
  pub liquidity : Text
  pub position_value_usd : Text
  pub fees_earned_usd : Text
  pub token0_share_bps : ℕ
  pub token1_share_bps : ℕ

pub record LpMarketState : Type 0 where
  pub current_tick : ℤ
  pub token0_price_usd : Text
  pub token1_price_usd : Text
  pub volume_24h_usd : Text
  pub fees_24h_usd : Text
  pub pool_liquidity_usd : Text
  pub realized_volatility_bps : ℕ
  pub volume_measurement_window_seconds : Option ℕ
  pub volume_normalization_factor : Option Text
  pub swap_count : Option ℕ
  pub observed_at : Timestamp
  pub source_id : Text

pub record LpConstraints : Type 0 where
  pub minimum_width_ticks : ℕ
  pub maximum_width_ticks : ℕ
  pub tick_spacing : ℕ
  pub edge_buffer_bps : ℕ
  pub high_volatility_bps : ℕ
  pub maximum_token0_share_bps : ℕ
  pub maximum_token1_share_bps : ℕ
  pub minimum_net_benefit_usd : Text
  pub estimated_gas_usd : Text
  pub estimated_swap_cost_usd : Text
  pub evaluation_horizon_hours : ℕ

pub record LpRebalanceRequest : Type 0 where
  pub base : BaseRequest
  pub open base use *
  pub pool : Text
  pub token0 : AssetIdentity
  pub token1 : AssetIdentity
  pub position : LpPosition
  pub market_state : LpMarketState
  pub constraints : LpConstraints

unfoldable pub is_lp_position : LpPosition → Bool
unfolding is_positive_decimal is_unsigned_decimal lebℤ
is_lp_position p =
    is_positive_decimal p.liquidity
    && is_positive_decimal p.position_value_usd
    && is_unsigned_decimal p.fees_earned_usd
    && leb p.token0_share_bps 10_000
    && leb p.token1_share_bps 10_000
    && not (lebℤ p.upper_tick p.lower_tick)
    && p.token0_share_bps + p.token1_share_bps == 10_000

unfoldable pub is_lp_market : LpMarketState → Bool
unfolding is_positive_decimal is_unsigned_decimal
is_lp_market m =
    is_positive_decimal m.token0_price_usd
    && is_positive_decimal m.token1_price_usd
    && is_unsigned_decimal m.volume_24h_usd
    && is_unsigned_decimal m.fees_24h_usd
    && is_positive_decimal m.pool_liquidity_usd
    && leb m.realized_volatility_bps 100_000
    && optional (leb 1) m.volume_measurement_window_seconds
    && optional is_positive_decimal m.volume_normalization_factor
    && has_length 1 120 m.source_id

unfoldable pub is_lp_constraints : LpConstraints → Bool
unfolding is_unsigned_decimal
is_lp_constraints c =
    leb 1 c.minimum_width_ticks
    && leb 1 c.maximum_width_ticks
    && leb 1 c.tick_spacing
    && in_range 100 5_000 c.edge_buffer_bps
    && in_range 1 100_000 c.high_volatility_bps
    && leb c.maximum_token0_share_bps 10_000
    && leb c.maximum_token1_share_bps 10_000
    && is_unsigned_decimal c.minimum_net_benefit_usd
    && is_unsigned_decimal c.estimated_gas_usd
    && is_unsigned_decimal c.estimated_swap_cost_usd
    && in_range 1 720 c.evaluation_horizon_hours
    && leb c.minimum_width_ticks c.maximum_width_ticks

-- `LpRebalanceRequestSchema`
unfoldable pub is_lp_request : LpRebalanceRequest → Bool
unfolding is_base_request is_address is_asset_identity is_lp_position is_lp_market is_lp_constraints
is_lp_request r =
    is_base_request r.base
    && is_address r.pool
    && is_asset_identity r.token0
    && is_asset_identity r.token1
    && is_lp_position r.position
    && is_lp_market r.market_state
    && is_lp_constraints r.constraints
