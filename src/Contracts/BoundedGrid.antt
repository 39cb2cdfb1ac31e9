-- ===== src/Contracts/BoundedGrid.antt =====
-- src/contracts/bounded-grid.ts: the request of a bounded grid and the orders that it is answered
-- with. The free texts of a deliverable are left out. `number_lt` compares two decimals as the
-- numbers that `Number` reads them as.
use positioncrew.Prelude.{ℕ, Bool, ◌&&◌, List, Text, leb, all}
use positioncrew.Contracts.{
  Timestamp, AssetIdentity, BaseRequest, ProviderStatus, has_length, in_range, is_address,
  is_asset_identity, is_base_request, is_positive_decimal, is_unsigned_decimal,
}

pub record GridMarketState : Type 0 where
  pub mid_price : Text
  pub liquidity_usd : Text
  pub realized_volatility_bps : ℕ
  pub venue_fee_bps : ℕ
  pub observed_at : Timestamp
  pub source_id : Text

pub record GridConstraints : Type 0 where
  pub capital_usd : Text
  pub lower_price : Text
  pub upper_price : Text
  pub level_count : ℕ
  pub maximum_inventory_usd : Text
  pub maximum_loss_usd : Text
  pub minimum_expected_net_profit_usd : Text
  pub minimum_liquidity_usd : Text
  pub maximum_volatility_bps : ℕ
  pub expected_completed_cycles : ℕ
  pub estimated_gas_usd : Text
  pub order_expiry_seconds : ℕ

pub record BoundedGridRequest : Type 0 where
  pub base : BaseRequest
  pub open base use *
  pub venue : Text
  pub base_asset : AssetIdentity
  pub quote_asset : AssetIdentity
  pub market_state : GridMarketState
  pub constraints : GridConstraints

unfoldable pub is_grid_market : GridMarketState → Bool
unfolding is_positive_decimal is_unsigned_decimal
is_grid_market m =
    is_positive_decimal m.mid_price
    && is_unsigned_decimal m.liquidity_usd
    && leb m.realized_volatility_bps 100_000
    && leb m.venue_fee_bps 1_000
    && has_length 1 120 m.source_id

unfoldable pub is_grid_constraints : (Text → Text → Bool) → GridConstraints → Bool
unfolding is_positive_decimal is_unsigned_decimal
is_grid_constraints number_lt c =
    is_positive_decimal c.capital_usd
    && is_positive_decimal c.lower_price
    && is_positive_decimal c.upper_price
    && in_range 2 100 c.level_count
    && is_positive_decimal c.maximum_inventory_usd
    && is_positive_decimal c.maximum_loss_usd
    && is_unsigned_decimal c.minimum_expected_net_profit_usd
    && is_positive_decimal c.minimum_liquidity_usd
    && in_range 1 100_000 c.maximum_volatility_bps
    && in_range 1 1_000 c.expected_completed_cycles
    && is_unsigned_decimal c.estimated_gas_usd
    && in_range 60 604_800 c.order_expiry_seconds
    && number_lt c.lower_price c.upper_price

-- `BoundedGridRequestSchema`
unfoldable pub is_grid_request : (Text → Text → Bool) → BoundedGridRequest → Bool
unfolding is_base_request is_address is_asset_identity is_grid_market is_grid_constraints
is_grid_request number_lt r =
    is_base_request r.base
    && is_address r.venue
    && is_asset_identity r.base_asset
    && is_asset_identity r.quote_asset
    && is_grid_market r.market_state
    && is_grid_constraints number_lt r.constraints

pub data Side : Type 0 where
  buy sell : Side

pub record GridOrder : Type 0 where
  pub side : Side
  pub price : Text
  pub base_amount : Text
  pub maximum_quote_amount : Text

-- `GridOrderSchema`
unfoldable pub is_grid_order : GridOrder → Bool
unfolding is_positive_decimal
is_grid_order o =
    is_positive_decimal o.price
    && is_positive_decimal o.base_amount
    && is_positive_decimal o.maximum_quote_amount

pub data GridDecision : Type 0 where
  build_grid no_grid nothing : GridDecision

-- `BoundedGridDeliverable`, its times in milliseconds.
pub record BoundedGridDeliverable : Type 0 where
  pub request_id : Text
  pub generated_at : ℕ
  pub expires_at : ℕ
  pub status : ProviderStatus
  pub decision : GridDecision
  pub orders : List GridOrder
  pub gross_spread_capture_usd : Text
  pub estimated_fees_usd : Text
  pub estimated_slippage_usd : Text
  pub estimated_gas_usd : Text
  pub expected_net_profit_usd : Text
  pub worst_case_loss_usd : Text
  pub maximum_inventory_usd : Text

-- `BoundedGridDeliverableSchema`, of the fields above.
unfoldable pub is_grid_deliverable : BoundedGridDeliverable → Bool
unfolding is_grid_order is_unsigned_decimal
is_grid_deliverable d =
    has_length 8 120 d.request_id
    && all is_grid_order d.orders
    && is_unsigned_decimal d.gross_spread_capture_usd
    && is_unsigned_decimal d.estimated_fees_usd
    && is_unsigned_decimal d.estimated_slippage_usd
    && is_unsigned_decimal d.estimated_gas_usd
    && is_unsigned_decimal d.expected_net_profit_usd
    && is_unsigned_decimal d.worst_case_loss_usd
    && is_unsigned_decimal d.maximum_inventory_usd
