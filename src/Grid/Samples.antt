-- ===== src/Grid/Samples.antt =====
-- A grid around a mid price of 600 dollars.
use positioncrew.Prelude.{Bool, [], ◌∷◌, codes, value_or, Text, ltb}
use positioncrew.Core.Fixed.{parse_fixed}
use positioncrew.Contracts.{ProviderStatus}
use positioncrew.Contracts.BoundedGrid.{BoundedGridRequest, BoundedGridDeliverable, nothing}
use positioncrew.Lending.Samples.{at_ms, usdc, wbnb}
use positioncrew.Grid.Provider.{create_bounded_grid_deliverable}

-- On decimals that are read exactly, `Number` compares as the values do.
abbrev pub number_lt : Text → Text → Bool
number_lt a b = ltb (value_or 0 (parse_fixed a)) (value_or 0 (parse_fixed b))

-- Three levels from 500 to 700 dollars for a capital of 1000, and an inventory limit of 800.
abbrev pub request : BoundedGridRequest
request = record {
  base = record {
    request_id = codes "request-1";
    chain_id = 56;
    account = codes "0x00000000000000000000000000000000000000aa";
    protocol = codes "pancake";
    requested_at = at_ms 800_000;
    deadline = at_ms 2_000_000;
    max_data_age_seconds = 600;
    max_action_usd = codes "1000";
    max_gas_usd = codes "5";
    max_slippage_bps = 10;
    sources =
        record {
          source_id = codes "pool";
          label = codes "Pool";
          uri = codes "https://pool.test";
          observed_at = at_ms 900_000;
        }
        ∷ [];
  };
  venue = codes "0x00000000000000000000000000000000000000bb";
  base_asset = wbnb;
  quote_asset = usdc;
  market_state = record {
    mid_price = codes "600";
    liquidity_usd = codes "100000";
    realized_volatility_bps = 500;
    venue_fee_bps = 5;
    observed_at = at_ms 900_000;
    source_id = codes "pool";
  };
  constraints = record {
    capital_usd = codes "1000";
    lower_price = codes "500";
    upper_price = codes "700";
    level_count = 3;
    maximum_inventory_usd = codes "1100";
    maximum_loss_usd = codes "995";
    minimum_expected_net_profit_usd = codes "1";
    minimum_liquidity_usd = codes "1000";
    maximum_volatility_bps = 1_000;
    expected_completed_cycles = 2;
    estimated_gas_usd = codes "0.5";
    order_expiry_seconds = 3_600;
  };
}

abbrev pub no_deliverable : BoundedGridDeliverable
no_deliverable = record {
  request_id = [];
  generated_at = 0;
  expires_at = 0;
  status = ProviderStatus.no_action;
  decision = nothing;
  orders = [];
  gross_spread_capture_usd = [];
  estimated_fees_usd = [];
  estimated_slippage_usd = [];
  estimated_gas_usd = [];
  expected_net_profit_usd = [];
  worst_case_loss_usd = [];
  maximum_inventory_usd = [];
}

abbrev pub delivered : BoundedGridDeliverable
delivered = value_or no_deliverable (create_bounded_grid_deliverable number_lt request 1_000_000)
