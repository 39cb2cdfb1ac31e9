-- ===== src/Lending/Samples.antt =====
-- A position that is rescued.
use positioncrew.Prelude.{ℕ, true, none, some, [], ◌∷◌, codes, value_or}
use positioncrew.Contracts.{Timestamp, AssetIdentity, PricedBalance, ProviderStatus}
use positioncrew.Contracts.LendingRescue.{
  repay_debt, add_collateral, LendingCollateral, LendingRescueRequest, LendingRescueDeliverable,
  nothing,
}
use positioncrew.Lending.{LendingPositionMetrics, ActionHash, calculate_lending_position}
use positioncrew.Lending.Provider.{create_lending_rescue_deliverable}

abbrev pub at_ms : ℕ → Timestamp
at_ms n = record { text = codes "2026-09-03T16:00:00.000Z"; ms = n }

abbrev pub usdc : AssetIdentity
usdc = record {
  symbol = codes "USDC";
  address = codes "0x0000000000000000000000000000000000001001";
  decimals = 6;
}

abbrev pub wbnb : AssetIdentity
wbnb = record {
  symbol = codes "WBNB";
  address = codes "0x000000000000000000000000000000000000b001";
  decimals = 18;
}

abbrev pub usdc_debt : PricedBalance
usdc_debt = record {
  asset = usdc;
  amount = codes "2500";
  price_usd = codes "1";
  source_id = codes "oracle";
  observed_at = at_ms 900_000;
}

abbrev pub wbnb_collateral : LendingCollateral
wbnb_collateral = record {
  balance = record {
    asset = wbnb;
    amount = codes "10";
    price_usd = codes "300";
    source_id = codes "oracle";
    observed_at = at_ms 900_000;
  };
  liquidation_threshold_bps = 8_000;
  collateral_enabled = true;
}

-- Ten WBNB at 300 dollars against a debt of 2500 dollars, to be brought to a factor of 1.1.
abbrev pub request : LendingRescueRequest
request = record {
  base = record {
    request_id = codes "request-1";
    chain_id = 56;
    account = codes "0x00000000000000000000000000000000000000aa";
    protocol = codes "venus";
    requested_at = at_ms 800_000;
    deadline = at_ms 2_000_000;
    max_data_age_seconds = 600;
    max_action_usd = codes "1000";
    max_gas_usd = codes "5";
    max_slippage_bps = 50;
    sources =
        record {
          source_id = codes "oracle";
          label = codes "Oracle";
          uri = codes "https://oracle.test";
          observed_at = at_ms 900_000;
        }
        ∷ [];
  };
  market = codes "0x00000000000000000000000000000000000000bb";
  collateral = wbnb_collateral ∷ [];
  debt = usdc_debt ∷ [];
  available_assets =
      record { asset = usdc; available_amount = codes "700" }
      ∷ record { asset = wbnb; available_amount = codes "4" }
      ∷ [];
  allowed_actions = repay_debt ∷ add_collateral ∷ [];
  target_health_factor = codes "1.1";
  stress_price_drop_bps = 2_000;
  oracle_deviation_tolerance_bps = 100;
  estimated_gas_usd = codes "0.5";
}

abbrev pub hash : ActionHash
hash = λ id kind asset units.
    codes "sha256:0123456789abcdef0123456789abcdef0123456789abcdef0123456789abcdef"

abbrev pub no_deliverable : LendingRescueDeliverable
no_deliverable = record {
  request_id = [];
  generated_at = 0;
  expires_at = 0;
  status = ProviderStatus.no_action;
  decision = nothing;
  position = record {
    collateral_value_usd = [];
    liquidation_weighted_collateral_usd = [];
    debt_value_usd = [];
    current_health_factor = none;
    stressed_health_factor = none;
    target_health_factor = [];
  };
  recommendation = none;
  alternatives = [];
  sources = [];
}

abbrev pub delivered : LendingRescueDeliverable
delivered = value_or no_deliverable (create_lending_rescue_deliverable hash request 1_000_000)

abbrev pub no_metrics : LendingPositionMetrics
no_metrics = record {
  collateral_value_usd = 0;
  liquidation_weighted_collateral_usd = 0;
  debt_value_usd = 0;
  health_factor = none;
}

-- The metrics at a multiplier of the collateral's price.
abbrev pub metrics_at : ℕ → LendingPositionMetrics
metrics_at m = value_or no_metrics (calculate_lending_position request m)

-- The metrics of the request at the present price, its target and its action limit.
abbrev pub current : LendingPositionMetrics
current = record {
  collateral_value_usd = 3_000_000_000_000_000_000_000;
  liquidation_weighted_collateral_usd = 2_400_000_000_000_000_000_000;
  debt_value_usd = 2_500_000_000_000_000_000_000;
  health_factor = some 960_000_000_000_000_000;
}

abbrev pub target : ℕ
target = 1_100_000_000_000_000_000

abbrev pub limit : ℕ
limit = 1_000_000_000_000_000_000_000
