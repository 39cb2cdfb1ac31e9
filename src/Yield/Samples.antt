-- ===== src/Yield/Samples.antt =====
-- A portfolio of 1000 dollars, 700 of it invested, and an opportunity at a better rate.
use positioncrew.Prelude.{
  ℕ, ◌*◌, ◌/◌, Bool, true, false, none, List, [], ◌∷◌, codes, value_or, Text, ltb, ◌==◌, ◌&&◌, ◌||◌,
}
use positioncrew.Prelude.Throws.{each}
use positioncrew.Contracts.{ProviderStatus}
use positioncrew.Contracts.YieldOptimization.{
  low, medium, YieldPosition, YieldOptimizationRequest, YieldOptimizationDeliverable, nothing,
}
use positioncrew.Lending.Samples.{at_ms, usdc}
use positioncrew.Yield.{Holding, YieldLimits, read_limits, read_position}
use positioncrew.Core.Fixed.{fixed_scale}
use positioncrew.Yield.Plan.{YieldPlan, YieldRoute, candidate_plan}
use positioncrew.Yield.Provider.{yield_candidates, create_yield_optimization_deliverable}

-- An order of texts, by their code units.
abbrev pub text_before : Text → Text → Bool
text_before [] ys = true
text_before (x ∷ xs) [] = false
text_before (x ∷ xs) (y ∷ ys) = ltb x y || (x == y && text_before xs ys)

abbrev held_at : Text → Text → Text → Text → ℕ → YieldPosition
held_at id protocol market amount rate = record {
  opportunity_id = id;
  protocol = protocol;
  vault_or_market = market;
  asset = usdc;
  amount_usd = amount;
  gross_apy_bps = rate;
  liquidity_usd = amount;
  lockup_seconds = 0;
  estimated_entry_cost_usd = codes "0.5";
  estimated_exit_cost_usd = codes "0.5";
  risk_tier = low;
  observed_at = at_ms 900_000;
  source_id = codes "rates";
}

abbrev pub request : YieldOptimizationRequest
request = record {
  base = record {
    request_id = codes "request-1";
    chain_id = 56;
    account = codes "0x00000000000000000000000000000000000000aa";
    protocol = codes "portfolio";
    requested_at = at_ms 800_000;
    deadline = at_ms 2_000_000;
    max_data_age_seconds = 600;
    max_action_usd = codes "600";
    max_gas_usd = codes "5";
    max_slippage_bps = 10;
    sources =
        record {
          source_id = codes "rates";
          label = codes "Rates";
          uri = codes "https://rates.test";
          observed_at = at_ms 900_000;
        }
        ∷ [];
  };
  max_allocation_usd = none;
  max_execution_cost_usd = none;
  capital_usd = codes "1000";
  current_positions =
      held_at (codes "lista-usdc") (codes "Lista")
        (codes "0x00000000000000000000000000000000000000b1") (codes "500") 300
      ∷ held_at (codes "venus-usdc") (codes "Venus")
          (codes "0x00000000000000000000000000000000000000b2") (codes "200") 400
      ∷ [];
  opportunities =
      held_at (codes "pancake-usdc") (codes " Pancake")
        (codes "0x00000000000000000000000000000000000000b3") (codes "10000") 2_000
      ∷ [];
  constraints = record {
    protocol_allowlist = codes "pancake" ∷ [];
    maximum_risk_tier = medium;
    maximum_protocol_concentration_bps = 6_000;
    maximum_lockup_seconds = 0;
    minimum_liquidity_usd = codes "1000";
    minimum_net_benefit_usd = codes "1";
    evaluation_horizon_days = 365;
  };
}

abbrev no_limits : YieldLimits
no_limits = record {
  capital = 0;
  max_action = 0;
  max_gas = 0;
  max_allocation = 0;
  max_execution_cost = 0;
  minimum_liquidity = 0;
  minimum_net_benefit = 0;
}

abbrev pub limits : YieldLimits
limits = value_or no_limits (read_limits request)

abbrev pub positions : List Holding
positions = value_or [] (each read_position request.current_positions)

abbrev pub opportunities : List Holding
opportunities = value_or [] (each read_position request.opportunities)

abbrev pub plans : List YieldPlan
plans = value_or [] (yield_candidates text_before request 1_000_000 limits positions opportunities)

abbrev no_deliverable : YieldOptimizationDeliverable
no_deliverable = record {
  request_id = [];
  generated_at = 0;
  expires_at = 0;
  status = ProviderStatus.no_action;
  decision = nothing;
  selected_opportunity_id = none;
  allocation_usd = [];
  gross_apy_bps = none;
  current_weighted_apy_bps = 0;
  annual_yield_uplift_usd = [];
  net_benefit_usd = [];
  migration_cost_usd = [];
  break_even_days = none;
  withdrawals = none;
  idle_capital_used_usd = none;
  final_protocol_allocations = none;
  remaining_idle_capital_usd = none;
  post_migration_capital_usd = none;
}

abbrev pub delivered : YieldOptimizationDeliverable
delivered =
    value_or no_deliverable (create_yield_optimization_deliverable text_before request 1_000_000)

-- The positions and the opportunity as they are read.
abbrev read_at : YieldPosition → ℕ → Holding
read_at p dollars = record {
  position = p;
  amount = dollars * fixed_scale;
  liquidity = dollars * fixed_scale;
  entry_cost = fixed_scale / 2;
  exit_cost = fixed_scale / 2;
}

abbrev pub lista : Holding
lista =
    read_at
      (held_at (codes "lista-usdc") (codes "Lista")
        (codes "0x00000000000000000000000000000000000000b1") (codes "500") 300)
      500

abbrev pub venus : Holding
venus =
    read_at
      (held_at (codes "venus-usdc") (codes "Venus")
        (codes "0x00000000000000000000000000000000000000b2") (codes "200") 400)
      200

abbrev pub pancake : Holding
pancake =
    read_at
      (held_at (codes "pancake-usdc") (codes " Pancake")
        (codes "0x00000000000000000000000000000000000000b3") (codes "10000") 2_000)
      10_000

abbrev pub route : YieldRoute
route = record {
  limits = record {
    capital = 1_000 * fixed_scale;
    max_action = 600 * fixed_scale;
    max_gas = 5 * fixed_scale;
    max_allocation = 600 * fixed_scale;
    max_execution_cost = 600 * fixed_scale;
    minimum_liquidity = 1_000 * fixed_scale;
    minimum_net_benefit = fixed_scale;
  };
  concentration_bps = 6_000;
  horizon_days = 365;
  opportunity = pancake;
  held_by_protocol = (codes "lista", 500 * fixed_scale) ∷ (codes "venus", 200 * fixed_scale) ∷ [];
  idle_capital = 300 * fixed_scale;
  before = text_before;
}

abbrev no_plan : YieldPlan
no_plan = record {
  opportunity = pancake;
  allocation = 0;
  annual_yield_uplift = 0;
  migration_cost = 0;
  net_benefit = 0;
  break_even_days = 0;
  withdrawals = [];
  idle_capital_used = 0;
  remaining_idle_capital = 0;
  post_migration_capital = 0;
  final_protocol_allocations = [];
}

-- The plan over both positions, in which the second drops out.
abbrev pub plan : YieldPlan
plan = value_or no_plan (value_or none (candidate_plan route 3 (lista ∷ venus ∷ [])))

-- What the provider finds for these.
abbrev pub chosen_from : List YieldPlan
chosen_from = value_or [] (
    yield_candidates text_before request 1_000_000 route.limits (lista ∷ venus ∷ []) (pancake ∷ []))
