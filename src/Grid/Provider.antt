-- ===== src/Grid/Provider.antt =====
-- src/providers/bounded-grid.ts: the answer to a grid request. `none` is a thrown error. The texts
-- of the answer are left out. The limits are read before the guards that use them: the schema of the
-- request admits no text on which that throws.
use positioncrew.Prelude.{
  ℕ, zero, suc, ◌+◌, ◌-◌, ◌*◌, ◌/◌, ◌^◌, Bool, true, false, ◌&&◌, length, ◌||◌, Option, none, some,
  List, [], ◌∷◌, ◌++◌, ltb, leb, if◌then◌else◌, Text, codes, filter,
}
use positioncrew.Prelude.Throws.{◌>>=◌, ◌>>◌, guard, each, big_div}
use positioncrew.Core.Fixed.{fixed_scale, parse_fixed, format_fixed, divide_fixed, minimum}
use positioncrew.Contracts.{ProviderStatus}
use positioncrew.Contracts.BoundedGrid.{
  BoundedGridRequest, GridOrder, Side, buy, sell, GridDecision, build_grid, no_grid, nothing,
  BoundedGridDeliverable, is_grid_request, is_grid_deliverable,
}
use positioncrew.Evidence.{EvidenceStatus, EvidenceState, validate_evidence}
use positioncrew.Lending.Provider.{is_empty}
use positioncrew.Grid.Risk.{calculate_bounded_grid_risk}
use positioncrew.Grid.Cycle.{calculate_grid_cycle_economics}

-- The numbers that `planForBudget` closes over.
pub record GridSetup : Type 0 where
  pub mid : ℕ
  pub upper : ℕ
  pub capital : ℕ
  pub step : ℕ
  pub buy_levels : List ℕ
  pub sell_levels : List ℕ
  pub gas : ℕ
  pub inventory_limit : ℕ
  pub loss_limit : ℕ
  pub base_decimals : ℕ
  pub quote_unit : ℕ

pub record GridPlan : Type 0 where
  pub orders : List GridOrder
  pub deployed_notional : ℕ
  pub maximum_inventory : ℕ
  pub gross_spread_capture : ℕ
  pub fees : ℕ
  pub slippage : ℕ
  pub net_profit : ℕ
  pub worst_case_loss : ℕ

-- `Array.from` of the indices from `index` on.
unfoldable pub levels_from : (ℕ → ℕ) → ℕ → ℕ → List ℕ
levels_from level zero index = []
levels_from level (suc n) index = level index ∷ levels_from level n (index + 1)

unfoldable pub order_at : Side → ℕ → ℕ → ℕ → Option GridOrder
order_at side quote decimals price = do
  amount ← divide_fixed quote price
  some (record {
    side = side;
    price = format_fixed price 18;
    base_amount = format_fixed amount decimals;
    maximum_quote_amount = format_fixed quote 18;
  })

-- `(capital / BigInt(levels.length) / quoteUnit) * quoteUnit`
unfoldable pub quote_per_level : ℕ → ℕ → ℕ → Option ℕ
quote_per_level capital count unit = do
  share ← big_div capital count
  units ← big_div share unit
  some (units * unit)

module _ (request : BoundedGridRequest) (setup : GridSetup) where
  unfoldable pub orders_for_budget : ℕ → Option (List GridOrder)
  orders_for_budget budget = do
    let buy_capital = budget / 2
    let sell_capital = budget - buy_capital
    buy_quote ← quote_per_level buy_capital (length setup.buy_levels) setup.quote_unit
    sell_quote ← quote_per_level sell_capital (length setup.sell_levels) setup.quote_unit
    buys ← each (order_at buy buy_quote setup.base_decimals) setup.buy_levels
    sells ← each (order_at sell sell_quote setup.base_decimals) setup.sell_levels
    some (buys ++ sells)

  unfoldable pub plan_for_budget : ℕ → Option GridPlan
  plan_for_budget budget = do
    orders ← orders_for_budget budget
    risk ← calculate_bounded_grid_risk orders setup.mid setup.upper
    cycle ←
        calculate_grid_cycle_economics orders request.quote_asset.decimals
          request.market_state.venue_fee_bps request.max_slippage_bps
    let cycles = request.constraints.expected_completed_cycles
    nominal ← big_div (cycle.charge_notional * cycles * setup.step) (2 * setup.mid)
    let captured = minimum nominal (cycle.gross * cycles)
    let fees = cycle.fee_buffer * cycles
    let slippage = cycle.slippage_buffer * cycles
    some (record {
      orders = orders;
      deployed_notional = risk.deployed_notional;
      maximum_inventory = risk.maximum_inventory;
      gross_spread_capture = captured;
      fees = fees;
      slippage = slippage;
      net_profit = captured - (fees + slippage + setup.gas);
      worst_case_loss = risk.principal_at_risk + fees + slippage + setup.gas;
    })

  unfoldable pub respects_risk_limits : GridPlan → Bool
  respects_risk_limits plan =
      leb plan.maximum_inventory setup.inventory_limit
      && leb plan.worst_case_loss setup.loss_limit
      && leb plan.worst_case_loss setup.capital

  -- The `while` loop, on fuel.
  unfoldable pub search_budget : ℕ → ℕ → ℕ → Option ℕ
  search_budget zero lower upper = none
  search_budget (suc fuel) lower upper = elim (ltb lower upper) [
    | false ↦ some lower
    | true ↦
        let budget = (lower + upper + 1) / 2 in
        plan_for_budget budget >>= λ plan. elim (respects_risk_limits plan) [
          | true ↦ search_budget fuel budget upper
          | false ↦ search_budget fuel lower (budget - 1)
        ]
  ]

  unfoldable pub size_plan : Option GridPlan
  size_plan = do
    full ← plan_for_budget setup.capital
    if respects_risk_limits full
        then some full
        else (search_budget (suc setup.capital) 0 setup.capital >>= λ budget.
            plan_for_budget budget)

  -- `orders.every`
  unfoldable pub all_orders_positive : List GridOrder → Option Bool
  all_orders_positive [] = some true
  all_orders_positive (o ∷ orders) = do
    base ← parse_fixed o.base_amount
    quote ← parse_fixed o.maximum_quote_amount
    rest ← all_orders_positive orders
    some (ltb 0 base && ltb 0 quote && rest)

  unfoldable pub economics_pass : GridPlan → Option Bool
  economics_pass plan = do
    positive ← all_orders_positive plan.orders
    minimum_profit ← parse_fixed request.constraints.minimum_expected_net_profit_usd
    max_gas ← parse_fixed request.max_gas_usd
    some (
        positive
        && ltb (plan.fees + plan.slippage + setup.gas) plan.gross_spread_capture
        && leb minimum_profit plan.net_profit
        && respects_risk_limits plan
        && leb setup.gas max_gas)

module _ (number_lt : Text → Text → Bool) (request : BoundedGridRequest) (now : ℕ) where
  abbrev pub evidence_of : EvidenceState
  evidence_of =
      validate_evidence request.sources now
        (record {
          source_id = request.market_state.source_id;
          observed_at = request.market_state.observed_at;
        }
          ∷ [])
        request.deadline.ms request.max_data_age_seconds

  -- The deliverable, if its schema admits it.
  abbrev pub admitted : BoundedGridDeliverable → Option BoundedGridDeliverable
  admitted d = guard (is_grid_deliverable d) >> some d

  unfoldable pub empty_result : ProviderStatus → GridDecision → Option BoundedGridDeliverable
  empty_result status decision = admitted (record {
    request_id = request.request_id;
    generated_at = now;
    expires_at = evidence_of.expires_at;
    status = status;
    decision = decision;
    orders = [];
    gross_spread_capture_usd = codes "0";
    estimated_fees_usd = codes "0";
    estimated_slippage_usd = codes "0";
    estimated_gas_usd = codes "0";
    expected_net_profit_usd = codes "0";
    worst_case_loss_usd = codes "0";
    maximum_inventory_usd = codes "0";
  })

  abbrev pub no_action : Option BoundedGridDeliverable
  no_action = empty_result ProviderStatus.no_action no_grid

  unfoldable pub grid_result : GridPlan → ℕ → Option BoundedGridDeliverable
  grid_result plan gas = admitted (record {
    request_id = request.request_id;
    generated_at = now;
    expires_at =
        minimum evidence_of.expires_at (now + request.constraints.order_expiry_seconds * 1_000);
    status = ProviderStatus.actionable;
    decision = build_grid;
    orders = plan.orders;
    gross_spread_capture_usd = format_fixed plan.gross_spread_capture 18;
    estimated_fees_usd = format_fixed plan.fees 18;
    estimated_slippage_usd = format_fixed plan.slippage 18;
    estimated_gas_usd = format_fixed gas 18;
    expected_net_profit_usd = format_fixed plan.net_profit 18;
    worst_case_loss_usd = format_fixed plan.worst_case_loss 18;
    maximum_inventory_usd = format_fixed plan.maximum_inventory 18;
  })

  -- From the sizing of the plan on.
  unfoldable pub answer_sized : GridSetup → Option BoundedGridDeliverable
  answer_sized setup = do
    plan ← size_plan request setup
    pass ← economics_pass request setup plan
    if pass then grid_result plan setup.gas else no_action

  -- From the levels on.
  unfoldable pub answer_levels : ℕ → ℕ → ℕ → ℕ → Option BoundedGridDeliverable
  answer_levels mid lower upper capital = do
    let parts = request.constraints.level_count - 1
    step ← big_div (upper - lower) parts
    let levels =
        levels_from (λ index. lower + (upper - lower) * index / parts)
          request.constraints.level_count 0
    let buys = filter (λ price. ltb price mid) levels
    let sells = filter (λ price. ltb mid price) levels
    gas ← parse_fixed request.constraints.estimated_gas_usd
    inventory_limit ← parse_fixed request.constraints.maximum_inventory_usd
    loss_limit ← parse_fixed request.constraints.maximum_loss_usd
    if is_empty buys || is_empty sells || leb step 0
        then no_action
        else answer_sized (record {
          mid = mid;
          upper = upper;
          capital = capital;
          step = step;
          buy_levels = buys;
          sell_levels = sells;
          gas = gas;
          inventory_limit = inventory_limit;
          loss_limit = loss_limit;
          base_decimals = minimum 18 request.base_asset.decimals;
          quote_unit = fixed_scale / 10 ^ minimum 18 request.quote_asset.decimals;
        })

  -- From the market's guards on.
  unfoldable pub answer_market : Option BoundedGridDeliverable
  answer_market = do
    mid ← parse_fixed request.market_state.mid_price
    lower ← parse_fixed request.constraints.lower_price
    upper ← parse_fixed request.constraints.upper_price
    capital ← parse_fixed request.constraints.capital_usd
    liquidity ← parse_fixed request.market_state.liquidity_usd
    minimum_liquidity ← parse_fixed request.constraints.minimum_liquidity_usd
    max_action ← parse_fixed request.max_action_usd
    if leb mid lower
          || leb upper mid
          || ltb liquidity minimum_liquidity
          || ltb request.constraints.maximum_volatility_bps
              request.market_state.realized_volatility_bps
          || ltb max_action capital
        then no_action
        else answer_levels mid lower upper capital

  unfoldable pub create_bounded_grid_deliverable : Option BoundedGridDeliverable
  create_bounded_grid_deliverable =
      guard (is_grid_request number_lt request) >> elim evidence_of.status [
        | EvidenceStatus.fit ↦ answer_market
        | EvidenceStatus.refused_expired ↦ empty_result ProviderStatus.refused_expired nothing
        | EvidenceStatus.refused_stale_data ↦ empty_result ProviderStatus.refused_stale_data nothing
        | EvidenceStatus.refused_inconsistent_data ↦
            empty_result ProviderStatus.refused_inconsistent_data nothing
      ]
