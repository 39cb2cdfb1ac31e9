-- ===== src/Grid/Actionable.antt =====
-- What an actionable grid promises.
use positioncrew.Prelude.{
  ℕ, ◌+◌, ◌-◌, ◌*◌, ◌/◌, ◌^◌, ltb, filter, ◌≤◌, ◌<◌, ◌≡◌, refl, sym, ◌∙◌, Bool, true, some,
  some_inj, [], ◌∷◌, arith, All, Text,
}
use positioncrew.Core.Fixed.{fixed_scale, parse_fixed, minimum}
use positioncrew.Core.Fixed.RoundTrip.{parse_fixed-format_fixed_exact}
use positioncrew.Contracts.{ProviderStatus}
use positioncrew.Contracts.BoundedGrid.{
  BoundedGridRequest, BoundedGridDeliverable, build_grid, is_grid_request,
}
use positioncrew.Lending.Deliverable.{IsFresh}
use positioncrew.Evidence.{EvidenceStatus}
use positioncrew.Evidence.Sound.{IsBacked, validate_evidence_fit, validate_evidence_expiry}
use positioncrew.Grid.Provider.{
  GridSetup, GridPlan, plan_for_budget, grid_result, evidence_of, create_bounded_grid_deliverable,
}
use positioncrew.Grid.Search.{Fits, size_plan_greatest}
use positioncrew.Grid.Inversion.{
  IsMarket, IsLevels, all_levels, create-market, answer_market-IsMarket, answer_levels-IsLevels,
  sized-plan, admitted-eq,
}
use positioncrew.Grid.Setup.{answer_levels-IsSetup, request-places, request-levels, levels-within}
use positioncrew.Grid.Placed.{IsPlaced, IsSized, IsSplit, plan_for_budget-IsPlaced, filter-IsSplit}
use positioncrew.Grid.Worth.{IsWorth, minimum_bounds, economics_pass-IsWorth, respected-limits}

-- What the texts of a deliverable say of a plan.
pub record IsStated (d : BoundedGridDeliverable) (plan : GridPlan) (gas : ℕ) : Type 0 where
  pub decision : d.decision ≡ build_grid
  pub orders : d.orders ≡ plan.orders
  pub gross : parse_fixed d.gross_spread_capture_usd ≡ some plan.gross_spread_capture
  pub fees : parse_fixed d.estimated_fees_usd ≡ some plan.fees
  pub slippage : parse_fixed d.estimated_slippage_usd ≡ some plan.slippage
  pub gas_cost : parse_fixed d.estimated_gas_usd ≡ some gas
  pub profit : parse_fixed d.expected_net_profit_usd ≡ some plan.net_profit
  pub loss : parse_fixed d.worst_case_loss_usd ≡ some plan.worst_case_loss
  pub inventory : parse_fixed d.maximum_inventory_usd ≡ some plan.maximum_inventory

module _ (number_lt : Text → Text → Bool) (request : BoundedGridRequest) (now : ℕ) where
  grid_result-IsStated :
      (plan : GridPlan) (gas : ℕ) {d : BoundedGridDeliverable}
      → grid_result number_lt request now plan gas ≡ some d
      → IsStated d plan gas
        × (d.expires_at
            ≡ minimum
                (evidence_of number_lt request now).expires_at
                (now + request.constraints.order_expiry_seconds * 1_000))
        × (d.request_id ≡ request.request_id)
        × (d.generated_at ≡ now)
  unfolding grid_result
  grid_result-IsStated plan gas {d} h = rw (admitted-eq number_lt request now _ d h) (
    record {
      decision = refl;
      orders = refl;
      gross = parse_fixed-format_fixed_exact plan.gross_spread_capture;
      fees = parse_fixed-format_fixed_exact plan.fees;
      slippage = parse_fixed-format_fixed_exact plan.slippage;
      gas_cost = parse_fixed-format_fixed_exact gas;
      profit = parse_fixed-format_fixed_exact plan.net_profit;
      loss = parse_fixed-format_fixed_exact plan.worst_case_loss;
      inventory = parse_fixed-format_fixed_exact plan.maximum_inventory;
    },
    refl,
    refl,
    refl,
  )

  -- What an actionable grid rests on.
  pub record IsGrid (d : BoundedGridDeliverable) : Type 0 where
    pub lower : ℕ
    pub mid : ℕ
    pub upper : ℕ
    pub max_action : ℕ
    pub liquidity : ℕ
    pub minimum_liquidity : ℕ
    pub setup : GridSetup
    pub budget : ℕ
    pub plan : GridPlan
    pub lower_read : parse_fixed request.constraints.lower_price ≡ some lower
    pub mid_read : parse_fixed request.market_state.mid_price ≡ some mid
    pub upper_read : parse_fixed request.constraints.upper_price ≡ some upper
    pub capital_read : parse_fixed request.constraints.capital_usd ≡ some setup.capital
    pub inventory_read :
        parse_fixed request.constraints.maximum_inventory_usd ≡ some setup.inventory_limit
    pub loss_read : parse_fixed request.constraints.maximum_loss_usd ≡ some setup.loss_limit
    pub gas_read : parse_fixed request.constraints.estimated_gas_usd ≡ some setup.gas
    pub max_action_read : parse_fixed request.max_action_usd ≡ some max_action
    pub affordable : setup.capital ≤ max_action
    pub liquidity_read : parse_fixed request.market_state.liquidity_usd ≡ some liquidity
    pub minimum_liquidity_read :
        parse_fixed request.constraints.minimum_liquidity_usd ≡ some minimum_liquidity
    pub liquid : minimum_liquidity ≤ liquidity
    pub mid_same : setup.mid ≡ mid
    pub upper_same : setup.upper ≡ upper
    pub spread : setup.step ≡ (upper - lower) / (request.constraints.level_count - 1)
    pub buys : setup.buy_levels ≡ filter (λ price. ltb price mid) (all_levels request lower upper)
    pub sells : setup.sell_levels ≡ filter (λ price. ltb mid price) (all_levels request lower upper)
    pub base_places : setup.base_decimals ≡ minimum 18 request.base_asset.decimals
    pub unit : setup.quote_unit ≡ fixed_scale / 10 ^ minimum 18 request.quote_asset.decimals
    pub in_time : now < request.deadline.ms
    pub backed : IsBacked request.sources now (record {
      source_id = request.market_state.source_id;
      observed_at = request.market_state.observed_at;
    })
    pub fresh : All (IsFresh request.max_data_age_seconds now) request.sources
    pub calm :
        request.market_state.realized_volatility_bps ≤ request.constraints.maximum_volatility_bps
    pub range : (lower < mid) × (mid < upper)
    pub stated : IsStated d plan setup.gas
    pub answers : (d.request_id ≡ request.request_id) × (d.generated_at ≡ now)
    pub placed : All (IsPlaced lower mid upper) d.orders
    pub sized : All IsSized d.orders
    pub worth : IsWorth request setup plan
    pub limits :
        (plan.maximum_inventory ≤ setup.inventory_limit)
        × (plan.worst_case_loss ≤ setup.loss_limit)
        × (plan.worst_case_loss ≤ setup.capital)
    pub within : budget ≤ setup.capital
    pub largest : (other : ℕ) → other ≤ setup.capital → Fits request setup other → other ≤ budget
    pub planned : plan_for_budget request setup budget ≡ some plan
    pub expires :
        (d.expires_at ≤ request.deadline.ms)
        × (d.expires_at ≤ now + request.constraints.order_expiry_seconds * 1_000)
        × (now ≤ d.expires_at)

  fit_observation :
      (evidence_of number_lt request now).status ≡ EvidenceStatus.fit
      → (now < request.deadline.ms)
        × IsBacked request.sources now (record {
          source_id = request.market_state.source_id;
          observed_at = request.market_state.observed_at;
        })
        × All (IsFresh request.max_data_age_seconds now) request.sources
  fit_observation h =
      let (in_time, backed, _, fresh) =
        (validate_evidence_fit request.sources now _ request.deadline.ms
            request.max_data_age_seconds).0
          h in
      (in_time, backed.0, fresh)

  grid_expiry :
      (d : BoundedGridDeliverable)
      → (evidence_of number_lt request now).status ≡ EvidenceStatus.fit
      → d.expires_at
        ≡ minimum
            (evidence_of number_lt request now).expires_at
            (now + request.constraints.order_expiry_seconds * 1_000)
      → (d.expires_at ≤ request.deadline.ms)
        × (d.expires_at ≤ now + request.constraints.order_expiry_seconds * 1_000)
        × (now ≤ d.expires_at)
  grid_expiry d fit expiry =
      let (before, _, alive) =
        validate_evidence_expiry request.sources now
          (record {
            source_id = request.market_state.source_id;
            observed_at = request.market_state.observed_at;
          }
            ∷ [])
          request.deadline.ms request.max_data_age_seconds in
      let (left, right, least) =
        minimum_bounds (evidence_of number_lt request now).expires_at
          (now + request.constraints.order_expiry_seconds * 1_000) in
      rw expiry (omega (arith, left, before), right, least now (alive fit) (omega arith))

  answer_levels-IsSplit :
      {d : BoundedGridDeliverable}
      → is_grid_request number_lt request ≡ true
      → (market : IsMarket number_lt request now d)
      → (levels : IsLevels number_lt request now market.mid market.lower market.upper market.capital
          d)
      → IsSplit market.lower market.mid market.upper levels.setup
  answer_levels-IsSplit valid market levels =
      let above = market.above in
      let below = market.below in
      let within =
        levels-within request market.lower market.upper (request-levels number_lt request valid)
          (omega arith) in
      filter-IsSplit market.lower market.mid market.upper levels.setup
        (all_levels request market.lower market.upper) within levels.buys levels.sells

  -- An ACTIONABLE grid is given in time, on a fresh price that its source supports, in a market
  -- that is liquid and calm enough. Its prices, capital, limits, gas, token units and levels are
  -- those of the request, the levels being equal steps of the range with those of the buys below
  -- the mid price and those of the sells above it. The capital is within the action limit and the
  -- budget within the capital, the plan is the one for that budget, and no larger budget within the
  -- capital would have kept the limits. Its orders have positive amounts and lie in the range, the
  -- buys below the mid price and the sells above it. It pays its costs and the minimum profit, its
  -- inventory and its loss stay within their limits, its gas within its ceiling, and its texts say
  -- so. It expires by the deadline and by the expiry of its orders, not before it is given.
  pub actionable-IsGrid :
      {d : BoundedGridDeliverable}
      → create_bounded_grid_deliverable number_lt request now ≡ some d
      → d.status ≡ ProviderStatus.actionable
      → IsGrid d
  actionable-IsGrid {d} h a =
      let (valid, fit, market_answer) = create-market number_lt request now h a in
      let market = answer_market-IsMarket number_lt request now market_answer a in
      let levels =
        answer_levels-IsLevels number_lt request now market.mid market.lower market.upper
          market.capital market.answered a in
      let setup = levels.setup in
      let ready = answer_levels-IsSetup number_lt request now valid market levels in
      let (plan, sized, passed, given) = sized-plan number_lt request now setup levels.sized a in
      let (stated, expiry, asked, given_at) = grid_result-IsStated plan setup.gas given in
      let worth = economics_pass-IsWorth request setup plan passed in
      let (budget, plan', sized', planned, within, greatest) =
        size_plan_greatest request setup ready (request-places number_lt request valid) in
      let same : plan' ≡ plan = some_inj (sym sized' ∙ sized) in
      let made = rw same at planned in
      let (in_time, backed, fresh) = fit_observation fit in
      let split = answer_levels-IsSplit valid market levels in
      let placed =
        plan_for_budget-IsPlaced market.lower market.mid market.upper request setup ready split
          budget made in
      record {
        lower = market.lower;
        mid = market.mid;
        upper = market.upper;
        max_action = market.max_action;
        liquidity = market.liquidity;
        minimum_liquidity = market.minimum_liquidity;
        setup = setup;
        budget = budget;
        plan = plan;
        lower_read = market.lower_read;
        mid_read = market.mid_read;
        upper_read = market.upper_read;
        capital_read = rw levels.capital_same market.capital_read;
        inventory_read = levels.inventory_read;
        loss_read = levels.loss_read;
        gas_read = levels.gas_read;
        max_action_read = market.max_action_read;
        affordable = rw levels.capital_same market.affordable;
        liquidity_read = market.liquidity_read;
        minimum_liquidity_read = market.minimum_liquidity_read;
        liquid = market.liquid;
        mid_same = levels.mid_same;
        upper_same = levels.upper_same;
        spread = levels.spread;
        buys = levels.buys;
        sells = levels.sells;
        base_places = levels.base_places;
        unit = levels.unit;
        in_time = in_time;
        backed = backed;
        fresh = fresh;
        calm = market.calm;
        range = (market.above, market.below);
        stated = stated;
        answers = (asked, given_at);
        placed = rw stated.orders placed;
        sized = rw stated.orders worth.sized;
        worth = worth;
        limits = respected-limits request setup plan worth.respected;
        within = within;
        largest = λ other k f. (greatest other k f).1;
        planned = made;
        expires = grid_expiry d fit expiry;
      }
