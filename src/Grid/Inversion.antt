-- ===== src/Grid/Inversion.antt =====
-- What stands behind an actionable grid, guard by guard.
use positioncrew.Prelude.{
  ℕ, ◌+◌, ◌-◌, ◌*◌, ◌/◌, ◌^◌, ◌≤◌, ◌<◌, ◌≡◌, refl, sym, Bool, true, false, some, List, arith, ltb,
  ap, Text, filter, some_inj, inl, inr, Bool-cases,
}
use positioncrew.Prelude.Throws.{big_div, >>=-eq-some}
use positioncrew.Core.Fixed.{fixed_scale, parse_fixed, minimum}
use positioncrew.Contracts.{ProviderStatus}
use positioncrew.Contracts.BoundedGrid.{
  BoundedGridRequest, BoundedGridDeliverable, GridDecision, is_grid_deliverable, is_grid_request,
  nothing, no_grid,
}
use positioncrew.Evidence.{EvidenceStatus}
use positioncrew.Lending.Provider.{is_empty}
use positioncrew.Grid.Provider.{
  GridSetup, GridPlan, levels_from, size_plan, economics_pass, evidence_of, admitted, empty_result,
  no_action, grid_result, answer_sized, answer_levels, answer_market,
  create_bounded_grid_deliverable,
}

abbrev pub all_levels : BoundedGridRequest → ℕ → ℕ → List ℕ
all_levels request lower upper =
    levels_from (λ index. lower + (upper - lower) * index / (request.constraints.level_count - 1))
      request.constraints.level_count 0

module _ (number_lt : Text → Text → Bool) (request : BoundedGridRequest) (now : ℕ) where
  abbrev pub IsActionable : BoundedGridDeliverable → Type 0
  IsActionable d = d.status ≡ ProviderStatus.actionable

  pub admitted-eq :
      (d e : BoundedGridDeliverable) → admitted number_lt request now d ≡ some e → e ≡ d
  admitted-eq d e h = elim (Bool-cases (is_grid_deliverable d)) [
    | inl good ↦ sym (some_inj (rw good at h))
    | inr bad ↦ let h' = rw bad at h in cc
  ]

  empty_result-status :
      (status : ProviderStatus) (decision : GridDecision) {d : BoundedGridDeliverable}
      → empty_result number_lt request now status decision ≡ some d
      → d.status ≡ status
  unfolding empty_result
  empty_result-status status decision {d} h =
      ap (λ (x : BoundedGridDeliverable). x.status) (admitted-eq _ d h)

  not_no_action :
      {d : BoundedGridDeliverable} → no_action number_lt request now ≡ some d → IsActionable d → ⊥
  not_no_action h a =
      let s = empty_result-status ProviderStatus.no_action no_grid h in absurd (ground arith)

  -- The evidence is fit, and the answer is that of the market's guards.
  pub create-market :
      {d : BoundedGridDeliverable}
      → create_bounded_grid_deliverable number_lt request now ≡ some d
      → IsActionable d
      → (is_grid_request number_lt request ≡ true)
        × ((evidence_of number_lt request now).status ≡ EvidenceStatus.fit)
        × (answer_market number_lt request now ≡ some d)
  unfolding create_bounded_grid_deliverable
  create-market {d} h a =
      let expired = empty_result-status ProviderStatus.refused_expired nothing {d = d} in
      let stale = empty_result-status ProviderStatus.refused_stale_data nothing {d = d} in
      let inconsistent =
        empty_result-status ProviderStatus.refused_inconsistent_data nothing {d = d} in
      ground (arith, expired, stale, inconsistent)

  pub record IsMarket (d : BoundedGridDeliverable) : Type 0 where
    pub mid : ℕ
    pub lower : ℕ
    pub upper : ℕ
    pub capital : ℕ
    pub liquidity : ℕ
    pub minimum_liquidity : ℕ
    pub max_action : ℕ
    pub mid_read : parse_fixed request.market_state.mid_price ≡ some mid
    pub lower_read : parse_fixed request.constraints.lower_price ≡ some lower
    pub upper_read : parse_fixed request.constraints.upper_price ≡ some upper
    pub capital_read : parse_fixed request.constraints.capital_usd ≡ some capital
    pub liquidity_read : parse_fixed request.market_state.liquidity_usd ≡ some liquidity
    pub minimum_liquidity_read :
        parse_fixed request.constraints.minimum_liquidity_usd ≡ some minimum_liquidity
    pub max_action_read : parse_fixed request.max_action_usd ≡ some max_action
    pub above : lower < mid
    pub below : mid < upper
    pub liquid : minimum_liquidity ≤ liquidity
    pub calm :
        request.market_state.realized_volatility_bps ≤ request.constraints.maximum_volatility_bps
    pub affordable : capital ≤ max_action
    pub answered : answer_levels number_lt request now mid lower upper capital ≡ some d

  pub answer_market-IsMarket :
      {d : BoundedGridDeliverable}
      → answer_market number_lt request now ≡ some d
      → IsActionable d
      → IsMarket d
  unfolding answer_market
  answer_market-IsMarket {d} h a =
      let (mid, mid_read, h₁) = >>=-eq-some (parse_fixed request.market_state.mid_price) _ h in
      let (lower, lower_read, h₂) =
        >>=-eq-some (parse_fixed request.constraints.lower_price) _ h₁ in
      let (upper, upper_read, h₃) =
        >>=-eq-some (parse_fixed request.constraints.upper_price) _ h₂ in
      let (capital, capital_read, h₄) =
        >>=-eq-some (parse_fixed request.constraints.capital_usd) _ h₃ in
      let (liquidity, liquidity_read, h₅) =
        >>=-eq-some (parse_fixed request.market_state.liquidity_usd) _ h₄ in
      let (least, least_read, h₆) =
        >>=-eq-some (parse_fixed request.constraints.minimum_liquidity_usd) _ h₅ in
      let (most, most_read, h₇) = >>=-eq-some (parse_fixed request.max_action_usd) _ h₆ in
      let refused = not_no_action {d = d} in
      record {
        mid = mid;
        lower = lower;
        upper = upper;
        capital = capital;
        liquidity = liquidity;
        minimum_liquidity = least;
        max_action = most;
        mid_read = mid_read;
        lower_read = lower_read;
        upper_read = upper_read;
        capital_read = capital_read;
        liquidity_read = liquidity_read;
        minimum_liquidity_read = least_read;
        max_action_read = most_read;
        above = ground (arith, refused);
        below = ground (arith, refused);
        liquid = ground (arith, refused);
        calm = ground (arith, refused);
        affordable = ground (arith, refused);
        answered = ground (arith, refused);
      }

  pub record IsLevels (mid lower upper capital : ℕ) (d : BoundedGridDeliverable) : Type 0 where
    pub setup : GridSetup
    pub spread : setup.step ≡ (upper - lower) / (request.constraints.level_count - 1)
    pub step_positive : 0 < setup.step
    pub mid_same : setup.mid ≡ mid
    pub upper_same : setup.upper ≡ upper
    pub capital_same : setup.capital ≡ capital
    pub buys : setup.buy_levels ≡ filter (λ price. ltb price mid) (all_levels request lower upper)
    pub sells : setup.sell_levels ≡ filter (λ price. ltb mid price) (all_levels request lower upper)
    pub some_buys : is_empty setup.buy_levels ≡ false
    pub some_sells : is_empty setup.sell_levels ≡ false
    pub gas_read : parse_fixed request.constraints.estimated_gas_usd ≡ some setup.gas
    pub inventory_read :
        parse_fixed request.constraints.maximum_inventory_usd ≡ some setup.inventory_limit
    pub loss_read : parse_fixed request.constraints.maximum_loss_usd ≡ some setup.loss_limit
    pub base_places : setup.base_decimals ≡ minimum 18 request.base_asset.decimals
    pub unit : setup.quote_unit ≡ fixed_scale / 10 ^ minimum 18 request.quote_asset.decimals
    pub sized : answer_sized number_lt request now setup ≡ some d

  pub answer_levels-IsLevels :
      (mid lower upper capital : ℕ) {d : BoundedGridDeliverable}
      → answer_levels number_lt request now mid lower upper capital ≡ some d
      → IsActionable d
      → IsLevels mid lower upper capital d
  unfolding answer_levels
  answer_levels-IsLevels mid lower upper capital {d} h a =
      let (step, divided, h₁) =
        >>=-eq-some (big_div (upper - lower) (request.constraints.level_count - 1)) _ h in
      let (gas, gas_read, h₂) =
        >>=-eq-some (parse_fixed request.constraints.estimated_gas_usd) _ h₁ in
      let (inventory, inventory_read, h₃) =
        >>=-eq-some (parse_fixed request.constraints.maximum_inventory_usd) _ h₂ in
      let (loss, loss_read, h₄) =
        >>=-eq-some (parse_fixed request.constraints.maximum_loss_usd) _ h₃ in
      let refused = not_no_action {d = d} in
      let buys = filter (λ price. ltb price mid) (all_levels request lower upper) in
      let sells = filter (λ price. ltb mid price) (all_levels request lower upper) in
      record {
        setup = record {
          mid = mid;
          upper = upper;
          capital = capital;
          step = step;
          buy_levels = buys;
          sell_levels = sells;
          gas = gas;
          inventory_limit = inventory;
          loss_limit = loss;
          base_decimals = minimum 18 request.base_asset.decimals;
          quote_unit = fixed_scale / 10 ^ minimum 18 request.quote_asset.decimals;
        };
        spread = ground arith;
        step_positive = ground (arith, refused);
        mid_same = refl;
        upper_same = refl;
        capital_same = refl;
        buys = refl;
        sells = refl;
        some_buys = ground (arith, refused);
        some_sells = ground (arith, refused);
        gas_read = gas_read;
        inventory_read = inventory_read;
        loss_read = loss_read;
        base_places = refl;
        unit = refl;
        sized = ground (arith, refused);
      }

  pub sized-plan :
      (setup : GridSetup) {d : BoundedGridDeliverable}
      → answer_sized number_lt request now setup ≡ some d
      → IsActionable d
      → (plan : GridPlan) × (size_plan request setup ≡ some plan)
        × (economics_pass request setup plan ≡ some true)
        × (grid_result number_lt request now plan setup.gas ≡ some d)
  unfolding answer_sized
  sized-plan setup {d} h a =
      let (plan, sized, h₁) = >>=-eq-some (size_plan request setup) _ h in
      let (pass, passed, h₂) = >>=-eq-some (economics_pass request setup plan) _ h₁ in
      let refused = not_no_action {d = d} in
      let ok : pass ≡ true = ground (arith, refused) in (plan, sized, rw ok at passed, rw ok at h₂)
