-- ===== src/Grid/Tests.antt =====
-- The properties of the grid at concrete requests, and runs of its functions.
use positioncrew.Prelude.{
  ℕ, ◌*◌, ◌/◌, ◌^◌, ◌≤◌, ◌≡◌, refl, true, some, List, [], ◌∷◌, arith, All, ◌⊎◌,
}
use positioncrew.Core.Fixed.{
  fixed_scale, parse_fixed, minimum, match_decimal, ceil_divide, digits, divide_fixed, format_fixed,
  span_digits, strip_zeros, to_big_int, to_string, value_from,
}
use positioncrew.Contracts.{
  ProviderStatus, is_address, is_asset_identity, is_base_request, is_positive_decimal,
  is_request_window, is_source, is_unsigned_decimal,
}
use positioncrew.Contracts.BoundedGrid.{
  buy, sell, is_grid_request, is_grid_constraints, is_grid_deliverable, is_grid_market,
  is_grid_order,
}
use positioncrew.Grid.Samples.{number_lt, request, delivered}
use positioncrew.Grid.Cycle.{
  CycleRow, match_orders, add_cycle, add_row, calculate_grid_cycle_economics, match_rows, row_of,
}
use positioncrew.Grid.Matching.{
  IsWithin, total_amount, total_matched, buys_of, sells_of, match_orders_total,
}
use positioncrew.Grid.Provider.{
  GridSetup, GridPlan, plan_for_budget, respects_risk_limits, search_budget, size_plan,
  create_bounded_grid_deliverable, answer_market, answer_levels, levels_from, answer_sized,
  orders_for_budget, all_orders_positive, economics_pass, empty_result, grid_result, order_at,
  quote_per_level,
}
use positioncrew.Evidence.{
  validate_evidence, inconsistencies, mismatches, observation_problems, future_sources, too_old,
}
use positioncrew.Lending.Provider.{find_source}
use positioncrew.Grid.Risk.{add_orders, calculate_bounded_grid_risk}
use positioncrew.Prelude.Sort.{insert, sort}
use positioncrew.Grid.Monotone.{IsSetup}
use positioncrew.Grid.Plans.{PlanLe, plan_for_budget_mono}
use positioncrew.Grid.Search.{Fits, search_budget_greatest, size_plan_greatest}
use positioncrew.Grid.Actionable.{IsGrid, actionable-IsGrid}

delivered_made :
    (create_bounded_grid_deliverable number_lt request 1_000_000 ≡ some delivered)
    × (delivered.status ≡ ProviderStatus.actionable)
unfolding create_bounded_grid_deliverable is_grid_request match_decimal parse_fixed
    validate_evidence inconsistencies mismatches observation_problems find_source future_sources
    too_old answer_market answer_levels levels_from answer_sized size_plan plan_for_budget
    orders_for_budget is_grid_constraints is_grid_deliverable is_grid_market is_grid_order
    is_address is_asset_identity is_base_request is_positive_decimal is_request_window is_source
    is_unsigned_decimal ceil_divide digits divide_fixed format_fixed minimum span_digits strip_zeros
    to_big_int to_string value_from add_cycle add_row calculate_grid_cycle_economics match_orders
    match_rows row_of all_orders_positive economics_pass empty_result grid_result order_at
    quote_per_level respects_risk_limits search_budget add_orders calculate_bounded_grid_risk insert
    sort
delivered_made = (refl, refl)

actionable-IsGrid_example : IsGrid number_lt request 1_000_000 delivered
actionable-IsGrid_example =
    actionable-IsGrid number_lt request 1_000_000 delivered_made.0 delivered_made.1

abbrev setup : GridSetup
setup = record {
  mid = 600 * fixed_scale;
  upper = 700 * fixed_scale;
  capital = 1_000 * fixed_scale;
  step = 100 * fixed_scale;
  buy_levels = 500 * fixed_scale ∷ [];
  sell_levels = 700 * fixed_scale ∷ [];
  gas = fixed_scale / 2;
  inventory_limit = 1_100 * fixed_scale;
  loss_limit = 995 * fixed_scale;
  base_decimals = 18;
  quote_unit = 10 ^ 12;
}

setup-IsSetup : IsSetup setup
setup-IsSetup = record {
  buys_positive = (omega arith, tt);
  sells_positive = (omega arith, tt);
  some_buys = omega arith;
  some_sells = omega arith;
  unit_positive = omega arith;
  mid_positive = omega arith;
  decimals_bound = omega arith;
}

plan_for_budget_mono_example :
    (p : GridPlan) × (q : GridPlan) × (plan_for_budget request setup (400 * fixed_scale) ≡ some p)
    × (plan_for_budget request setup (900 * fixed_scale) ≡ some q)
    × PlanLe p q
plan_for_budget_mono_example =
    plan_for_budget_mono request setup setup-IsSetup (omega arith) (400 * fixed_scale)
      (900 * fixed_scale) (omega arith)

search_budget_greatest_example :
    (budget : ℕ) × (search_budget request setup 101 0 100 ≡ some budget)
    × (0 ≤ budget)
    × (budget ≤ 100)
    × ((budget ≡ 0) ⊎ Fits request setup budget)
    × ((other : ℕ) → other ≤ 100 → Fits request setup other → other ≤ budget)
search_budget_greatest_example =
    search_budget_greatest request setup setup-IsSetup (omega arith) 101 0 100 (omega arith)
      (omega arith)

size_plan_greatest_example :
    (budget : ℕ) × (plan : GridPlan) × (size_plan request setup ≡ some plan)
    × (plan_for_budget request setup budget ≡ some plan)
    × (budget ≤ setup.capital)
    × ((other : ℕ)
        → other ≤ setup.capital
        → Fits request setup other
        → (respects_risk_limits request setup plan ≡ true) × (other ≤ budget))
size_plan_greatest_example = size_plan_greatest request setup setup-IsSetup (omega arith)

abbrev rows : List CycleRow
rows =
    record { side = buy; price = 500; amount = 7; matched = 0 }
    ∷ record { side = sell; price = 700; amount = 4; matched = 0 }
    ∷ record { side = buy; price = 550; amount = 2; matched = 0 }
    ∷ record { side = sell; price = 650; amount = 1; matched = 0 }
    ∷ []

-- The buy at 550 is filled before the one at 500, the sell at 650 before the one at 700.
match_orders_test : match_orders rows ≡ (
  record { side = buy; price = 550; amount = 2; matched = 2 }
      ∷ record { side = buy; price = 500; amount = 7; matched = 3 }
      ∷ [],
  record { side = sell; price = 650; amount = 1; matched = 1 }
      ∷ record { side = sell; price = 700; amount = 4; matched = 4 }
      ∷ [],
)
unfolding match_orders match_rows sort insert minimum
match_orders_test = refl

match_orders_total_example :
    (total_matched (match_orders rows).0
      ≡ minimum (total_amount (buys_of rows)) (total_amount (sells_of rows)))
    × (total_matched (match_orders rows).1 ≡ total_matched (match_orders rows).0)
    × All IsWithin (match_orders rows).0
    × All IsWithin (match_orders rows).1
match_orders_total_example = match_orders_total rows (refl, (refl, (refl, (refl, tt))))
