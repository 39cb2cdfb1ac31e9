-- ===== src/Grid/Risk.antt =====
-- src/providers/bounded-grid-risk.ts: what a set of orders can come to hold and to lose.
use positioncrew.Prelude.{ℕ, ◌+◌, ◌*◌, Option, some, List, [], ◌∷◌}
use positioncrew.Prelude.Throws.{◌>>=◌}
use positioncrew.Core.Fixed.{fixed_scale, parse_fixed, ceil_divide}
use positioncrew.Contracts.BoundedGrid.{Side, buy, sell, GridOrder}

-- The sums of the loop over the orders.
pub record RiskSums : Type 0 where
  pub initial_base : ℕ
  pub purchased_base : ℕ
  pub buy_quote : ℕ
  pub deployed_notional : ℕ

abbrev pub no_sums : RiskSums
no_sums = record { initial_base = 0; purchased_base = 0; buy_quote = 0; deployed_notional = 0 }

abbrev pub add_order : Side → ℕ → ℕ → RiskSums → RiskSums
add_order sell base quote s = record s {
  initial_base = s.initial_base + base;
  deployed_notional = s.deployed_notional + quote;
}
add_order buy base quote s = record s {
  purchased_base = s.purchased_base + base;
  buy_quote = s.buy_quote + quote;
  deployed_notional = s.deployed_notional + quote;
}

unfoldable pub add_orders : List GridOrder → RiskSums → Option RiskSums
add_orders [] s = some s
add_orders (o ∷ orders) s = do
  base ← parse_fixed o.base_amount
  quote ← parse_fixed o.maximum_quote_amount
  add_orders orders (add_order o.side base quote s)

pub record GridRisk : Type 0 where
  pub deployed_notional : ℕ
  pub maximum_inventory : ℕ
  pub principal_at_risk : ℕ

unfoldable pub calculate_bounded_grid_risk : List GridOrder → ℕ → ℕ → Option GridRisk
calculate_bounded_grid_risk orders mid_price upper_price = do
  s ← add_orders orders no_sums
  inventory ← ceil_divide ((s.initial_base + s.purchased_base) * upper_price) fixed_scale
  initial ← ceil_divide (s.initial_base * mid_price) fixed_scale
  some (record {
    deployed_notional = s.deployed_notional;
    maximum_inventory = inventory;
    principal_at_risk = initial + s.buy_quote;
  })
