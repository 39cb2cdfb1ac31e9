-- ===== src/Grid/Worth.antt =====
-- What the economics of a plan that passes say.
use positioncrew.Prelude.{
  ℕ, ◌+◌, ◌≤◌, ◌<◌, ◌≡◌, Bool, true, some, some_inj, arith, ltb, leb, ltb→lt, leb→le, ◌&&◌, All,
}
use positioncrew.Prelude.Throws.{>>=-eq-some}
use positioncrew.Core.Fixed.{parse_fixed, minimum}
use positioncrew.Contracts.BoundedGrid.{BoundedGridRequest}
use positioncrew.Grid.Provider.{
  GridSetup, GridPlan, economics_pass, all_orders_positive, respects_risk_limits,
}
use positioncrew.Grid.Placed.{IsSized, all_orders_positive-IsSized}

-- A plan pays: its gross capture covers its costs, its profit reaches the minimum, its risk stays
-- within the limits, and the gas within its ceiling.
pub record IsWorth (request : BoundedGridRequest) (setup : GridSetup) (plan : GridPlan)
    : Type 0 where
  pub least : ℕ
  pub max_gas : ℕ
  pub least_read : parse_fixed request.constraints.minimum_expected_net_profit_usd ≡ some least
  pub max_gas_read : parse_fixed request.max_gas_usd ≡ some max_gas
  pub covered : plan.fees + plan.slippage + setup.gas < plan.gross_spread_capture
  pub enough : least ≤ plan.net_profit
  pub gas_within : setup.gas ≤ max_gas
  pub respected : respects_risk_limits request setup plan ≡ true
  pub sized : All IsSized plan.orders

pub minimum_bounds :
    (a b : ℕ) → (minimum a b ≤ a) × (minimum a b ≤ b) × ((n : ℕ) → n ≤ a → n ≤ b → n ≤ minimum a b)
unfolding minimum
minimum_bounds a b = (ground arith, ground arith, λ n h k. ground arith)

five_tests :
    (a b c d e : Bool)
    → (a && b && c && d && e) ≡ true
    → (a ≡ true) × (b ≡ true) × (c ≡ true) × (d ≡ true) × (e ≡ true)
five_tests a b c d e h = ground arith

pub economics_pass-IsWorth :
    (request : BoundedGridRequest) (setup : GridSetup) (plan : GridPlan)
    → economics_pass request setup plan ≡ some true
    → IsWorth request setup plan
unfolding economics_pass
economics_pass-IsWorth request setup plan h =
    let (positive, positive_made, h₁) =
      >>=-eq-some (all_orders_positive request setup plan.orders) _ h in
    let (least, least_read, h₂) =
      >>=-eq-some (parse_fixed request.constraints.minimum_expected_net_profit_usd) _ h₁ in
    let (max_gas, max_gas_read, h₃) = >>=-eq-some (parse_fixed request.max_gas_usd) _ h₂ in
    let (p, covered, enough, respected, gas_within) =
      five_tests positive (ltb (plan.fees + plan.slippage + setup.gas) plan.gross_spread_capture)
        (leb least plan.net_profit) (respects_risk_limits request setup plan)
        (leb setup.gas max_gas) (some_inj h₃) in
    record {
      least = least;
      max_gas = max_gas;
      least_read = least_read;
      max_gas_read = max_gas_read;
      covered = ltb→lt _ _ covered;
      enough = leb→le _ _ enough;
      gas_within = leb→le _ _ gas_within;
      respected = respected;
      sized = all_orders_positive-IsSized request setup plan.orders (rw p at positive_made);
    }

pub respected-limits :
    (request : BoundedGridRequest) (setup : GridSetup) (plan : GridPlan)
    → respects_risk_limits request setup plan ≡ true
    → (plan.maximum_inventory ≤ setup.inventory_limit)
      × (plan.worst_case_loss ≤ setup.loss_limit)
      × (plan.worst_case_loss ≤ setup.capital)
unfolding respects_risk_limits
respected-limits request setup plan h = ground arith
