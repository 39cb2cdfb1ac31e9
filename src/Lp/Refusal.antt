-- ===== src/Lp/Refusal.antt =====
-- src/evaluators/lp-refusal-feasibility.ts: when a request cannot be met by any range.
use positioncrew.Prelude.Integers.{pos, lebℤ, sub_ℕ}
use positioncrew.Prelude.{◌+◌, ◌*◌, Bool, not, ◌||◌, Option, some, ltb}
use positioncrew.Prelude.Throws.{◌>>=◌, big_div}
use positioncrew.Core.Fixed.{parse_fixed, ceil_divide}
use positioncrew.Contracts.LpRebalance.{LpRebalanceRequest}
use positioncrew.Lp.Range.{max_v3_tick}

module _ (request : LpRebalanceRequest) where
  -- From the tick spacing on.
  unfoldable pub range_is_impossible : Option Bool
  range_is_impossible = do
    let spacing = request.constraints.tick_spacing
    let tick = request.market_state.current_tick
    limit_steps ← big_div max_v3_tick spacing
    least_steps ← ceil_divide request.constraints.minimum_width_ticks spacing
    let aligned_limit = limit_steps * spacing
    let minimum_aligned_width = least_steps * spacing
    some (
        ltb request.constraints.maximum_width_ticks minimum_aligned_width
        || ltb (2 * aligned_limit) minimum_aligned_width
        || not (lebℤ (sub_ℕ 0 aligned_limit) tick)
        || lebℤ (pos aligned_limit) tick)

  unfoldable pub lp_constraint_refusal_justified : Option Bool
  lp_constraint_refusal_justified = do
    gas ← parse_fixed request.constraints.estimated_gas_usd
    swap ← parse_fixed request.constraints.estimated_swap_cost_usd
    max_gas ← parse_fixed request.max_gas_usd
    max_action ← parse_fixed request.max_action_usd
    impossible ← range_is_impossible
    some (
        ltb max_gas gas
        || ltb max_action (gas + swap)
        || ltb
            (request.constraints.maximum_token0_share_bps
              + request.constraints.maximum_token1_share_bps)
            10_000
        || impossible)
