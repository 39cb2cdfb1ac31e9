-- ===== src/Lp/Tests.antt =====
-- The range of a position at a concrete request.
use positioncrew.Prelude.Integers.{ℤ, pos, negsuc, ◌+ℤ◌, ◌-ℤ◌, times, floor_div, lebℤ, minℤ, maxℤ}
use positioncrew.Prelude.{ℕ, ◌≡◌, ◌≤◌, refl, none, some, [], codes, arith, true, false, Bool, ◌↔◌}
use positioncrew.Core.Fixed.{
  parse_fixed, match_decimal, span_digits, to_big_int, value_from, ceil_divide,
}
use positioncrew.Contracts.LpRebalance.{LpRebalanceRequest}
use positioncrew.Lending.Samples.{at_ms, usdc, wbnb}
use positioncrew.Lp.Range.{
  LpRange, minimum_steps, maximum_steps, width_steps, lower_tick_of, checked_range,
  bounded_lp_range,
}
use positioncrew.Lp.Refusal.{range_is_impossible, lp_constraint_refusal_justified}
use positioncrew.Lp.Impossible.{range_is_impossible_iff}
use positioncrew.Lp.Feasible.{IsRange, bounded_lp_range-found}

-- A spacing of 60 ticks, with widths from the given number of ticks to 1200.
abbrev request_at : ℤ → ℕ → LpRebalanceRequest
request_at tick least = record {
  base = record {
    request_id = codes "request-1";
    chain_id = 56;
    account = codes "0x00000000000000000000000000000000000000aa";
    protocol = codes "pancake";
    requested_at = at_ms 800_000;
    deadline = at_ms 2_000_000;
    max_data_age_seconds = 600;
    max_action_usd = codes "1000";
    max_gas_usd = codes "5";
    max_slippage_bps = 10;
    sources = [];
  };
  pool = codes "0x00000000000000000000000000000000000000bb";
  token0 = wbnb;
  token1 = usdc;
  position = record {
    lower_tick = negsuc 599;
    upper_tick = pos 600;
    liquidity = codes "1";
    position_value_usd = codes "1000";
    fees_earned_usd = codes "1";
    token0_share_bps = 5_000;
    token1_share_bps = 5_000;
  };
  market_state = record {
    current_tick = tick;
    token0_price_usd = codes "600";
    token1_price_usd = codes "1";
    volume_24h_usd = codes "100000";
    fees_24h_usd = codes "100";
    pool_liquidity_usd = codes "1000000";
    realized_volatility_bps = 500;
    volume_measurement_window_seconds = none;
    volume_normalization_factor = none;
    swap_count = none;
    observed_at = at_ms 900_000;
    source_id = codes "pool";
  };
  constraints = record {
    minimum_width_ticks = least;
    maximum_width_ticks = 1_200;
    tick_spacing = 60;
    edge_buffer_bps = 1_000;
    high_volatility_bps = 1_000;
    maximum_token0_share_bps = 9_000;
    maximum_token1_share_bps = 9_000;
    minimum_net_benefit_usd = codes "0";
    estimated_gas_usd = codes "1";
    estimated_swap_cost_usd = codes "1";
    evaluation_horizon_hours = 24;
  };
}

feasible : minimum_steps 60 120 ≤ maximum_steps 60 1_200
unfolding minimum_steps maximum_steps
feasible = omega arith

several : 2 ≤ width_steps 60 (minimum_steps 60 120) (maximum_steps 60 1_200) 900
unfolding minimum_steps maximum_steps width_steps
several = omega arith

bounded_lp_range-found_example :
    (r : LpRange) × (bounded_lp_range (request_at (negsuc 74) 120) 900 ≡ some r)
    × IsRange (request_at (negsuc 74) 120) r
bounded_lp_range-found_example =
    bounded_lp_range-found (request_at (negsuc 74) 120) 900 (omega arith) feasible (omega arith)
      (omega arith) several

-- Around the tick -75 the width of 900 ticks is kept.
bounded_lp_range_test :
    bounded_lp_range (request_at (negsuc 74) 120) 900
    ≡ some (record { lower_tick = negsuc 539; upper_tick = pos 360 })
unfolding bounded_lp_range minimum_steps maximum_steps width_steps lower_tick_of checked_range ◌+ℤ◌
    ◌-ℤ◌ times floor_div lebℤ minℤ maxℤ
bounded_lp_range_test = refl

-- With a width of one step no range is found at the tick 10, though the one from 0 to 60 contains it.
one_step_test : bounded_lp_range (request_at (pos 10) 60) 60 ≡ none
unfolding bounded_lp_range minimum_steps maximum_steps width_steps lower_tick_of checked_range ◌+ℤ◌
    ◌-ℤ◌ times floor_div lebℤ minℤ maxℤ
one_step_test = refl

range_is_impossible_iff_example :
    (b : Bool) × (range_is_impossible (request_at (negsuc 74) 120) ≡ some b)
    × ((b ≡ true) ↔ ((r : LpRange) → IsRange (request_at (negsuc 74) 120) r → ⊥))
range_is_impossible_iff_example =
    range_is_impossible_iff (request_at (negsuc 74) 120) (omega arith) (omega arith)

-- The range that one_step_test misses is there: the refusal is not justified.
one_step_refusal_test : lp_constraint_refusal_justified (request_at (pos 10) 60) ≡ some false
unfolding lp_constraint_refusal_justified range_is_impossible parse_fixed match_decimal span_digits
    to_big_int value_from ceil_divide lebℤ
one_step_refusal_test = refl
