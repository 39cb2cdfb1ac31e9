-- ===== src/Lp/Range.antt =====
-- src/core/lp-range.ts: the choice of a range. A quotient of numbers is exact here, where the source
-- divides in floating point: its ticks and widths are integers below 2^53.
use positioncrew.Prelude.Integers.{ℤ, pos, ◌+ℤ◌, ◌-ℤ◌, times, floor_div, lebℤ, minℤ, maxℤ, sub_ℕ}
use positioncrew.Prelude.{
  ℕ, ◌+◌, ◌-◌, ◌*◌, ◌/◌, ◌%◌, ◌^◌, Bool, not, ◌||◌, Option, none, some, leb, ltb, ◌==◌,
  if◌then◌else◌,
}
use positioncrew.Contracts.LpRebalance.{LpRebalanceRequest}

abbrev pub max_v3_tick : ℕ
max_v3_tick = 887_272

abbrev pub max_safe_integer : ℕ
max_safe_integer = 2 ^ 53 - 1

pub record LpRange : Type 0 where
  pub lower_tick : ℤ
  pub upper_tick : ℤ

-- `highest / spacing`; `lowest` is the negation of `highest`, as MIN_V3_TICK is that of MAX_V3_TICK.
abbrev pub highest_steps : ℕ → ℕ
highest_steps spacing = max_v3_tick / spacing

abbrev pub highest : ℕ → ℤ
highest spacing = pos (highest_steps spacing * spacing)

abbrev pub lowest : ℕ → ℤ
lowest spacing = sub_ℕ 0 (highest_steps spacing * spacing)

abbrev pub at_least : ℕ → ℕ → ℕ
at_least a b = if leb a b then b else a

abbrev pub at_most : ℕ → ℕ → ℕ
at_most a b = if leb a b then a else b

-- `Math.max(1, Math.ceil(minimumWidthTicks / spacing))`
unfoldable pub minimum_steps : ℕ → ℕ → ℕ
minimum_steps spacing minimum_width = at_least 1 ((minimum_width + spacing - 1) / spacing)

unfoldable pub maximum_steps : ℕ → ℕ → ℕ
maximum_steps spacing maximum_width = at_most (maximum_width / spacing) (2 * highest_steps spacing)

-- The number of steps that the width is rounded to.
unfoldable pub width_steps : ℕ → ℕ → ℕ → ℕ → ℕ
width_steps spacing least most desired_width =
    at_least least (at_most most ((2 * desired_width + spacing) / (2 * spacing)))

-- `Math.max(lowest, Math.min(highest - width, Math.floor((tick - width / 2) / spacing) * spacing))`
unfoldable pub lower_tick_of : ℤ → ℕ → ℕ → ℤ
lower_tick_of tick spacing width = maxℤ (lowest spacing) (
    minℤ (highest spacing -ℤ pos width)
      (times (floor_div (times tick 2 -ℤ pos width) (2 * spacing)) spacing))

-- `%` on an integer: zero at a multiple, of either sign.
abbrev pub is_multiple : ℤ → ℕ → Bool
is_multiple (pos n) k = n % k == 0
is_multiple (ℤ.negsuc n) k = (n + 1) % k == 0

-- The range from a lower tick on, if it keeps the limits and contains the tick.
unfoldable pub checked_range : ℤ → ℕ → ℕ → ℕ → ℕ → ℤ → Option LpRange
checked_range tick spacing minimum_width maximum_width width lower_tick =
    let upper_tick = lower_tick +ℤ pos width in
    if ltb width minimum_width
      || ltb maximum_width width
      || not (is_multiple lower_tick spacing)
      || not (is_multiple upper_tick spacing)
      || not (lebℤ lower_tick tick)
      || lebℤ upper_tick tick
    then none
    else some (record { lower_tick = lower_tick; upper_tick = upper_tick })

unfoldable pub bounded_lp_range : LpRebalanceRequest → ℕ → Option LpRange
bounded_lp_range request desired_width =
    let spacing = request.constraints.tick_spacing in
    let tick = request.market_state.current_tick in
    let least = minimum_steps spacing request.constraints.minimum_width_ticks in
    let most = maximum_steps spacing request.constraints.maximum_width_ticks in
    let width = width_steps spacing least most desired_width * spacing in
    if not (leb spacing max_safe_integer)
      || not (leb least max_safe_integer)
      || not (leb most max_safe_integer)
      || ltb most least
      || not (lebℤ (lowest spacing) tick)
      || lebℤ (highest spacing) tick
    then none
    else checked_range tick spacing request.constraints.minimum_width_ticks
        request.constraints.maximum_width_ticks width (lower_tick_of tick spacing width)
