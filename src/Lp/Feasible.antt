-- ===== src/Lp/Feasible.antt =====
-- The range that is chosen keeps the limits and contains the tick, and one is found.
use positioncrew.Prelude.Integers.{
  ℤ, pos, ◌+ℤ◌, ◌≤ℤ◌, ◌<ℤ◌, lebℤ, +ℤ_parts, -ℤ_parts, le→lebℤ, lt→not-lebℤ,
}
use positioncrew.Prelude.{
  ℕ, ◌+◌, ◌-◌, ◌*◌, ◌/◌, ◌≤◌, ◌<◌, ◌≡◌, refl, true, false, some, leb, ltb, arith, inl, inr,
  Bool-cases, ◌∙◌,
}
use positioncrew.Prelude.Numbers.{div-mul-le, lt-div-mul, mul_mono}
use positioncrew.Contracts.LpRebalance.{LpRebalanceRequest}
use positioncrew.Lp.Range.{
  LpRange, max_safe_integer, highest_steps, highest, lowest, minimum_steps, maximum_steps,
  width_steps, lower_tick_of, is_multiple, checked_range, bounded_lp_range,
}
use positioncrew.Lp.Multiples.{
  IsMultiple-tested, upper-IsMultiple, lower_tick-bounds, lower_tick-IsMultiple,
}

-- A range at multiples of the spacing, within the ticks of V3, that contains the tick and has a width
-- within the limits.
pub record IsRange (request : LpRebalanceRequest) (r : LpRange) : Type 0 where
  pub width : ℕ
  pub spans : r.upper_tick ≡ r.lower_tick +ℤ pos width
  pub lower_aligned : is_multiple r.lower_tick request.constraints.tick_spacing ≡ true
  pub upper_aligned : is_multiple r.upper_tick request.constraints.tick_spacing ≡ true
  pub from_lower : r.lower_tick ≤ℤ request.market_state.current_tick
  pub to_upper : request.market_state.current_tick <ℤ r.upper_tick
  pub from_lowest : lowest request.constraints.tick_spacing ≤ℤ r.lower_tick
  pub to_highest : r.upper_tick ≤ℤ highest request.constraints.tick_spacing
  pub wide : request.constraints.minimum_width_ticks ≤ width
  pub narrow : width ≤ request.constraints.maximum_width_ticks

width_steps-bounds :
    (spacing least most desired : ℕ)
    → least ≤ most
    → (least ≤ width_steps spacing least most desired)
      × (width_steps spacing least most desired ≤ most)
unfolding width_steps
width_steps-bounds spacing least most desired h = (ground arith, ground arith)

minimum_steps-wide :
    (spacing width : ℕ) → 0 < spacing → width ≤ minimum_steps spacing width * spacing
unfolding minimum_steps
minimum_steps-wide spacing width h =
    let enough = lt-div-mul (width + spacing - 1) spacing h in
    elim (Bool-cases (leb 1 ((width + spacing - 1) / spacing))) [
      | inl some_steps ↦ rw some_steps (omega arith)
      | inr no_steps ↦
          let few : (width + spacing - 1) / spacing ≤ 0 = ground arith in
          let nothing_left =
            mul_mono ((width + spacing - 1) / spacing) 0 spacing spacing few (omega arith) in
          rw no_steps (omega arith)
    ]

maximum_steps-narrow :
    (spacing width : ℕ)
    → 0 < spacing
    → (maximum_steps spacing width * spacing ≤ width)
      × (maximum_steps spacing width ≤ 2 * highest_steps spacing)
unfolding maximum_steps
maximum_steps-narrow spacing width h =
    let most = div-mul-le width spacing in
    elim (Bool-cases (leb (width / spacing) (2 * highest_steps spacing))) [
      | inl few ↦ rw few (omega arith, ground arith)
      | inr many ↦
          let fewer : 2 * highest_steps spacing ≤ width / spacing = ground arith in
          let shorter =
            mul_mono (2 * highest_steps spacing) (width / spacing) spacing spacing fewer
              (omega arith) in
          rw many (omega arith, omega arith)
    ]

module _ (request : LpRebalanceRequest) (desired : ℕ) where
  abbrev pub spacing_of : ℕ
  spacing_of = request.constraints.tick_spacing

  abbrev pub least_of : ℕ
  least_of = minimum_steps spacing_of request.constraints.minimum_width_ticks

  abbrev pub most_of : ℕ
  most_of = maximum_steps spacing_of request.constraints.maximum_width_ticks

  abbrev pub steps_of : ℕ
  steps_of = width_steps spacing_of least_of most_of desired

  checked_range-found :
      (tick l : ℤ) (spacing minimum_width maximum_width width : ℕ)
      → minimum_width ≤ width
      → width ≤ maximum_width
      → is_multiple l spacing ≡ true
      → is_multiple (l +ℤ pos width) spacing ≡ true
      → l ≤ℤ tick
      → tick <ℤ l +ℤ pos width
      → checked_range tick spacing minimum_width maximum_width width l
        ≡ some (record { lower_tick = l; upper_tick = l +ℤ pos width })
  unfolding checked_range lebℤ
  checked_range-found tick l spacing minimum_width maximum_width width wide narrow low high from
        to =
      let a : ltb width minimum_width ≡ false = ground arith in
      let b : ltb maximum_width width ≡ false = ground arith in
      let c : lebℤ l tick ≡ true = ground arith in
      let d : lebℤ (l +ℤ pos width) tick ≡ false = ground arith in
      rw (checked_range, a, b, low, high, c, d) refl

  -- The guards pass, and the rest is the checked range.
  bounded_lp_range-passes :
      0 < spacing_of
      → least_of ≤ most_of
      → lowest spacing_of ≤ℤ request.market_state.current_tick
      → request.market_state.current_tick <ℤ highest spacing_of
      → 2 ≤ most_of
      → bounded_lp_range request desired
        ≡ checked_range request.market_state.current_tick spacing_of
            request.constraints.minimum_width_ticks request.constraints.maximum_width_ticks
            (steps_of * spacing_of)
            (lower_tick_of request.market_state.current_tick spacing_of (steps_of * spacing_of))
  unfolding bounded_lp_range lebℤ
  bounded_lp_range-passes positive feasible above below several =
      let (_, fits) =
        maximum_steps-narrow spacing_of request.constraints.maximum_width_ticks positive in
      let q = highest_steps spacing_of in
      let within = div-mul-le 887_272 spacing_of in
      let one = mul_mono 1 q spacing_of spacing_of (omega arith) (omega arith) in
      let few = mul_mono q q 1 spacing_of (omega arith) positive in
      let a : leb spacing_of max_safe_integer ≡ true = ground arith in
      let b : leb least_of max_safe_integer ≡ true = ground arith in
      let c : leb most_of max_safe_integer ≡ true = ground arith in
      let d : ltb most_of least_of ≡ false = ground arith in
      let e : lebℤ (lowest spacing_of) request.market_state.current_tick ≡ true =
        le→lebℤ (lowest spacing_of) request.market_state.current_tick above in
      let f : lebℤ (highest spacing_of) request.market_state.current_tick ≡ false =
        lt→not-lebℤ (highest spacing_of) request.market_state.current_tick below in
      rw (bounded_lp_range, a, b, c, d, e, f) refl

  -- A range is found when the widths leave a whole number of steps between them, the tick lies within
  -- the ticks of V3 at that spacing, and the width that is chosen has two steps or more. The range is
  -- aligned, contains the tick and has a width within the limits.
  pub bounded_lp_range-found :
      0 < spacing_of
      → least_of ≤ most_of
      → lowest spacing_of ≤ℤ request.market_state.current_tick
      → request.market_state.current_tick <ℤ highest spacing_of
      → 2 ≤ steps_of
      → (r : LpRange) × (bounded_lp_range request desired ≡ some r) × IsRange request r
  bounded_lp_range-found positive feasible above below several =
      let tick = request.market_state.current_tick in
      let spacing = spacing_of in
      let width = steps_of * spacing in
      let l = lower_tick_of tick spacing width in
      let (enough, most) = width_steps-bounds spacing least_of most_of desired feasible in
      let (narrow, fits) =
        maximum_steps-narrow spacing request.constraints.maximum_width_ticks positive in
      let least = minimum_steps-wide spacing request.constraints.minimum_width_ticks positive in
      let wider = mul_mono least_of steps_of spacing spacing enough (omega arith) in
      let narrower = mul_mono steps_of most_of spacing spacing most (omega arith) in
      let (bottom, from, over, top) =
        lower_tick-bounds tick spacing steps_of positive several (omega arith) above below in
      let lower = lower_tick-IsMultiple tick spacing steps_of positive in
      let low = IsMultiple-tested l spacing lower in
      let high =
        IsMultiple-tested (l +ℤ pos width) spacing (upper-IsMultiple l steps_of spacing lower) in
      let parts = +ℤ_parts l (pos width) in
      let room_parts = -ℤ_parts (highest spacing) (pos width) in
      let to : tick <ℤ l +ℤ pos width = omega arith in
      let found =
        checked_range-found tick l spacing request.constraints.minimum_width_ticks
          request.constraints.maximum_width_ticks width (omega arith) (omega arith) low high from
          to in
      let passes = bounded_lp_range-passes positive feasible above below (omega arith) in
      (
        record { lower_tick = l; upper_tick = l +ℤ pos width },
        passes ∙ found,
        record {
          width = width;
          spans = refl;
          lower_aligned = low;
          upper_aligned = high;
          from_lower = from;
          to_upper = to;
          from_lowest = bottom;
          to_highest = omega arith;
          wide = omega arith;
          narrow = omega arith;
        },
      )
