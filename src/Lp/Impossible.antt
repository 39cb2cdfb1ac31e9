-- ===== src/Lp/Impossible.antt =====
-- A request is refused for its range exactly if no range meets it.
use native.Mathlib.Nat.{mod-add-div', le_of_mul-le-mul_right, lt_of_mul-lt-mul_right}
use positioncrew.Prelude.Integers.{
  ℤ, pos, negsuc, pos_part, neg_part, ◌+ℤ◌, ◌-ℤ◌, ◌≤ℤ◌, ◌<ℤ◌, times, floor_div, lebℤ, minℤ,
  +ℤ_parts, -ℤ_parts, times_parts, floor_div-bounds, minℤ-bounds, minℤ-either, le→lebℤ, lt→not-lebℤ,
  lebℤ→le, not-lebℤ→lt,
}
use positioncrew.Prelude.{
  ℕ, ◌+◌, ◌-◌, ◌*◌, ◌/◌, ◌%◌, ◌≤◌, ◌<◌, ◌≡◌, refl, ap, Bool, true, false, not, ◌||◌, some, ltb,
  ◌==◌, arith, Bool-cases, inl, inr, ◌↔◌, not-ltb→le,
}
use positioncrew.Prelude.Numbers.{le-div, lt-div-mul, mul_mono}
use positioncrew.Core.Fixed.Bounds.{ceil_divide-pos, ceil_divide_least}
use positioncrew.Contracts.LpRebalance.{LpRebalanceRequest}
use positioncrew.Lp.Range.{LpRange, highest_steps, highest, lowest, is_multiple}
use positioncrew.Lp.Multiples.{IsMultiple, IsMultiple-tested, upper-IsMultiple}
use positioncrew.Lp.Feasible.{IsRange}
use positioncrew.Lp.Refusal.{range_is_impossible}

not-ltb_of_le : (a b : ℕ) → b ≤ a → ltb a b ≡ false
not-ltb_of_le a b h = ground arith

is_multiple-IsMultiple : (x : ℤ) (s : ℕ) → is_multiple x s ≡ true → IsMultiple x s
is_multiple-IsMultiple (pos n) s h =
    let split = mod-add-div' n s in
    let rest : n % s ≡ 0 = ground arith in record { above = n / s; below = 0; same = omega arith }
is_multiple-IsMultiple (negsuc n) s h =
    let split = mod-add-div' (n + 1) s in
    let rest : (n + 1) % s ≡ 0 = ground arith in
    record { above = 0; below = (n + 1) / s; same = omega arith }

-- A natural difference of multiples is a multiple.
difference_of_multiples : (w a b s : ℕ) → 0 < s → w + b * s ≡ a * s → (k : ℕ) × (w ≡ k * s)
difference_of_multiples w a b s positive h =
    let le : b ≤ a = le_of_mul-le-mul_right (omega arith) positive in
    let split : a ≡ (a - b) + b = omega arith in
    let spread = ap (λ (t : ℕ). t * s) split in (a - b, omega arith)

width_of_multiples :
    (l u : ℤ) (w s : ℕ)
    → 0 < s
    → IsMultiple l s
    → IsMultiple u s
    → u ≡ l +ℤ pos w
    → (k : ℕ) × (w ≡ k * s)
width_of_multiples l u w s positive hl hu e =
    let parts = +ℤ_parts l (pos w) in
    let p : pos_part u ≡ pos_part (l +ℤ pos w) = ap pos_part e in
    let n : neg_part u ≡ neg_part (l +ℤ pos w) = ap neg_part e in
    let el = hl.same in
    let eu = hu.same in
    difference_of_multiples w (hu.above + hl.below) (hu.below + hl.above) s positive (omega arith)

module _ (request : LpRebalanceRequest) (positive : 0 < request.constraints.tick_spacing) where
  abbrev step_width : ℕ
  step_width = request.constraints.tick_spacing

  -- The smallest width that is a multiple of the spacing.
  abbrev least_width : ℕ
  least_width = (request.constraints.minimum_width_ticks + step_width - 1) / step_width * step_width

  IsRange-fits :
      (r : LpRange)
      → IsRange request r
      → (least_width ≤ request.constraints.maximum_width_ticks)
        × (least_width ≤ 2 * (highest_steps step_width * step_width))
        × (lowest step_width ≤ℤ request.market_state.current_tick)
        × (request.market_state.current_tick <ℤ highest step_width)
  IsRange-fits r h =
      let low = is_multiple-IsMultiple r.lower_tick step_width h.lower_aligned in
      let high = is_multiple-IsMultiple r.upper_tick step_width h.upper_aligned in
      let (k, whole) =
        width_of_multiples r.lower_tick r.upper_tick h.width step_width positive low high h.spans in
      let (_, least) =
        ceil_divide_least request.constraints.minimum_width_ticks step_width
          (ceil_divide-pos request.constraints.minimum_width_ticks step_width positive) in
      let wide = h.wide in
      let few = least k (omega arith) in
      let covered = mul_mono _ k step_width step_width few (omega arith) in
      let narrow = h.narrow in
      let parts = +ℤ_parts r.lower_tick (pos h.width) in
      let p : pos_part r.upper_tick ≡ pos_part (r.lower_tick +ℤ pos h.width) =
        ap pos_part h.spans in
      let n : neg_part r.upper_tick ≡ neg_part (r.lower_tick +ℤ pos h.width) =
        ap neg_part h.spans in
      let bottom = h.from_lowest in
      let top = h.to_highest in
      let from = h.from_lower in
      let to = h.to_upper in (omega arith, ground arith, omega arith, omega arith)

  -- The multiple of the spacing at or below the tick, and where the smallest width ends at the top.
  abbrev base_tick : ℤ
  base_tick = times (floor_div request.market_state.current_tick step_width) step_width

  abbrev last_tick : ℤ
  last_tick = highest step_width -ℤ pos least_width

  lowest_base :
      lowest step_width ≤ℤ request.market_state.current_tick
      → (lowest step_width ≤ℤ base_tick)
        × (base_tick ≤ℤ request.market_state.current_tick)
        × (pos_part request.market_state.current_tick + neg_part base_tick
            < pos_part base_tick + step_width + neg_part request.market_state.current_tick)
  lowest_base above =
      let m = floor_div request.market_state.current_tick step_width in
      let q = highest_steps step_width in
      let (under, over) = floor_div-bounds request.market_state.current_tick step_width positive in
      let (p, n) = times_parts m step_width in
      let steps : neg_part m < pos_part m + 1 + q =
        lt_of_mul-lt-mul_right step_width (ground arith) in
      let enough =
        mul_mono (neg_part m) (pos_part m + q) step_width step_width (omega arith) (omega arith) in
      (ground arith, under, over)

  fits-IsRange :
      0 < request.constraints.minimum_width_ticks
      → least_width ≤ request.constraints.maximum_width_ticks
      → least_width ≤ 2 * (highest_steps step_width * step_width)
      → lowest step_width ≤ℤ request.market_state.current_tick
      → request.market_state.current_tick <ℤ highest step_width
      → (r : LpRange) × IsRange request r
  fits-IsRange some_width narrow fits above below =
      let tick = request.market_state.current_tick in
      let s = step_width in
      let w = least_width in
      let k = (request.constraints.minimum_width_ticks + s - 1) / s in
      let enough = lt-div-mul (request.constraints.minimum_width_ticks + s - 1) s positive in
      let one =
        le-div s 1 (request.constraints.minimum_width_ticks + s - 1) positive (omega arith) in
      let wide = mul_mono 1 k s s one (omega arith) in
      let (floor, under, over) = lowest_base above in
      let room_parts = -ℤ_parts (highest s) (pos w) in
      let next = tick -ℤ pos (w - 1) in
      let next_parts = -ℤ_parts tick (pos (w - 1)) in
      let (left, right, greatest) = minℤ-bounds base_tick last_tick in
      let l = minℤ base_tick last_tick in
      let bottom = greatest (lowest s) floor (ground arith) in
      let reached = greatest next (omega arith) (omega arith) in
      let parts = +ℤ_parts l (pos w) in
      let (p, n) = times_parts (floor_div tick s) s in
      let aligned =
        minℤ-either (λ x. IsMultiple x s) base_tick last_tick
          (record {
            above = pos_part (floor_div tick s);
            below = neg_part (floor_div tick s);
            same = omega arith;
          })
          (record { above = highest_steps s; below = k; same = omega arith }) in
      (
        record { lower_tick = l; upper_tick = l +ℤ pos w },
        record {
          width = w;
          spans = refl;
          lower_aligned = IsMultiple-tested l s aligned;
          upper_aligned = IsMultiple-tested (l +ℤ pos w) s (upper-IsMultiple l k s aligned);
          from_lower = omega arith;
          to_upper = omega arith;
          from_lowest = bottom;
          to_highest = omega arith;
          wide = omega arith;
          narrow = narrow;
        },
      )

  abbrev impossible : Bool
  impossible =
      ltb request.constraints.maximum_width_ticks least_width
      || ltb (2 * (highest_steps step_width * step_width)) least_width
      || not (lebℤ (lowest step_width) request.market_state.current_tick)
      || lebℤ (highest step_width) request.market_state.current_tick

  range_is_impossible-made : range_is_impossible request ≡ some impossible
  unfolding range_is_impossible
  range_is_impossible-made =
      let divides : step_width == 0 ≡ false = ground arith in
      let least = ceil_divide-pos request.constraints.minimum_width_ticks step_width positive in
      rw (divides, least) refl

  four_tests :
      (a b c d : Bool)
      → (a || b || not c || d) ≡ false
      → (a ≡ false) × (b ≡ false) × (c ≡ true) × (d ≡ false)
  four_tests a b c d h = ground arith

  four_passed :
      (a b c d : Bool)
      → a ≡ false
      → b ≡ false
      → c ≡ true
      → d ≡ false
      → (a || b || not c || d) ≡ false
  four_passed a b c d p q r t = ground arith

  impossible-none : (r : LpRange) → IsRange request r → impossible ≡ false
  impossible-none r h =
      let (narrow, fits, above, below) = IsRange-fits r h in
      four_passed (ltb request.constraints.maximum_width_ticks least_width)
        (ltb (2 * (highest_steps step_width * step_width)) least_width)
        (lebℤ (lowest step_width) request.market_state.current_tick)
        (lebℤ (highest step_width) request.market_state.current_tick)
        (not-ltb_of_le request.constraints.maximum_width_ticks least_width narrow)
        (not-ltb_of_le (2 * (highest_steps step_width * step_width)) least_width fits)
        (le→lebℤ (lowest step_width) request.market_state.current_tick above)
        (lt→not-lebℤ (highest step_width) request.market_state.current_tick below)

  possible-IsRange :
      0 < request.constraints.minimum_width_ticks
      → impossible ≡ false
      → (r : LpRange) × IsRange request r
  possible-IsRange some_width h =
      let (narrow, fits, above, below) =
        four_tests (ltb request.constraints.maximum_width_ticks least_width)
          (ltb (2 * (highest_steps step_width * step_width)) least_width)
          (lebℤ (lowest step_width) request.market_state.current_tick)
          (lebℤ (highest step_width) request.market_state.current_tick) h in
      fits-IsRange some_width (not-ltb→le _ _ narrow) (not-ltb→le _ _ fits)
        (lebℤ→le (lowest step_width) request.market_state.current_tick above)
        (not-lebℤ→lt (highest step_width) request.market_state.current_tick below)

  -- With a positive spacing and a positive smallest width, the refusal's test of the range is decided,
  -- and says that there is none exactly if no range is aligned, contains the tick, lies within the
  -- ticks of V3 and has a width within the limits.
  pub range_is_impossible_iff :
      0 < request.constraints.minimum_width_ticks
      → (b : Bool) × (range_is_impossible request ≡ some b)
        × ((b ≡ true) ↔ ((r : LpRange) → IsRange request r → ⊥))
  range_is_impossible_iff some_width = (
    impossible,
    range_is_impossible-made,
    (
      λ e r h. let f = impossible-none r h in absurd (ground arith),
      λ none_fits. elim (Bool-cases impossible) [
        | inl e ↦ e
        | inr e ↦ let (r, h) = possible-IsRange some_width e in absurd (none_fits r h)
      ],
    ),
  )
