-- ===== src/Lp/Multiples.antt =====
-- Where the lower tick of a range stands, and that it is a multiple of the spacing.
use positioncrew.Prelude.Integers.{
  ℤ, pos, negsuc, pos_part, neg_part, ◌+ℤ◌, ◌-ℤ◌, ◌≤ℤ◌, ◌<ℤ◌, times, floor_div, minℤ, +ℤ_parts,
  -ℤ_parts, times_parts, floor_div-bounds, minℤ-bounds, maxℤ-bounds, minℤ-either, maxℤ-either,
}
use positioncrew.Prelude.{ℕ, ◌+◌, ◌-◌, ◌*◌, ◌%◌, ◌≤◌, ◌<◌, ◌≡◌, refl, true, arith, sym, ap, ◌∙◌}
use native.Mathlib.Nat.{add-mul-mod_self_right, mul-mod_left}
use positioncrew.Prelude.Numbers.{mul_mono}
use positioncrew.Lp.Range.{highest_steps, highest, lowest, lower_tick_of, is_multiple}

-- An integer that is a multiple of the spacing.
pub record IsMultiple (x : ℤ) (spacing : ℕ) : Type 0 where
  pub above : ℕ
  pub below : ℕ
  pub same : pos_part x + below * spacing ≡ neg_part x + above * spacing

module _ (tick : ℤ) (spacing steps : ℕ) (positive : 0 < spacing) where
  -- The parts of the floor of the source, over twice the spacing.
  floor_lower-bounds :
      (l : ℤ)
      → l ≡ times (floor_div (times tick 2 -ℤ pos (steps * spacing)) (2 * spacing)) spacing
      → (pos_part l + pos_part l + steps * spacing + neg_part tick + neg_part tick
          ≤ pos_part tick + pos_part tick + neg_part l + neg_part l)
        × (pos_part tick + pos_part tick + neg_part l + neg_part l
            < pos_part l
              + pos_part l
              + steps * spacing
              + 2 * spacing
              + neg_part tick
              + neg_part tick)
  floor_lower-bounds l e =
      let d = times tick 2 -ℤ pos (steps * spacing) in
      let m = floor_div d (2 * spacing) in
      let (below, above) = floor_div-bounds d (2 * spacing) (omega arith) in
      let (p₂, n₂) = times_parts m (2 * spacing) in
      let (p₁, n₁) = times_parts m spacing in
      let (pt, nt) = times_parts tick 2 in
      let parts = -ℤ_parts (times tick 2) (pos (steps * spacing)) in
      let lp : pos_part l ≡ pos_part m * spacing = rw e p₁ in
      let ln : neg_part l ≡ neg_part m * spacing = rw e n₁ in (omega arith, omega arith)

  abbrev pub room : ℤ
  room = highest spacing -ℤ pos (steps * spacing)

  abbrev aligned : ℤ
  aligned = times (floor_div (times tick 2 -ℤ pos (steps * spacing)) (2 * spacing)) spacing

  pub lower_tick-bounds :
      2 ≤ steps
      → steps ≤ 2 * highest_steps spacing
      → lowest spacing ≤ℤ tick
      → tick <ℤ highest spacing
      → (lowest spacing ≤ℤ lower_tick_of tick spacing (steps * spacing))
        × (lower_tick_of tick spacing (steps * spacing) ≤ℤ tick)
        × (pos_part tick + neg_part (lower_tick_of tick spacing (steps * spacing))
            < pos_part (lower_tick_of tick spacing (steps * spacing))
              + steps * spacing
              + neg_part tick)
        × (lower_tick_of tick spacing (steps * spacing) ≤ℤ room)
  unfolding lower_tick_of
  lower_tick-bounds several fits above below =
      let (under, over) = floor_lower-bounds aligned refl in
      let wide = mul_mono 2 steps spacing spacing several (omega arith) in
      let room_parts = -ℤ_parts (highest spacing) (pos (steps * spacing)) in
      let whole = mul_mono steps (2 * highest_steps spacing) spacing spacing fits (omega arith) in
      let (min_left, min_right, min_greatest) = minℤ-bounds room aligned in
      let (max_left, max_right, max_least) = maxℤ-bounds (lowest spacing) (minℤ room aligned) in
      let next = tick -ℤ pos (steps * spacing - 1) in
      let next_parts = -ℤ_parts tick (pos (steps * spacing - 1)) in
      let reached = min_greatest next (omega arith) (omega arith) in
      (
        max_left,
        max_least tick above (omega arith),
        omega arith,
        max_least room (ground arith) min_left,
      )

  lowest-IsMultiple : IsMultiple (lowest spacing) spacing
  lowest-IsMultiple = record { above = 0; below = highest_steps spacing; same = ground arith }

  pub lower_tick-IsMultiple : IsMultiple (lower_tick_of tick spacing (steps * spacing)) spacing
  unfolding lower_tick_of
  lower_tick-IsMultiple =
      let m = floor_div (times tick 2 -ℤ pos (steps * spacing)) (2 * spacing) in
      let (p, n) = times_parts m spacing in
      let room_parts = -ℤ_parts (highest spacing) (pos (steps * spacing)) in
      maxℤ-either (λ x. IsMultiple x spacing) (lowest spacing) (minℤ room aligned) lowest-IsMultiple
        (minℤ-either (λ x. IsMultiple x spacing) room aligned
          (record { above = highest_steps spacing; below = steps; same = omega arith })
          (record { above = pos_part m; below = neg_part m; same = omega arith }))

pub upper-IsMultiple :
    (l : ℤ) (steps spacing : ℕ)
    → IsMultiple l spacing
    → IsMultiple (l +ℤ pos (steps * spacing)) spacing
upper-IsMultiple l steps spacing h =
    let parts = +ℤ_parts l (pos (steps * spacing)) in
    let e = h.same in record { above = h.above + steps; below = h.below; same = omega arith }

pub IsMultiple-tested : (x : ℤ) (spacing : ℕ) → IsMultiple x spacing → is_multiple x spacing ≡ true
IsMultiple-tested (pos n) spacing h =
    let a = add-mul-mod_self_right n h.below spacing in
    let b = mul-mod_left h.above spacing in
    let e : n + h.below * spacing ≡ h.above * spacing = omega (arith, h.same) in
    let zero_left : n % spacing ≡ 0 = sym a ∙ ap (λ (t : ℕ). t % spacing) e ∙ b in ground arith
IsMultiple-tested (negsuc n) spacing h =
    let a = add-mul-mod_self_right (n + 1) h.above spacing in
    let b = mul-mod_left h.below spacing in
    let e : n + 1 + h.above * spacing ≡ h.below * spacing = omega (arith, h.same) in
    let zero_left : (n + 1) % spacing ≡ 0 = sym a ∙ ap (λ (t : ℕ). t % spacing) e ∙ b in
    ground arith
