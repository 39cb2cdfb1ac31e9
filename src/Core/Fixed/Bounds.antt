-- ===== src/Core/Fixed/Bounds.antt =====
-- What the rounding of each operation in src/core/fixed.ts guarantees.
use native.Mathlib.Nat.{mul-div-mul_right, mul-div_cancel}
use positioncrew.Prelude.{ℕ, suc, ◌+◌, ◌-◌, ◌*◌, ◌/◌, ◌^◌, ◌≤◌, ◌<◌, ◌≡◌, ap, ◌∙◌, arith, some, sym}
use positioncrew.Prelude.Numbers.{div-mul-le, lt-div-mul, le-div, div-lt, mul-le_of_le-div}
use positioncrew.Core.Fixed.{
  fixed_scale, multiply_fixed, divide_fixed, ceil_divide, token_base_units_for_usd,
  fixed_token_amount_from_base_units,
}
use positioncrew.Core.Fixed.Digits.{pow-ten-pos, pow-ten-add}

pub ceil_divide-pos : (n d : ℕ) → 0 < d → ceil_divide n d ≡ some ((n + d - 1) / d)
unfolding ceil_divide
ceil_divide-pos n d p = ground arith

-- A rounded-up quotient is the least number whose product with the denominator reaches the
-- numerator.
pub ceil_divide_least :
    (n d : ℕ) {k : ℕ} → ceil_divide n d ≡ some k → (n ≤ k * d) × ((j : ℕ) → n ≤ j * d → k ≤ j)
unfolding ceil_divide
ceil_divide_least n d {k} e =
    let p : 0 < d = ground arith in
    let value : k ≡ (n + d - 1) / d = ground arith in
    rw value (
      omega (arith, lt-div-mul (n + d - 1) d p),
      λ j h. omega (arith, div-lt d (n + d - 1) (suc j) p (omega arith)),
    )

-- A fixed-point quotient is the greatest number whose product with the denominator stays within
-- the scaled numerator.
pub divide_fixed_greatest :
    (n d : ℕ) {q : ℕ}
    → divide_fixed n d ≡ some q
    → (q * d ≤ n * fixed_scale) × ((j : ℕ) → j * d ≤ n * fixed_scale → j ≤ q)
unfolding divide_fixed
divide_fixed_greatest n d {q} e =
    let p : 0 < d = ground arith in
    let value : q ≡ n * fixed_scale / d = ground arith in
    rw value (div-mul-le (n * fixed_scale) d, λ j h. le-div d j (n * fixed_scale) p h)

pub divide_fixed-pos : (n d : ℕ) → 0 < d → divide_fixed n d ≡ some (n * fixed_scale / d)
unfolding divide_fixed
divide_fixed-pos n d p = ground arith

-- With at most 18 decimals a token amount is scaled exactly.
pub token_amount_exact :
    (b k : ℕ) → k ≤ 18 → fixed_token_amount_from_base_units b k ≡ b * 10 ^ (18 - k)
unfolding fixed_token_amount_from_base_units
token_amount_exact b k h =
    let e : k + (18 - k) ≡ 18 = omega arith in
    let split : b * 10 ^ (18 - k) * 10 ^ k ≡ b * fixed_scale =
      omega (arith, ap (λ t. b * t) (ap (λ t. 10 ^ t) (sym e) ∙ pow-ten-add k (18 - k))) in
    ap (λ t. t / 10 ^ k) (sym split) ∙ mul-div_cancel (b * 10 ^ (18 - k)) (pow-ten-pos k)

-- So its value at a price is one division of the base units times the price.
pub worth_lem :
    (b k p : ℕ)
    → k ≤ 18
    → multiply_fixed (fixed_token_amount_from_base_units b k) p ≡ b * p / 10 ^ k
unfolding multiply_fixed
worth_lem b k p h =
    let e : k + (18 - k) ≡ 18 = omega arith in
    let split : 10 ^ k * 10 ^ (18 - k) ≡ fixed_scale =
      sym (pow-ten-add k (18 - k)) ∙ ap (λ t. 10 ^ t) e in
    let regroup : b * 10 ^ (18 - k) * p ≡ b * p * 10 ^ (18 - k) = omega arith in
    rw (token_amount_exact b k h, regroup, ← split)
      (mul-div-mul_right (b * p) (10 ^ k) (pow-ten-pos (18 - k)))

pub token_base_units-eq-some :
    (u p k : ℕ) {b : ℕ}
    → token_base_units_for_usd u p k ≡ some b
    → (0 < p) × (ceil_divide (u * 10 ^ k) p ≡ some b)
unfolding token_base_units_for_usd ceil_divide
token_base_units-eq-some u p k e = ground arith

-- The base units that a sum buys: the least number of them that is worth at least the sum.
pub token_base_units_least :
    (u p k : ℕ) {b : ℕ}
    → k ≤ 18
    → token_base_units_for_usd u p k ≡ some b
    → (u ≤ multiply_fixed (fixed_token_amount_from_base_units b k) p)
      × ((c : ℕ) → u ≤ multiply_fixed (fixed_token_amount_from_base_units c k) p → b ≤ c)
token_base_units_least u p k {b} h e =
    let (_, quotient) = token_base_units-eq-some u p k e in
    let (reach, least) = ceil_divide_least (u * 10 ^ k) p quotient in
    (
      rw (worth_lem b k p h) (le-div (10 ^ k) u (b * p) (pow-ten-pos k) reach),
      λ c w.
          least c
            (mul-le_of_le-div (10 ^ k) u (c * p) (pow-ten-pos k) (rw (worth_lem c k p h) at w)),
    )

pub token_base_units-pos : (u p k : ℕ) → 0 < p → (b : ℕ) × (token_base_units_for_usd u p k ≡ some b)
unfolding token_base_units_for_usd ceil_divide
token_base_units-pos u p k h = ((u * 10 ^ k + p - 1) / p, ground arith)
