-- ===== src/Yield/Rate.antt =====
-- The current rate of a portfolio.
use positioncrew.Prelude.{
  ℕ, ◌+◌, ◌*◌, ◌/◌, ◌≤◌, ◌<◌, ◌≡◌, refl, ap, false, List, [], ◌∷◌, arith, ◌==◌, All,
}
use positioncrew.Prelude.Numbers.{le-div, div-mul-le, lt-div-mul, mul_mono}
use native.Mathlib.Nat.{le_of_mul-le-mul_right}
use positioncrew.Yield.{Holding, current_weighted_apy, sum_of}

-- What is held in all.
abbrev pub total_amount : List Holding → ℕ
total_amount [] = 0
total_amount (h ∷ hs) = h.amount + total_amount hs

-- The rates, each times the amount that earns it.
abbrev pub weighted_amount : List Holding → ℕ
weighted_amount [] = 0
weighted_amount (h ∷ hs) = h.amount * h.gross_apy_bps + weighted_amount hs

sum_of-total :
    (positions : List Holding)
    → sum_of (λ (h : Holding). h.amount) positions ≡ total_amount positions
sum_of-total [] = refl
sum_of-total (p ∷ positions) = ap (λ n. p.amount + n) (sum_of-total positions)

sum_of-weighted :
    (positions : List Holding)
    → sum_of (λ (h : Holding). h.amount * h.gross_apy_bps) positions ≡ weighted_amount positions
sum_of-weighted [] = refl
sum_of-weighted (p ∷ positions) =
    ap (λ n. p.amount * p.gross_apy_bps + n) (sum_of-weighted positions)

module _ (least most : ℕ) where
  abbrev pub HasRate : Holding → Type 0
  HasRate h = (least ≤ h.gross_apy_bps) × (h.gross_apy_bps ≤ most)

  weighted-bounds :
      (positions : List Holding)
      → All HasRate positions
      → (least * total_amount positions ≤ weighted_amount positions)
        × (weighted_amount positions ≤ most * total_amount positions)
  weighted-bounds [] h = (omega arith, omega arith)
  weighted-bounds (p ∷ positions) h =
      let (low, high) = weighted-bounds positions h.1 in
      let from = mul_mono p.amount p.amount least p.gross_apy_bps (omega arith) h.0.0 in
      let to = mul_mono p.amount p.amount p.gross_apy_bps most (omega arith) h.0.1 in
      (grind arith, grind arith)

-- The rate of what is held is the weighted sum over the total, rounded down.
current_weighted_apy-eq :
    (positions : List Holding)
    → 0 < total_amount positions
    → current_weighted_apy positions ≡ weighted_amount positions / total_amount positions
unfolding current_weighted_apy
current_weighted_apy-eq positions positive =
    let held : (total_amount positions == 0) ≡ false = ground arith in
    rw (sum_of-total positions, sum_of-weighted positions, held) refl

-- Where something is held and every position's rate is between two bounds, the current rate is the
-- mean of the rates weighted by the amounts and rounded down: times the total it is at most the sum
-- of the rates times their amounts, which is below the next rate times the total. So it is between
-- the two bounds.
pub current_weighted_apy-bounds :
    (least most : ℕ) (positions : List Holding)
    → All (HasRate least most) positions
    → 0 < total_amount positions
    → (current_weighted_apy positions * total_amount positions ≤ weighted_amount positions)
      × (weighted_amount positions < (current_weighted_apy positions + 1) * total_amount positions)
      × (least ≤ current_weighted_apy positions)
      × (current_weighted_apy positions ≤ most)
current_weighted_apy-bounds least most positions h positive =
    let total = total_amount positions in
    let weighted = weighted_amount positions in
    let (low, high) = weighted-bounds least most positions h in
    let product : weighted / total * total ≤ most * total =
      omega (arith, div-mul-le weighted total, high) in
    let above : weighted < weighted / total * total + total = lt-div-mul weighted total positive in
    rw (current_weighted_apy-eq positions positive) (
      div-mul-le weighted total,
      omega (arith, above),
      le-div total least weighted positive low,
      le_of_mul-le-mul_right product positive,
    )
