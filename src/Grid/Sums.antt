-- ===== src/Grid/Sums.antt =====
-- Sums over the rows of a cycle: they do not depend on the matching nor on the order of the rows.
use positioncrew.Prelude.{
  ℕ, ◌+◌, ◌-◌, ◌*◌, ◌/◌, ◌≤◌, ◌<◌, ◌≡◌, refl, false, some, List, [], ◌∷◌, ◌++◌, ◌==◌, arith,
}
use positioncrew.Prelude.Numbers.{div_mono, mul_mono}
use positioncrew.Prelude.Sort.{sort}
use positioncrew.Core.Fixed.{fixed_scale, minimum}
use positioncrew.Core.Fixed.Bounds.{ceil_divide-pos}
use positioncrew.Contracts.BoundedGrid.{Side, buy, sell}
use positioncrew.Grid.Cycle.{
  CycleRow, better_buy, better_sell, with_head, match_rows, match_orders, CycleSums, add_row,
  add_cycle, settle,
}
use positioncrew.Grid.Matching.{total, total-sort, buys_of, sells_of}

-- A quotient rounded up.
abbrev pub ceil_of : ℕ → ℕ → ℕ
ceil_of n d = (n + d - 1) / d

pub ceil_of_mono : (a b d : ℕ) → 0 < d → a ≤ b → ceil_of a d ≤ ceil_of b d
ceil_of_mono a b d p h = div_mono (a + d - 1) (b + d - 1) d p (omega arith)

-- What a row adds, of its price and its amount.
abbrev pub of_row : (ℕ → ℕ → ℕ) → CycleRow → ℕ
of_row g r = g r.price r.amount

module _ (g : ℕ → ℕ → ℕ) where
  total-with_head :
      (rows : List CycleRow) (m : ℕ) → total (of_row g) (with_head rows m) ≡ total (of_row g) rows
  total-with_head [] m = refl
  total-with_head (r ∷ rows) m = refl

  total-match_rows :
      (buys : List CycleRow) (m : ℕ) (sells : List CycleRow) (n : ℕ)
      → (total (of_row g) (match_rows buys m sells n).0 ≡ total (of_row g) buys)
        × (total (of_row g) (match_rows buys m sells n).1 ≡ total (of_row g) sells)
  unfolding match_rows
  total-match_rows [] m sells n = (refl, total-with_head sells n)
  total-match_rows (bid ∷ buys) m [] n = (refl, refl)
  total-match_rows (bid ∷ buys) m (ask ∷ sells) n =
      let q = minimum (bid.amount - m) (ask.amount - n) in
      let both = total-match_rows buys 0 sells 0 in
      let bought = total-match_rows buys 0 (ask ∷ sells) (n + q) in
      let sold = total-match_rows (bid ∷ buys) (m + q) sells 0 in
      (ground (arith, both.0, bought.0, sold.0), ground (arith, both.1, bought.1, sold.1))

  total-sides :
      (rows : List CycleRow)
      → total (of_row g) (buys_of rows) + total (of_row g) (sells_of rows) ≡ total (of_row g) rows
  total-sides [] = refl
  total-sides (r ∷ rows) = ground (arith, total-sides rows)

  total-append :
      (xs ys : List CycleRow)
      → total (of_row g) (xs ++ ys) ≡ total (of_row g) xs + total (of_row g) ys
  total-append [] ys = omega arith
  total-append (x ∷ xs) ys = omega (arith, total-append xs ys)

  pub total-match_orders :
      (rows : List CycleRow)
      → total (of_row g) ((match_orders rows).0 ++ (match_orders rows).1) ≡ total (of_row g) rows
  unfolding match_orders
  total-match_orders rows =
      let buys = sort better_buy (buys_of rows) in
      let sells = sort better_sell (sells_of rows) in
      let (b, s) = total-match_rows buys 0 sells 0 in
      omega (
        arith,
        total-append (match_rows buys 0 sells 0).0 (match_rows buys 0 sells 0).1,
        b,
        s,
        total-sort (of_row g) better_buy (buys_of rows),
        total-sort (of_row g) better_sell (sells_of rows),
        total-sides rows,
      )

module _ (quantum : ℕ) where
  -- The notional of a row, and a charge on it, in whole quanta.
  abbrev pub notional_of : ℕ → ℕ → ℕ
  notional_of price amount = ceil_of (price * amount) (fixed_scale * quantum) * quantum

  abbrev pub charge_of : ℕ → ℕ → ℕ → ℕ
  charge_of bps price amount = ceil_of (notional_of price amount * bps) (10_000 * quantum) * quantum

  pub notional_of_mono : (p a b : ℕ) → 0 < quantum → a ≤ b → notional_of p a ≤ notional_of p b
  notional_of_mono p a b pos h =
      mul_mono (ceil_of (p * a) (fixed_scale * quantum)) (ceil_of (p * b) (fixed_scale * quantum))
        quantum quantum
        (ceil_of_mono (p * a) (p * b) (fixed_scale * quantum) (omega arith)
          (mul_mono p p a b (omega arith) h))
        (omega arith)

  pub charge_of_mono : (bps p a b : ℕ) → 0 < quantum → a ≤ b → charge_of bps p a ≤ charge_of bps p b
  charge_of_mono bps p a b pos h =
      mul_mono (ceil_of (notional_of p a * bps) (10_000 * quantum))
        (ceil_of (notional_of p b * bps) (10_000 * quantum)) quantum quantum
        (ceil_of_mono (notional_of p a * bps) (notional_of p b * bps) (10_000 * quantum)
          (omega arith)
          (mul_mono (notional_of p a) (notional_of p b) bps bps (notional_of_mono p a b pos h)
            (omega arith)))
        (omega arith)

module _ (quantum fee_bps slippage_bps : ℕ) where
  -- What a row adds to the sums; it throws nothing.
  pub record Adds (s : CycleSums) (rows : List CycleRow) (t : CycleSums) : Type 0 where
    pub notional : t.charge_notional ≡ s.charge_notional + total (of_row (notional_of quantum)) rows
    pub fees : t.fees ≡ s.fees + total (of_row (charge_of quantum fee_bps)) rows
    pub slippage : t.slippage ≡ s.slippage + total (of_row (charge_of quantum slippage_bps)) rows

  settled :
      (side : Side) (numerator : ℕ) (s : CycleSums)
      → 0 < quantum
      → (t : CycleSums) × (settle quantum fee_bps slippage_bps side numerator s ≡ some t)
        × (t.charge_notional ≡ s.charge_notional)
        × (t.fees ≡ s.fees)
        × (t.slippage ≡ s.slippage)
  settled buy numerator s pos =
      let paid = ceil_divide-pos numerator (fixed_scale * quantum) (omega arith) in
      (
        record s { debits = s.debits + ceil_of numerator (fixed_scale * quantum) * quantum },
        rw paid refl,
        refl,
        refl,
        refl,
      )
  settled sell numerator s pos =
      let whole : fixed_scale * quantum == 0 ≡ false = ground arith in
      (
        record s { credits = s.credits + numerator / (fixed_scale * quantum) * quantum },
        rw whole refl,
        refl,
        refl,
        refl,
      )

  add_row-Adds :
      (r : CycleRow) (s : CycleSums)
      → 0 < quantum
      → (t : CycleSums) × (add_row quantum fee_bps slippage_bps r s ≡ some t) × Adds s (r ∷ []) t
  unfolding add_row
  add_row-Adds r s pos =
      let (t, made, notional, fees, slippage) = settled r.side (r.price * r.matched) s pos in
      let units = ceil_divide-pos (r.price * r.amount) (fixed_scale * quantum) (omega arith) in
      let charge = λ (bps : ℕ).
        ceil_divide-pos (notional_of quantum r.price r.amount * bps) (10_000 * quantum)
          (omega arith) in
      (
        record t {
          charge_notional = t.charge_notional + notional_of quantum r.price r.amount;
          fees = t.fees + charge_of quantum fee_bps r.price r.amount;
          slippage = t.slippage + charge_of quantum slippage_bps r.price r.amount;
        },
        rw (made, units, charge fee_bps, charge slippage_bps) refl,
        record { notional = omega arith; fees = omega arith; slippage = omega arith },
      )

  pub add_cycle-Adds :
      (rows : List CycleRow) (s : CycleSums)
      → 0 < quantum
      → (t : CycleSums) × (add_cycle quantum fee_bps slippage_bps rows s ≡ some t) × Adds s rows t
  unfolding add_cycle
  add_cycle-Adds [] s pos =
      (s, refl, record { notional = omega arith; fees = omega arith; slippage = omega arith })
  add_cycle-Adds (r ∷ rows) s pos =
      let (t, made, a) = add_row-Adds r s pos in
      let (u, rest, b) = add_cycle-Adds rows t pos in
      (
        u,
        rw (made, rest) refl,
        record {
          notional = omega (arith, a.notional, b.notional);
          fees = omega (arith, a.fees, b.fees);
          slippage = omega (arith, a.slippage, b.slippage);
        },
      )
