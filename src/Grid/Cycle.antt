-- ===== src/Grid/Cycle.antt =====
-- src/core/grid-cycle-economics.ts: one cycle of a grid, its buys matched with its sells from the
-- middle outwards. The rows of the source are shared between its lists; here each list of rows is
-- walked once, and the sums, which do not depend on the order, are taken over both lists.
use positioncrew.Prelude.{
  ℕ, ◌+◌, ◌-◌, ◌*◌, ◌^◌, Bool, true, false, ◌&&◌, ◌||◌, Option, some, List, [], ◌∷◌, ◌++◌, ltb, leb,
  ◌==◌, if◌then◌else◌, filter,
}
use positioncrew.Prelude.Sort.{sort}
use positioncrew.Prelude.Throws.{◌>>=◌, ◌>>◌, guard, each, big_div}
use positioncrew.Core.Fixed.{fixed_scale, parse_fixed, ceil_divide, minimum}
use positioncrew.Contracts.BoundedGrid.{Side, buy, sell, GridOrder}

pub record CycleRow : Type 0 where
  pub side : Side
  pub price : ℕ
  pub amount : ℕ
  pub matched : ℕ

unfoldable pub row_of : GridOrder → Option CycleRow
row_of o = do
  price ← parse_fixed o.price
  amount ← parse_fixed o.base_amount
  some (record { side = o.side; price = price; amount = amount; matched = 0 })

abbrev pub is_buy : Side → Bool
is_buy buy = true
is_buy sell = false

abbrev pub is_sell : Side → Bool
is_sell buy = false
is_sell sell = true

-- The comparisons: the best price first, then the smaller amount.
abbrev pub better_buy : CycleRow → CycleRow → Bool
better_buy a b = ltb b.price a.price || a.price == b.price && leb a.amount b.amount

abbrev pub better_sell : CycleRow → CycleRow → Bool
better_sell a b = ltb a.price b.price || a.price == b.price && leb a.amount b.amount

abbrev pub with_matched : CycleRow → ℕ → CycleRow
with_matched row m = record row { matched = m }

abbrev pub Matched : Type 0
Matched = List CycleRow × List CycleRow

abbrev pub add_buy : CycleRow → Matched → Matched
add_buy row (buys, sells) = (row ∷ buys, sells)

abbrev pub add_sell : CycleRow → Matched → Matched
add_sell row (buys, sells) = (buys, row ∷ sells)

-- The rows where the loop ends, the first of them with what it has matched.
abbrev pub with_head : List CycleRow → ℕ → List CycleRow
with_head [] m = []
with_head (row ∷ rows) m = with_matched row m ∷ rows

-- The `while` loop, given what the first row of each list has matched so far. The smaller remainder
-- is matched, so that a round fills one of the two rows, or both: the last case does not arise.
unfoldable pub match_rows : List CycleRow → ℕ → List CycleRow → ℕ → Matched
match_rows [] m sells n = ([], with_head sells n)
match_rows (bid ∷ buys) m [] n = (with_matched bid m ∷ buys, [])
match_rows (bid ∷ buys) m (ask ∷ sells) n =
    let quantity = minimum (bid.amount - m) (ask.amount - n) in
    elim (m + quantity == bid.amount) [
      | true ↦ elim (n + quantity == ask.amount) [
        | true ↦
            add_buy (with_matched bid (m + quantity))
              (add_sell (with_matched ask (n + quantity)) (match_rows buys 0 sells 0))
        | false ↦
            add_buy (with_matched bid (m + quantity))
              (match_rows buys 0 (ask ∷ sells) (n + quantity))
      ]
      | false ↦ elim (n + quantity == ask.amount) [
        | true ↦
            add_sell (with_matched ask (n + quantity))
              (match_rows (bid ∷ buys) (m + quantity) sells 0)
        | false ↦ (with_matched bid (m + quantity) ∷ buys, with_matched ask (n + quantity) ∷ sells)
      ]
    ]

pub record CycleSums : Type 0 where
  pub debits : ℕ
  pub credits : ℕ
  pub charge_notional : ℕ
  pub fees : ℕ
  pub slippage : ℕ

abbrev pub no_cycle : CycleSums
no_cycle = record { debits = 0; credits = 0; charge_notional = 0; fees = 0; slippage = 0 }

module _ (quantum fee_bps slippage_bps : ℕ) where
  -- What a buy pays, rounded up, and what a sell receives, rounded down, in whole quanta.
  abbrev pub settle : Side → ℕ → CycleSums → Option CycleSums
  settle buy numerator s = do
    paid ← ceil_divide numerator (fixed_scale * quantum)
    some (record s { debits = s.debits + paid * quantum })
  settle sell numerator s = big_div numerator (fixed_scale * quantum) >>= λ got.
      some (record s { credits = s.credits + got * quantum })

  unfoldable pub add_row : CycleRow → CycleSums → Option CycleSums
  add_row row s = do
    t ← settle row.side (row.price * row.matched) s
    units ← ceil_divide (row.price * row.amount) (fixed_scale * quantum)
    let notional = units * quantum
    fee ← ceil_divide (notional * fee_bps) (10_000 * quantum)
    slip ← ceil_divide (notional * slippage_bps) (10_000 * quantum)
    some (record t {
      charge_notional = t.charge_notional + notional;
      fees = t.fees + fee * quantum;
      slippage = t.slippage + slip * quantum;
    })

  unfoldable pub add_cycle : List CycleRow → CycleSums → Option CycleSums
  add_cycle [] s = some s
  add_cycle (row ∷ rows) s = add_row row s >>= λ t. add_cycle rows t

pub record GridEconomics : Type 0 where
  pub gross : ℕ
  pub charge_notional : ℕ
  pub fee_buffer : ℕ
  pub slippage_buffer : ℕ

-- The rows of the orders, matched.
unfoldable pub match_orders : List CycleRow → Matched
match_orders rows =
    match_rows (sort better_buy (filter (λ (r : CycleRow). is_buy r.side) rows)) 0
      (sort better_sell (filter (λ (r : CycleRow). is_sell r.side) rows)) 0

-- `10n ** BigInt(18 - quoteDecimals)` throws at a negative exponent.
unfoldable pub calculate_grid_cycle_economics : List GridOrder → ℕ → ℕ → ℕ → Option GridEconomics
calculate_grid_cycle_economics orders quote_decimals fee_bps slippage_bps = do
  guard (leb quote_decimals 18)
  let quantum = 10 ^ (18 - quote_decimals)
  rows ← each row_of orders
  let matched = match_orders rows
  s ← add_cycle quantum fee_bps slippage_bps (matched.0 ++ matched.1) no_cycle
  some (record {
    gross = if ltb s.debits s.credits then s.credits - s.debits else 0;
    charge_notional = s.charge_notional;
    fee_buffer = s.fees * 2;
    slippage_buffer = s.slippage * 2;
  })
