-- ===== src/Grid/Monotone.antt =====
-- A larger budget gives larger orders, at the same prices, and so more inventory, risk and charges.
use positioncrew.Prelude.{
  ℕ, ◌-◌, ◌*◌, ◌/◌, ◌^◌, ◌≤◌, ◌<◌, ◌≡◌, refl, false, some, List, [], ◌∷◌, ◌++◌, map, ◌==◌, arith,
  All, length,
}
use positioncrew.Prelude.Throws.{each}
use positioncrew.Prelude.Numbers.{div_mono, mul_mono}
use positioncrew.Core.Fixed.{fixed_scale, parse_fixed, format_fixed}
use positioncrew.Core.Fixed.Digits.{pow-ten-pos}
use positioncrew.Core.Fixed.Bounds.{divide_fixed-pos}
use positioncrew.Core.Fixed.RoundTrip.{
  truncate_to, parse_fixed-format_fixed, parse_fixed-format_fixed_exact,
}
use positioncrew.Contracts.BoundedGrid.{BoundedGridRequest, GridOrder, Side, buy, sell}
use positioncrew.Grid.Provider.{GridSetup, order_at, quote_per_level, orders_for_budget}

-- What the texts of an order are read as.
pub record Reads (o : GridOrder) (price base quote : ℕ) : Type 0 where
  pub price_read : parse_fixed o.price ≡ some price
  pub base_read : parse_fixed o.base_amount ≡ some base
  pub quote_read : parse_fixed o.maximum_quote_amount ≡ some quote

-- Two orders on one side at one price, the second no smaller.
pub record OrderLe (o o' : GridOrder) : Type 0 where
  pub price : ℕ
  pub base : ℕ
  pub base' : ℕ
  pub quote : ℕ
  pub quote' : ℕ
  pub side : o'.side ≡ o.side
  pub read : Reads o price base quote
  pub read' : Reads o' price base' quote'
  pub base_le : base ≤ base'
  pub quote_le : quote ≤ quote'

-- Two lists of orders, one by one.
pub data OrdersLe : List GridOrder → List GridOrder → Type 0 where
  le_nil : OrdersLe [] []
  le_cons :
      {o o' : GridOrder} {os os' : List GridOrder}
      → OrderLe o o'
      → OrdersLe os os'
      → OrdersLe (o ∷ os) (o' ∷ os')

OrdersLe-append :
    {os ps qs rs : List GridOrder}
    → OrdersLe os ps
    → OrdersLe qs rs
    → OrdersLe (os ++ qs) (ps ++ rs)
OrdersLe-append le_nil k = k
OrdersLe-append (le_cons o h) k = le_cons o (OrdersLe-append h k)

-- The order of a positive price.
abbrev pub order_with : Side → ℕ → ℕ → ℕ → GridOrder
order_with side quote decimals price = record {
  side = side;
  price = format_fixed price 18;
  base_amount = format_fixed (quote * fixed_scale / price) decimals;
  maximum_quote_amount = format_fixed quote 18;
}

pub order_with-Reads :
    (side : Side) (quote decimals price : ℕ)
    → decimals ≤ 18
    → Reads
        (order_with side quote decimals price)
        price
        (truncate_to decimals (quote * fixed_scale / price))
        quote
order_with-Reads side quote decimals price h = record {
  price_read = parse_fixed-format_fixed_exact price;
  base_read = parse_fixed-format_fixed (quote * fixed_scale / price) decimals h;
  quote_read = parse_fixed-format_fixed_exact quote;
}

truncate_to_mono : (d a b : ℕ) → a ≤ b → truncate_to d a ≤ truncate_to d b
truncate_to_mono d a b h =
    mul_mono (a / 10 ^ (18 - d)) (b / 10 ^ (18 - d)) (10 ^ (18 - d)) (10 ^ (18 - d))
      (div_mono a b (10 ^ (18 - d)) (pow-ten-pos (18 - d)) h) (omega arith)

order_with-OrderLe :
    (side : Side) (q q' decimals price : ℕ)
    → decimals ≤ 18
    → 0 < price
    → q ≤ q'
    → OrderLe (order_with side q decimals price) (order_with side q' decimals price)
order_with-OrderLe side q q' decimals price h pos le = record {
  price = price;
  base = truncate_to decimals (q * fixed_scale / price);
  base' = truncate_to decimals (q' * fixed_scale / price);
  quote = q;
  quote' = q';
  side = refl;
  read = order_with-Reads side q decimals price h;
  read' = order_with-Reads side q' decimals price h;
  base_le =
      truncate_to_mono decimals (q * fixed_scale / price) (q' * fixed_scale / price)
        (div_mono (q * fixed_scale) (q' * fixed_scale) price pos (omega arith));
  quote_le = le;
}

each-order_at :
    (side : Side) (quote decimals : ℕ) (levels : List ℕ)
    → All (λ p. 0 < p) levels
    → each (order_at side quote decimals) levels
      ≡ some (map (order_with side quote decimals) levels)
unfolding order_at
each-order_at side quote decimals [] h = refl
each-order_at side quote decimals (p ∷ levels) h =
    rw (divide_fixed-pos quote p h.0, each-order_at side quote decimals levels h.1) refl

map-OrdersLe :
    (side : Side) (q q' decimals : ℕ) (levels : List ℕ)
    → decimals ≤ 18
    → q ≤ q'
    → All (λ p. 0 < p) levels
    → OrdersLe (map (order_with side q decimals) levels) (map (order_with side q' decimals) levels)
map-OrdersLe side q q' decimals [] h le pos = le_nil
map-OrdersLe side q q' decimals (p ∷ levels) h le pos =
    le_cons (order_with-OrderLe side q q' decimals p h pos.0 le)
      (map-OrdersLe side q q' decimals levels h le pos.1)

-- What a setup needs for its plans to be made.
pub record IsSetup (setup : GridSetup) : Type 0 where
  pub buys_positive : All (λ p. 0 < p) setup.buy_levels
  pub sells_positive : All (λ p. 0 < p) setup.sell_levels
  pub some_buys : 0 < length setup.buy_levels
  pub some_sells : 0 < length setup.sell_levels
  pub unit_positive : 0 < setup.quote_unit
  pub mid_positive : 0 < setup.mid
  pub decimals_bound : setup.base_decimals ≤ 18

abbrev pub quote_of : ℕ → ℕ → ℕ → ℕ
quote_of capital count unit = capital / count / unit * unit

quote_of_mono :
    (a b count unit : ℕ)
    → 0 < count
    → 0 < unit
    → a ≤ b
    → quote_of a count unit ≤ quote_of b count unit
quote_of_mono a b count unit c u h =
    mul_mono (a / count / unit) (b / count / unit) unit unit
      (div_mono (a / count) (b / count) unit u (div_mono a b count c h)) (omega arith)

quote_per_level-pos :
    (capital count unit : ℕ)
    → 0 < count
    → 0 < unit
    → quote_per_level capital count unit ≡ some (quote_of capital count unit)
unfolding quote_per_level
quote_per_level-pos capital count unit c u =
    let no_count : count == 0 ≡ false = ground arith in
    let no_unit : unit == 0 ≡ false = ground arith in rw (no_count, no_unit) refl

module _ (request : BoundedGridRequest) (setup : GridSetup) (ready : IsSetup setup) where
  abbrev pub orders_with : ℕ → List GridOrder
  orders_with budget =
      map
        (order_with buy (quote_of (budget / 2) (length setup.buy_levels) setup.quote_unit)
          setup.base_decimals)
        setup.buy_levels
      ++ map
          (order_with sell
            (quote_of (budget - budget / 2) (length setup.sell_levels) setup.quote_unit)
            setup.base_decimals)
          setup.sell_levels

  pub orders_for_budget-made :
      (budget : ℕ) → orders_for_budget request setup budget ≡ some (orders_with budget)
  unfolding orders_for_budget
  orders_for_budget-made budget =
      let bq =
        quote_per_level-pos (budget / 2) (length setup.buy_levels) setup.quote_unit ready.some_buys
          ready.unit_positive in
      let sq =
        quote_per_level-pos (budget - budget / 2) (length setup.sell_levels) setup.quote_unit
          ready.some_sells ready.unit_positive in
      let bs =
        each-order_at buy (quote_of (budget / 2) (length setup.buy_levels) setup.quote_unit)
          setup.base_decimals setup.buy_levels ready.buys_positive in
      let ss =
        each-order_at sell
          (quote_of (budget - budget / 2) (length setup.sell_levels) setup.quote_unit)
          setup.base_decimals setup.sell_levels ready.sells_positive in
      rw (bq, sq, bs, ss) refl

  pub orders_with_mono : (a b : ℕ) → a ≤ b → OrdersLe (orders_with a) (orders_with b)
  orders_with_mono a b h =
      OrdersLe-append
        (map-OrdersLe buy _ _ setup.base_decimals setup.buy_levels ready.decimals_bound
          (quote_of_mono (a / 2) (b / 2) (length setup.buy_levels) setup.quote_unit ready.some_buys
            ready.unit_positive (omega arith))
          ready.buys_positive)
        (map-OrdersLe sell _ _ setup.base_decimals setup.sell_levels ready.decimals_bound
          (quote_of_mono (a - a / 2) (b - b / 2) (length setup.sell_levels) setup.quote_unit
            ready.some_sells ready.unit_positive (omega arith))
          ready.sells_positive)
