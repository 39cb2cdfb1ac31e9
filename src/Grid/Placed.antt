-- ===== src/Grid/Placed.antt =====
-- Where the orders of a plan stand.
use positioncrew.Prelude.{
  ℕ, ◌*◌, ◌≤◌, ◌<◌, ◌≡◌, sym, ap, ◌∙◌, Bool, true, some, some_inj, List, [], ◌∷◌, ◌++◌, arith, ltb,
  ltb→lt, ◌&&◌, All, All-imp, map, filter, All-filter, filter-All, All-both,
}
use positioncrew.Prelude.Throws.{big_div, >>=-eq-some}
use positioncrew.Core.Fixed.{parse_fixed}
use positioncrew.Contracts.BoundedGrid.{BoundedGridRequest, GridOrder, buy, sell}
use positioncrew.Grid.Risk.{calculate_bounded_grid_risk}
use positioncrew.Grid.Cycle.{calculate_grid_cycle_economics}
use positioncrew.Grid.Provider.{
  GridSetup, GridPlan, plan_for_budget, orders_for_budget, all_orders_positive,
}
use positioncrew.Grid.Monotone.{
  IsSetup, order_with, order_with-Reads, orders_with, orders_for_budget-made,
}

-- The price of an order lies in the range, on its side of the mid price.
pub record IsPlaced (lower mid upper : ℕ) (o : GridOrder) : Type 0 where
  pub price : ℕ
  pub price_read : parse_fixed o.price ≡ some price
  pub from_lower : lower ≤ price
  pub to_upper : price ≤ upper
  pub buys_below : o.side ≡ buy → price < mid
  pub sells_above : o.side ≡ sell → mid < price

-- The amounts of an order are positive.
pub record IsSized (o : GridOrder) : Type 0 where
  pub base : ℕ
  pub quote : ℕ
  pub base_read : parse_fixed o.base_amount ≡ some base
  pub quote_read : parse_fixed o.maximum_quote_amount ≡ some quote
  pub base_positive : 0 < base
  pub quote_positive : 0 < quote

pub all_orders_positive-IsSized :
    (request : BoundedGridRequest) (setup : GridSetup) (os : List GridOrder)
    → all_orders_positive request setup os ≡ some true
    → All IsSized os
unfolding all_orders_positive
all_orders_positive-IsSized request setup [] h = tt
all_orders_positive-IsSized request setup (o ∷ os) h =
    let (base, base_read, h₁) = >>=-eq-some (parse_fixed o.base_amount) _ h in
    let (quote, quote_read, h₂) = >>=-eq-some (parse_fixed o.maximum_quote_amount) _ h₁ in
    let (rest, rest_made, h₃) = >>=-eq-some (all_orders_positive request setup os) _ h₂ in
    let tests : (ltb 0 base && ltb 0 quote && rest) ≡ true = some_inj h₃ in
    let more : rest ≡ true = ground arith in
    (
      record {
        base = base;
        quote = quote;
        base_read = base_read;
        quote_read = quote_read;
        base_positive = ground arith;
        quote_positive = ground arith;
      },
      all_orders_positive-IsSized request setup os (rw more at rest_made),
    )

All-append {κ} :
    {A : Type 0} (P : A → Type κ) (xs ys : List A) → All P xs → All P ys → All P (xs ++ ys)
All-append P [] ys h k = k
All-append P (x ∷ xs) ys h k = (h.0, All-append P xs ys h.1 k)

All-map {κ λ'} :
    {A B : Type 0} (P : B → Type κ) (Q : A → Type λ') (f : A → B) (xs : List A)
    → ((x : A) → Q x → P (f x))
    → All Q xs
    → All P (map f xs)
All-map P Q f [] g h = tt
All-map P Q f (x ∷ xs) g h = (g x h.0, All-map P Q f xs g h.1)

plan_for_budget-orders :
    (request : BoundedGridRequest) (setup : GridSetup) (ready : IsSetup setup) (budget : ℕ)
    {plan : GridPlan}
    → plan_for_budget request setup budget ≡ some plan
    → plan.orders ≡ orders_with request setup ready budget
unfolding plan_for_budget
plan_for_budget-orders request setup ready budget {plan} h =
    let (orders, made, h₁) = >>=-eq-some (orders_for_budget request setup budget) _ h in
    let (risk, _, h₂) =
      >>=-eq-some (calculate_bounded_grid_risk orders setup.mid setup.upper) _ h₁ in
    let (cycle, _, h₃) =
      >>=-eq-some
        (calculate_grid_cycle_economics orders request.quote_asset.decimals
          request.market_state.venue_fee_bps request.max_slippage_bps)
        _ h₂ in
    let (nominal, _, h₄) =
      >>=-eq-some
        (big_div
          (cycle.charge_notional * request.constraints.expected_completed_cycles * setup.step)
          (2 * setup.mid))
        _ h₃ in
    let same : orders ≡ orders_with request setup ready budget =
      some_inj (sym made ∙ orders_for_budget-made request setup ready budget) in
    ap (λ (p : GridPlan). p.orders) (sym (some_inj h₄)) ∙ same

-- The levels of a setup lie in a range, the buys below the mid price and the sells above it.
pub record IsSplit (lower mid upper : ℕ) (setup : GridSetup) : Type 0 where
  pub buys : All (λ p. (lower ≤ p) × (p ≤ upper) × (p < mid)) setup.buy_levels
  pub sells : All (λ p. (lower ≤ p) × (p ≤ upper) × (mid < p)) setup.sell_levels

module _ (lower mid upper : ℕ) where
  buy-IsPlaced :
      (quote decimals p : ℕ)
      → decimals ≤ 18
      → (lower ≤ p) × (p ≤ upper) × (p < mid)
      → IsPlaced lower mid upper (order_with buy quote decimals p)
  buy-IsPlaced quote decimals p h k = record {
    price = p;
    price_read = (order_with-Reads buy quote decimals p h).price_read;
    from_lower = k.0;
    to_upper = k.1;
    buys_below = λ _. k.2;
    sells_above = λ e. cc;
  }

  sell-IsPlaced :
      (quote decimals p : ℕ)
      → decimals ≤ 18
      → (lower ≤ p) × (p ≤ upper) × (mid < p)
      → IsPlaced lower mid upper (order_with sell quote decimals p)
  sell-IsPlaced quote decimals p h k = record {
    price = p;
    price_read = (order_with-Reads sell quote decimals p h).price_read;
    from_lower = k.0;
    to_upper = k.1;
    buys_below = λ e. cc;
    sells_above = λ _. k.2;
  }

  -- The orders of a plan stand at the levels of their side.
  pub plan_for_budget-IsPlaced :
      (request : BoundedGridRequest) (setup : GridSetup)
      → IsSetup setup
      → IsSplit lower mid upper setup
      → (budget : ℕ) {plan : GridPlan} → plan_for_budget request setup budget ≡ some plan
      → All (IsPlaced lower mid upper) plan.orders
  plan_for_budget-IsPlaced request setup ready split budget h =
      rw (plan_for_budget-orders request setup ready budget h) (
        All-append (IsPlaced lower mid upper) _ _
          (All-map (IsPlaced lower mid upper) _ _ setup.buy_levels
            (λ p k. buy-IsPlaced _ setup.base_decimals p ready.decimals_bound k) split.buys)
          (All-map (IsPlaced lower mid upper) _ _ setup.sell_levels
            (λ p k. sell-IsPlaced _ setup.base_decimals p ready.decimals_bound k) split.sells))

pub filter-IsSplit :
    (lower mid upper : ℕ) (setup : GridSetup) (levels : List ℕ)
    → All (λ p. (lower ≤ p) × (p ≤ upper)) levels
    → setup.buy_levels ≡ filter (λ price. ltb price mid) levels
    → setup.sell_levels ≡ filter (λ price. ltb mid price) levels
    → IsSplit lower mid upper setup
filter-IsSplit lower mid upper setup levels within buys sells =
    let kept_within =
      λ (p : ℕ → Bool). All-filter (λ q. (lower ≤ q) × (q ≤ upper)) p levels within in
    record {
      buys = rw buys (
          All-imp _ _ _ (λ p k. (k.0.0, k.0.1, ltb→lt p mid k.1))
            (All-both _ _ _ (kept_within (λ price. ltb price mid))
              (filter-All (λ price. ltb price mid) levels)));
      sells = rw sells (
          All-imp _ _ _ (λ p k. (k.0.0, k.0.1, ltb→lt mid p k.1))
            (All-both _ _ _ (kept_within (λ price. ltb mid price))
              (filter-All (λ price. ltb mid price) levels)));
    }
