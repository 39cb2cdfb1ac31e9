-- ===== src/Grid/Plans.antt =====
-- A plan for a larger budget has no less inventory and no less loss at stake.
use positioncrew.Prelude.{
  ℕ, ◌+◌, ◌-◌, ◌*◌, ◌/◌, ◌^◌, ◌≤◌, ◌<◌, ◌≡◌, refl, true, false, some, List, [], ◌∷◌, ◌++◌, ◌==◌,
  arith, leb, ltb, if◌then◌else◌,
}
use positioncrew.Prelude.Throws.{each}
use positioncrew.Prelude.Numbers.{mul_mono}
use positioncrew.Core.Fixed.{fixed_scale, minimum}
use positioncrew.Core.Fixed.Digits.{pow-ten-pos}
use positioncrew.Core.Fixed.Bounds.{ceil_divide-pos}
use positioncrew.Contracts.BoundedGrid.{BoundedGridRequest, GridOrder, Side, buy, sell}
use positioncrew.Grid.Risk.{
  RiskSums, no_sums, add_order, add_orders, GridRisk, calculate_bounded_grid_risk,
}
use positioncrew.Grid.Cycle.{
  CycleRow, row_of, CycleSums, no_cycle, GridEconomics, match_orders,
  calculate_grid_cycle_economics,
}
use positioncrew.Grid.Matching.{total}
use positioncrew.Grid.Sums.{
  ceil_of, ceil_of_mono, of_row, total-match_orders, charge_of, charge_of_mono, add_cycle-Adds,
}
use positioncrew.Grid.Provider.{GridSetup, GridPlan, plan_for_budget, respects_risk_limits}
use positioncrew.Grid.Monotone.{
  OrdersLe, le_nil, le_cons, IsSetup, orders_with, orders_for_budget-made, orders_with_mono,
}

pub record SumsLe (s t : RiskSums) : Type 0 where
  pub initial : s.initial_base ≤ t.initial_base
  pub purchased : s.purchased_base ≤ t.purchased_base
  pub quote : s.buy_quote ≤ t.buy_quote

add_order_mono :
    (side : Side) (b b' q q' : ℕ) (s t : RiskSums)
    → b ≤ b'
    → q ≤ q'
    → SumsLe s t
    → SumsLe (add_order side b q s) (add_order side b' q' t)
add_order_mono buy b b' q q' s t hb hq h = ground arith
add_order_mono sell b b' q q' s t hb hq h = ground arith

add_orders_mono :
    {os ps : List GridOrder} (s t : RiskSums)
    → OrdersLe os ps
    → SumsLe s t
    → (s' : RiskSums) × (t' : RiskSums) × (add_orders os s ≡ some s')
      × (add_orders ps t ≡ some t')
      × SumsLe s' t'
unfolding add_orders
add_orders_mono s t le_nil h = (s, t, refl, refl, h)
add_orders_mono s t (le_cons {o} {o'} {os} {os'} le rest) h =
    let here =
      add_order_mono o.side le.base le.base' le.quote le.quote' s t le.base_le le.quote_le h in
    let (s', t', es, et, k) =
      add_orders_mono (add_order o.side le.base le.quote s) (add_order o.side le.base' le.quote' t)
        rest here in
    (
      s',
      t',
      rw (le.read.base_read, le.read.quote_read) es,
      rw (le.read'.base_read, le.read'.quote_read, le.side) et,
      k,
    )

pub record RiskLe (r r' : GridRisk) : Type 0 where
  pub inventory : r.maximum_inventory ≤ r'.maximum_inventory
  pub principal : r.principal_at_risk ≤ r'.principal_at_risk

abbrev risk_of : RiskSums → ℕ → ℕ → GridRisk
risk_of s mid upper = record {
  deployed_notional = s.deployed_notional;
  maximum_inventory = ceil_of ((s.initial_base + s.purchased_base) * upper) fixed_scale;
  principal_at_risk = ceil_of (s.initial_base * mid) fixed_scale + s.buy_quote;
}

risk_made :
    (os : List GridOrder) (s : RiskSums) (mid upper : ℕ)
    → add_orders os no_sums ≡ some s
    → calculate_bounded_grid_risk os mid upper ≡ some (risk_of s mid upper)
unfolding calculate_bounded_grid_risk
risk_made os s mid upper e =
    let inventory =
      ceil_divide-pos ((s.initial_base + s.purchased_base) * upper) fixed_scale (omega arith) in
    let initial = ceil_divide-pos (s.initial_base * mid) fixed_scale (omega arith) in
    rw (e, inventory, initial) refl

risk_of_mono :
    (s t : RiskSums) (mid upper : ℕ)
    → SumsLe s t
    → RiskLe (risk_of s mid upper) (risk_of t mid upper)
risk_of_mono s t mid upper h = record {
  inventory =
      ceil_of_mono ((s.initial_base + s.purchased_base) * upper)
        ((t.initial_base + t.purchased_base) * upper) fixed_scale (omega arith)
        (mul_mono (s.initial_base + s.purchased_base) (t.initial_base + t.purchased_base) upper
          upper (omega (arith, h.initial, h.purchased)) (omega arith));
  principal = omega (
    arith,
    h.quote,
    ceil_of_mono (s.initial_base * mid) (t.initial_base * mid) fixed_scale (omega arith)
        (mul_mono s.initial_base t.initial_base mid mid h.initial (omega arith)),
  );
}

risk_mono :
    {os ps : List GridOrder} (mid upper : ℕ)
    → OrdersLe os ps
    → (r : GridRisk) × (r' : GridRisk) × (calculate_bounded_grid_risk os mid upper ≡ some r)
      × (calculate_bounded_grid_risk ps mid upper ≡ some r')
      × RiskLe r r'
risk_mono {os} {ps} mid upper le =
    let (s, t, es, et, h) = add_orders_mono no_sums no_sums le (ground arith) in
    (
      risk_of s mid upper,
      risk_of t mid upper,
      risk_made os s mid upper es,
      risk_made ps t mid upper et,
      risk_of_mono s t mid upper h,
    )

-- The rows of the orders carry no less in charges.
rows_mono :
    {os ps : List GridOrder} (quantum : ℕ)
    → 0 < quantum
    → OrdersLe os ps
    → (rows : List CycleRow) × (rows' : List CycleRow) × (each row_of os ≡ some rows)
      × (each row_of ps ≡ some rows')
      × ((bps : ℕ)
          → total (of_row (charge_of quantum bps)) rows
            ≤ total (of_row (charge_of quantum bps)) rows')
unfolding row_of
rows_mono quantum pos le_nil = ([], [], refl, refl, λ bps. omega arith)
rows_mono quantum pos (le_cons {o} {o'} {os} {os'} le rest) =
    let (rows, rows', e, e', h) = rows_mono quantum pos rest in
    let row : CycleRow = record {
      side = o.side;
      price = le.price;
      amount = le.base;
      matched = 0;
    } in
    let row' : CycleRow = record {
      side = o'.side;
      price = le.price;
      amount = le.base';
      matched = 0;
    } in
    (
      row ∷ rows,
      row' ∷ rows',
      rw (le.read.price_read, le.read.base_read, e) refl,
      rw (le.read'.price_read, le.read'.base_read, e') refl,
      λ bps.
          omega (arith, h bps, charge_of_mono quantum bps le.price le.base le.base' pos le.base_le),
    )

pub record EconomicsLe (e e' : GridEconomics) : Type 0 where
  pub fees : e.fee_buffer ≤ e'.fee_buffer
  pub slippage : e.slippage_buffer ≤ e'.slippage_buffer

economics_of : CycleSums → GridEconomics
economics_of s = record {
  gross = if ltb s.debits s.credits then s.credits - s.debits else 0;
  charge_notional = s.charge_notional;
  fee_buffer = s.fees * 2;
  slippage_buffer = s.slippage * 2;
}

-- The economics of orders that are read as `rows`.
economics_made :
    (os : List GridOrder) (rows : List CycleRow) (decimals fee slip : ℕ)
    → decimals ≤ 18
    → each row_of os ≡ some rows
    → (e : GridEconomics) × (calculate_grid_cycle_economics os decimals fee slip ≡ some e)
      × (e.fee_buffer ≡ total (of_row (charge_of (10 ^ (18 - decimals)) fee)) rows * 2)
      × (e.slippage_buffer ≡ total (of_row (charge_of (10 ^ (18 - decimals)) slip)) rows * 2)
unfolding calculate_grid_cycle_economics economics_of
economics_made os rows decimals fee slip h read =
    let quantum = 10 ^ (18 - decimals) in
    let admitted : leb decimals 18 ≡ true = ground arith in
    let matched = (match_orders rows).0 ++ (match_orders rows).1 in
    let (s, made, a) =
      add_cycle-Adds quantum fee slip matched no_cycle (pow-ten-pos (18 - decimals)) in
    let fees = total-match_orders (charge_of quantum fee) rows in
    let slippage = total-match_orders (charge_of quantum slip) rows in
    (
      economics_of s,
      rw (admitted, read, made) refl,
      omega (arith, a.fees, fees),
      omega (arith, a.slippage, slippage),
    )

economics_mono :
    {os ps : List GridOrder} (decimals fee slip : ℕ)
    → decimals ≤ 18
    → OrdersLe os ps
    → (e : GridEconomics) × (e' : GridEconomics) × (calculate_grid_cycle_economics os decimals fee
          slip
        ≡ some e)
      × (calculate_grid_cycle_economics ps decimals fee slip ≡ some e')
      × EconomicsLe e e'
economics_mono {os} {ps} decimals fee slip h le =
    let (rows, rows', read, read', more) =
      rows_mono (10 ^ (18 - decimals)) (pow-ten-pos (18 - decimals)) le in
    let (e, made, f, s) = economics_made os rows decimals fee slip h read in
    let (e', made', f', s') = economics_made ps rows' decimals fee slip h read' in
    (
      e,
      e',
      made,
      made',
      record { fees = omega (arith, f, f', more fee); slippage = omega (arith, s, s', more slip) },
    )

pub record PlanLe (p q : GridPlan) : Type 0 where
  pub inventory : p.maximum_inventory ≤ q.maximum_inventory
  pub loss : p.worst_case_loss ≤ q.worst_case_loss

module _ (request : BoundedGridRequest) (setup : GridSetup) (ready : IsSetup setup)
    (places : request.quote_asset.decimals ≤ 18) where
  plan_with : List GridOrder → GridRisk → GridEconomics → GridPlan
  plan_with orders risk cycle =
      let cycles = request.constraints.expected_completed_cycles in
      let captured =
        minimum (cycle.charge_notional * cycles * setup.step / (2 * setup.mid))
          (cycle.gross * cycles) in
      let fees = cycle.fee_buffer * cycles in
      let slippage = cycle.slippage_buffer * cycles in
      record {
        orders = orders;
        deployed_notional = risk.deployed_notional;
        maximum_inventory = risk.maximum_inventory;
        gross_spread_capture = captured;
        fees = fees;
        slippage = slippage;
        net_profit = captured - (fees + slippage + setup.gas);
        worst_case_loss = risk.principal_at_risk + fees + slippage + setup.gas;
      }

  plan_made :
      (budget : ℕ) (r : GridRisk) (e : GridEconomics)
      → calculate_bounded_grid_risk (orders_with request setup ready budget) setup.mid setup.upper
        ≡ some r
      → calculate_grid_cycle_economics
          (orders_with request setup ready budget)
          request.quote_asset.decimals
          request.market_state.venue_fee_bps
          request.max_slippage_bps
        ≡ some e
      → plan_for_budget request setup budget
        ≡ some (plan_with (orders_with request setup ready budget) r e)
  unfolding plan_for_budget plan_with
  plan_made budget r e risk cycle =
      let orders = orders_for_budget-made request setup ready budget in
      let divides : 2 * setup.mid == 0 ≡ false = let p = ready.mid_positive in ground arith in
      rw (orders, risk, cycle, divides) refl

  -- Every budget has a plan, and a larger budget one with no less inventory and no less loss.
  pub plan_for_budget_mono :
      (a b : ℕ)
      → a ≤ b
      → (p : GridPlan) × (q : GridPlan) × (plan_for_budget request setup a ≡ some p)
        × (plan_for_budget request setup b ≡ some q)
        × PlanLe p q
  unfolding plan_with
  plan_for_budget_mono a b h =
      let le = orders_with_mono request setup ready a b h in
      let (r, r', er, er', more) = risk_mono setup.mid setup.upper le in
      let (e, e', ee, ee', charges) =
        economics_mono request.quote_asset.decimals request.market_state.venue_fee_bps
          request.max_slippage_bps places le in
      let cycles = request.constraints.expected_completed_cycles in
      (
        plan_with (orders_with request setup ready a) r e,
        plan_with (orders_with request setup ready b) r' e',
        plan_made a r e er ee,
        plan_made b r' e' er' ee',
        record {
          inventory = more.inventory;
          loss = omega (
            arith,
            more.principal,
            mul_mono e.fee_buffer e'.fee_buffer cycles cycles charges.fees (omega arith),
            mul_mono e.slippage_buffer e'.slippage_buffer cycles cycles charges.slippage
                (omega arith),
          );
        },
      )

  -- A plan that respects the limits has only smaller plans that do.
  pub respects_down :
      (p q : GridPlan)
      → PlanLe p q
      → respects_risk_limits request setup q ≡ true
      → respects_risk_limits request setup p ≡ true
  unfolding respects_risk_limits
  respects_down p q le h = let i = le.inventory in let l = le.loss in ground arith
