-- ===== src/Yield/Accounts.antt =====
-- The plan that `candidatePlan` answers with: its limits and its accounts.
use mathlib.Core.Path.{subst}
use positioncrew.Prelude.{
  ℕ, ◌+◌, ◌-◌, ◌*◌, ◌≤◌, ◌<◌, ◌≡◌, ◌≢◌, refl, sym, ap, Bool, false, some, List, [], ◌∷◌, map, arith,
  filter, All, All-imp, inl, inr, Bool-cases, Text, value_or, All-filter,
}
use positioncrew.Prelude.Numbers.{mul-le_of_le-div}
use positioncrew.Prelude.Dict.{Dict, lookup}
use positioncrew.Prelude.Sort.{All-sort}
use positioncrew.Prelude.Integers.{ℤ, pos, pos_part, neg_part, ◌+ℤ◌, +ℤ_parts}
use positioncrew.Core.Fixed.{minimum}
use positioncrew.Yield.{Holding, has_duplicate, sum_of}
use positioncrew.Yield.Plan.{
  Draw, YieldPlan, YieldRoute, withdrawn_from, candidate_plan, yield_plan, with_allocation,
  planned_allocation, protocol_limit, principal_limit, migration_cost, exceeds_costs, destination,
  signed_holdings,
}
use positioncrew.Yield.Loop.{candidate_plan-eq-some, attempt-planned}
use positioncrew.Yield.Draws.{DistinctIds, has_duplicate-Distinct}
use positioncrew.Yield.Funding.{plan_withdrawals-funded}
use positioncrew.Yield.Sums.{
  sum_amounts, sum_parts, sum_parts-insert, final_holdings-sum, sum_parts-signed_holdings,
  sum_amounts-sort, within-parts,
}

-- The limits that a plan respects.
abbrev pub RespectsLimits : YieldRoute → YieldPlan → Type 0
RespectsLimits r plan =
    (0 < plan.allocation)
    × (plan.allocation ≤ r.capital)
    × (plan.allocation ≤ r.max_action)
    × (plan.allocation ≤ r.max_allocation)
    × (plan.allocation ≤ r.opportunity.amount)
    × (plan.allocation ≤ r.opportunity.liquidity)
    × (plan.migration_cost ≤ r.max_action)
    × (plan.migration_cost ≤ r.max_gas)
    × (plan.migration_cost ≤ r.max_execution_cost)
    × All (λ (e : Text × ℕ). e.1 * 10_000 ≤ plan.post_migration_capital * r.concentration_bps)
        plan.final_protocol_allocations
    × (r.minimum_net_benefit ≤ plan.net_benefit)

minimum-bounds : (a b : ℕ) → (minimum a b ≤ a) × (minimum a b ≤ b)
unfolding minimum
minimum-bounds a b = (ground arith, ground arith)

nested-bounds :
    (a b c d : ℕ)
    → (minimum a (minimum (minimum b c) d) ≤ a)
      × (minimum a (minimum (minimum b c) d) ≤ b)
      × (minimum a (minimum (minimum b c) d) ≤ c)
nested-bounds a b c d =
    let outer = minimum-bounds a (minimum (minimum b c) d) in
    let inner = minimum-bounds (minimum b c) d in
    let last = minimum-bounds b c in
    (omega (arith, outer), omega (arith, outer, inner, last), omega (arith, outer, inner, last))

module _ (r : YieldRoute) (sources : List Holding) where
  allocation-bounds :
      (planned_allocation r sources ≤ r.capital)
      × (planned_allocation r sources ≤ r.max_action)
      × (planned_allocation r sources ≤ r.max_allocation)
      × (planned_allocation r sources ≤ r.opportunity.amount)
      × (planned_allocation r sources ≤ r.opportunity.liquidity)
  unfolding planned_allocation principal_limit
  allocation-bounds =
      let (whole, amount, liquidity) : (planned_allocation r sources ≤ principal_limit r)
          × (planned_allocation r sources ≤ r.opportunity.amount)
          × (planned_allocation r sources ≤ r.opportunity.liquidity) =
        nested-bounds _ _ _ _ in
      let (capital, rest) = minimum-bounds r.capital (minimum r.max_action r.max_allocation) in
      let (action, limit) = minimum-bounds r.max_action r.max_allocation in
      (omega arith, omega arith, omega arith, amount, liquidity)

  cost-bounds :
      (d : Draw)
      → exceeds_costs r sources d ≡ false
      → (migration_cost r sources ≤ r.max_action)
        × (migration_cost r sources ≤ r.max_gas)
        × (migration_cost r sources ≤ r.max_execution_cost)
        × (d.total ≤ principal_limit r)
  unfolding exceeds_costs
  cost-bounds d h = (ground arith, ground arith, ground arith, ground arith)

-- A plan of the loop allocates something, at most the capital, the action and allocation limits, the
-- amount and the liquidity of the opportunity; its costs are within the action, gas and execution
-- limits; every protocol ends within the concentration limit of the capital after the costs; and the net
-- benefit is at least the minimum.
pub candidate_plan-RespectsLimits :
    (r : YieldRoute) (fuel : ℕ) (sources : List Holding) (plan : YieldPlan)
    → candidate_plan r fuel sources ≡ some (some plan)
    → RespectsLimits r plan
unfolding yield_plan protocol_limit
candidate_plan-RespectsLimits r fuel sources plan found =
    let (used, _, made) =
      candidate_plan-eq-some r (λ s. Unit {0}) (λ keep s h. tt) fuel sources plan tt found in
    let (d, f, same, below, positive, drawn, cheap, final, inside, gain) =
      attempt-planned r used plan made in
    let (capital, action, limit, amount, liquidity) = allocation-bounds r used in
    let (cost_action, cost_gas, cost_execution, _) = cost-bounds r used d cheap in
    let (_, _, bounds) = within-parts r used (with_allocation r used f) inside in
    let first : Text × ℕ → Text × ℕ → Bool = λ x y. r.before x.0 y.0 in
    let finals = map (λ (e : Text × ℤ). (e.0, pos_part e.1)) (with_allocation r used f) in
    let shares =
      All-sort first
        (λ (e : Text × ℕ). e.1 * 10_000 ≤ (r.capital - migration_cost r used) * r.concentration_bps)
        finals
        (All-imp (λ (e : Text × ℕ). e.1 ≤ protocol_limit r used)
          (λ (e : Text × ℕ).
            e.1 * 10_000 ≤ (r.capital - migration_cost r used) * r.concentration_bps)
          finals
          (λ (e : Text × ℕ) h.
            mul-le_of_le-div 10_000 e.1 ((r.capital - migration_cost r used) * r.concentration_bps)
              (omega arith) h)
          bounds) in
    subst (RespectsLimits r) (sym same) (
      positive,
      capital,
      action,
      limit,
      amount,
      liquidity,
      cost_action,
      cost_gas,
      cost_execution,
      shares,
      omega (arith, gain),
    )

pub candidate_plan-opportunity :
    (r : YieldRoute) (fuel : ℕ) (sources : List Holding) (plan : YieldPlan)
    → candidate_plan r fuel sources ≡ some (some plan)
    → plan.opportunity ≡ r.opportunity
unfolding yield_plan
candidate_plan-opportunity r fuel sources plan found =
    let (used, _, made) =
      candidate_plan-eq-some r (λ s. Unit {0}) (λ keep s h. tt) fuel sources plan tt found in
    let (d, f, same, _, _, _, _, _, _, _) = attempt-planned r used plan made in
    ap (λ (p : YieldPlan). p.opportunity) same

-- The accounts of a plan.
abbrev pub IsBalanced : YieldRoute → YieldPlan → Type 0
IsBalanced r plan =
    (sum_amounts plan.withdrawals + plan.idle_capital_used ≡ plan.allocation + plan.migration_cost)
    × (plan.idle_capital_used + plan.remaining_idle_capital ≡ r.idle_capital)
    × (plan.post_migration_capital + plan.migration_cost ≡ r.capital)
    × (sum_amounts plan.final_protocol_allocations + plan.remaining_idle_capital
        ≡ plan.post_migration_capital)
    × (sum_amounts plan.withdrawals ≤ principal_limit r)

pub DistinctIds-filter :
    (keep : Holding → Bool) (sources : List Holding)
    → DistinctIds sources
    → DistinctIds (filter keep sources)
DistinctIds-filter keep [] h = tt
DistinctIds-filter keep (s ∷ sources) h = elim (Bool-cases (keep s)) [
  | inl kept ↦ rw kept (
    All-filter (λ (t : Holding). s.opportunity_id ≢ t.opportunity_id) keep sources h.0,
    DistinctIds-filter keep sources h.1,
  )
  | inr left ↦ rw left (DistinctIds-filter keep sources h.1)
]

sum_amounts-withdrawals :
    (d : Draw) (sources : List Holding)
    → sum_amounts (map (λ (h : Holding). (h.opportunity_id, withdrawn_from d h)) sources)
      ≡ sum_of (withdrawn_from d) sources
sum_amounts-withdrawals d [] = refl
sum_amounts-withdrawals d (s ∷ sources) = omega (arith, sum_amounts-withdrawals d sources)

-- What the allocation adds to the holdings.
with_allocation-sum :
    (r : YieldRoute) (sources : List Holding) (f : Dict ℤ)
    → sum_parts pos_part (with_allocation r sources f) + sum_parts neg_part f
      ≡ sum_parts neg_part (with_allocation r sources f)
        + sum_parts pos_part f
        + planned_allocation r sources
unfolding with_allocation
with_allocation-sum r sources f =
    let current = value_or (pos 0) (lookup (destination r) f) in
    let next = current +ℤ pos (planned_allocation r sources) in
    let up = sum_parts-insert pos_part (destination r) next f refl in
    let down = sum_parts-insert neg_part (destination r) next f refl in
    let change = +ℤ_parts current (pos (planned_allocation r sources)) in
    omega (arith, up, down, change)

-- Where the sources and the protocols held are distinct and the holdings with the idle capital make the
-- capital, the withdrawals and the idle capital used pay exactly for the allocation and the costs, the
-- final holdings with the remaining idle capital make the capital after the costs, and the withdrawals are
-- within the limit on the principal.
pub candidate_plan-IsBalanced :
    (r : YieldRoute) (fuel : ℕ) (sources : List Holding) (plan : YieldPlan)
    → has_duplicate (map (λ (h : Holding). h.opportunity_id) sources) ≡ false
    → has_duplicate (map (λ (e : Text × ℕ). e.0) r.held_by_protocol) ≡ false
    → sum_amounts r.held_by_protocol + r.idle_capital ≡ r.capital
    → candidate_plan r fuel sources ≡ some (some plan)
    → IsBalanced r plan
unfolding yield_plan
candidate_plan-IsBalanced r fuel sources plan ids keys whole found =
    let distinct = has_duplicate-Distinct (λ (h : Holding). h.opportunity_id) sources ids in
    let (used, apart, made) =
      candidate_plan-eq-some r DistinctIds DistinctIds-filter fuel sources plan distinct found in
    let (d, f, same, below, _, drawn, cheap, final, inside, _) = attempt-planned r used plan made in
    let (_, _, _, principal) = cost-bounds r used d cheap in
    let (funded, spent, covered) =
      plan_withdrawals-funded r used apart d
        (has_duplicate-Distinct (λ (e : Text × ℕ). e.0) r.held_by_protocol keys) drawn in
    let (down, up, _) = within-parts r used (with_allocation r used f) inside in
    let taken = final_holdings-sum d used (signed_holdings r.held_by_protocol) f final in
    let added = with_allocation-sum r used f in
    let held = sum_parts-signed_holdings r.held_by_protocol in
    let withdrawn = sum_amounts-withdrawals d used in
    let sorted =
      sum_amounts-sort (λ x y. r.before x.0 y.0)
        (map (λ (e : Text × ℤ). (e.0, pos_part e.1)) (with_allocation r used f)) in
    subst (IsBalanced r) (sym same) (
      omega (arith, withdrawn, funded.0, spent),
      omega (arith, spent, covered),
      omega (arith, below),
      omega (
        arith, withdrawn, funded.0, spent, covered, below, down, up, taken, added, held, sorted,
        whole,
      ),
      omega (arith, withdrawn, funded.0, principal),
    )
