-- ===== src/Yield/Plan.antt =====
-- src/providers/yield-optimization.ts: the plan of one supply, `candidatePlan`. In an attempt `none` is
-- a thrown error, and a plan that the source answers with `null` is refused. Amounts are natural
-- numbers: where the source's difference is negative, that of the model is 0, which takes the same branch.
mod Withdrawals
unfoldable pub use Withdrawals.*
use positioncrew.Prelude.{
  ℕ, zero, suc, ◌+◌, ◌-◌, ◌*◌, ◌/◌, Bool, true, false, not, ◌||◌, ◌&&◌, Option, none, some, List,
  [], ◌∷◌, map, length, ltb, leb, ◌==◌, filter, all, if◌then◌else◌, Text, text_eq, value_or,
}
use positioncrew.Prelude.Throws.{◌>>=◌}
use positioncrew.Prelude.Dict.{Dict, lookup, insert}
use positioncrew.Prelude.Sort.{sort}
use positioncrew.Prelude.Integers.{ℤ, pos, negsuc, ◌+ℤ◌, ◌-ℤ◌, pos_part}
use positioncrew.Core.Fixed.{fixed_scale, minimum}
use positioncrew.Yield.{Holding, YieldLimits, protocol_of, available_withdrawal, sum_of}

pub record YieldPlan : Type 0 where
  pub opportunity : Holding
  pub allocation : ℕ
  pub annual_yield_uplift : ℕ
  pub migration_cost : ℕ
  pub net_benefit : ℕ
  pub break_even_days : ℕ
  pub withdrawals : List (Text × ℕ)
  pub idle_capital_used : ℕ
  pub remaining_idle_capital : ℕ
  pub post_migration_capital : ℕ
  pub final_protocol_allocations : List (Text × ℕ)

-- One round of the loop: `return null`, `continue` with fewer sources, or the plan.
pub data Attempt : Type 0 where
  refused : Attempt
  retry : List Holding → Attempt
  planned : YieldPlan → Attempt

-- What the loop reads besides its sources. `before` is whether `localeCompare` is at most 0.
pub record YieldRoute : Type 0 where
  pub limits : YieldLimits
  pub open limits use *
  pub concentration_bps : ℕ
  pub horizon_days : ℕ
  pub opportunity : Holding
  pub held_by_protocol : Dict ℕ
  pub idle_capital : ℕ
  pub before : Text → Text → Bool

unfoldable pub principal_limit : YieldRoute → ℕ
principal_limit r = minimum r.capital (minimum r.max_action r.max_allocation)

abbrev pub destination : YieldRoute → Text
destination r = protocol_of r.opportunity

module _ (r : YieldRoute) (sources : List Holding) where
  unfoldable pub migration_cost : ℕ
  migration_cost = r.opportunity.entry_cost + sum_of (λ (h : Holding). h.exit_cost) sources

  unfoldable pub protocol_limit : ℕ
  protocol_limit = (r.capital - migration_cost) * r.concentration_bps / 10_000

  unfoldable pub planned_allocation : ℕ
  planned_allocation =
      let available = available_by_protocol sources [] in
      let headroom =
        protocol_limit
        + amount_at (destination r) available
        - amount_at (destination r) r.held_by_protocol in
      let spendable = r.idle_capital + sum_of available_withdrawal sources - migration_cost in
      let capped_funding =
        minimum spendable (r.idle_capital + principal_limit r - migration_cost) in
      minimum (principal_limit r) (
        minimum (minimum r.opportunity.amount r.opportunity.liquidity)
          (minimum headroom capped_funding))

  -- One protocol of the first loop; `none` where it cannot be brought within the limit.
  unfoldable pub repair_protocol : Dict ℕ → Text → ℕ → Draw → Option Draw
  repair_protocol available protocol held d =
      let target = if text_eq protocol (destination r) then planned_allocation else 0 in
      let required = held + target - protocol_limit in
      if required == 0
      then some d
      else if ltb (amount_at protocol available) required
      then none
      else some (repair_sources protocol required sources d)

  unfoldable pub repair_exposures : Dict ℕ → Dict ℕ → Draw → Option Draw
  repair_exposures available [] d = some d
  repair_exposures available ((protocol, held) ∷ rest) d = do
    d' ← repair_protocol available protocol held d
    repair_exposures available rest d'

  -- The withdrawals that repair the exposures and fund the route, or `none`.
  unfoldable pub plan_withdrawals : Option Draw
  plan_withdrawals = do
    let available = available_by_protocol sources []
    repaired ←
        repair_exposures available r.held_by_protocol (record { withdrawals = []; total = 0 })
    let spend = planned_allocation + migration_cost
    if ltb spend repaired.total
        then none
        else let (missing, d) =
            fill_shortfall (spend - repaired.total - r.idle_capital) sources repaired in
          if ltb 0 missing then none else some d

  unfoldable pub annual_uplift : Draw → ℕ
  annual_uplift d =
      (planned_allocation * r.opportunity.gross_apy_bps
        - sum_of (λ (h : Holding). withdrawn_from d h * h.gross_apy_bps) sources)
      / 10_000

  abbrev pub is_within : ℤ → Bool
  is_within (pos n) = leb n protocol_limit
  is_within (negsuc n) = false

  -- `finalByProtocol` with the allocation.
  unfoldable pub with_allocation : Dict ℤ → Dict ℤ
  with_allocation withdrawn =
      let current = value_or (pos 0) (lookup (destination r) withdrawn) in
      insert (destination r) (current +ℤ pos planned_allocation) withdrawn

  unfoldable pub yield_gain : Draw → ℕ
  yield_gain d = annual_uplift d * r.horizon_days / 365

  -- The plan of the answer; its final allocations are none below 0.
  unfoldable pub yield_plan : Draw → Dict ℤ → YieldPlan
  yield_plan d withdrawn =
      let used = planned_allocation + migration_cost - d.total in
      record {
        opportunity = r.opportunity;
        allocation = planned_allocation;
        annual_yield_uplift = annual_uplift d;
        migration_cost = migration_cost;
        net_benefit = yield_gain d - migration_cost;
        break_even_days = migration_cost * 365 * fixed_scale / annual_uplift d;
        withdrawals = map (λ (h : Holding). (h.opportunity_id, withdrawn_from d h)) sources;
        idle_capital_used = used;
        remaining_idle_capital = r.idle_capital - used;
        post_migration_capital = r.capital - migration_cost;
        final_protocol_allocations =
            sort (λ (x y : Text × ℕ). r.before x.0 y.0)
              (map (λ (e : Text × ℤ). (e.0, pos_part e.1)) (with_allocation withdrawn));
      }

  -- The last guards.
  unfoldable pub conclude : Draw → Dict ℤ → Attempt
  conclude d withdrawn =
      if not (all (λ (e : Text × ℤ). is_within e.1) (with_allocation withdrawn))
      then refused
      else if annual_uplift d == 0
      then refused
      else if ltb (yield_gain d) (migration_cost + r.minimum_net_benefit)
      then refused
      else planned (yield_plan d withdrawn)

  unfoldable pub exceeds_costs : Draw → Bool
  exceeds_costs d =
      ltb r.max_action migration_cost
      || ltb r.max_gas migration_cost
      || ltb r.max_execution_cost migration_cost
      || ltb (principal_limit r) d.total

  -- The part of a round after its withdrawals are found.
  unfoldable pub settle_round : Draw → Option Attempt
  settle_round d = do
    let used = filter (has_withdrawal d) sources
    if not (length used == length sources)
        then some (retry used)
        else if exceeds_costs d
        then some refused
        else do
          final ← final_holdings d sources (signed_holdings r.held_by_protocol)
          some (conclude d final)

  unfoldable pub attempt : Option Attempt
  attempt =
      if leb r.capital migration_cost || planned_allocation == 0
      then some refused
      else elim plan_withdrawals [ none ↦ some refused | some d ↦ settle_round d ]

-- What follows a round: `again` is the rest of the loop.
abbrev pub next_round :
    (List Holding → Option (Option YieldPlan)) → Attempt → Option (Option YieldPlan)
next_round again refused = some none
next_round again (retry fewer) = again fewer
next_round again (planned plan) = some (some plan)

-- The loop, on fuel: `none` is a thrown error or the end of the fuel, `some none` is `null`.
unfoldable pub candidate_plan : YieldRoute → ℕ → List Holding → Option (Option YieldPlan)
candidate_plan r zero sources = none
candidate_plan r (suc fuel) sources = attempt r sources >>= next_round (candidate_plan r fuel)
