-- ===== src/Lending/Provider.antt =====
-- src/providers/lending-rescue.ts: the answer to a rescue request. `none` is a thrown error; the
-- texts of the answer are left out, a refusal's reasons are values.
use positioncrew.Prelude.{
  ℕ, ◌+◌, ◌-◌, ◌*◌, Bool, true, false, not, ◌||◌, Option, none, some, List, [], ◌∷◌, ◌++◌, map, ltb,
  leb, ◌==◌, if◌then◌else◌, Text, text_eq, filter,
}
use positioncrew.Prelude.Throws.{◌>>=◌, ◌>>◌, guard}
use positioncrew.Core.Fixed.{fixed_scale, parse_fixed, format_fixed, ratio_from_bps}
use positioncrew.Contracts.{SourceObservation, PricedBalance, ProviderStatus}
use positioncrew.Contracts.LendingRescue.{
  LendingCollateral, LendingRescueRequest, LendingActionPlan, LendingPosition,
  LendingRescueDeliverable, Decision, act, nothing, is_lending_request, is_lending_deliverable,
}
use positioncrew.Lending.{
  LendingPositionMetrics, LendingActionCandidate, ActionHash, calculate_lending_position,
  build_lending_action_candidates, execute_before,
}

-- `new Map(sources.map(...)).get(id)`: of two sources with one id the later is kept.
unfoldable pub find_source : List SourceObservation → Text → Option SourceObservation
find_source [] id = none
find_source (s ∷ sources) id = elim (find_source sources id) [
  | some later ↦ some later
  | none ↦ if text_eq s.source_id id then some s else none
]

pub data Problem : Type 0 where
  missing_source future_dated timestamp_mismatch : PricedBalance → Problem

abbrev when : Bool → Problem → List Problem
when b p = if b then p ∷ [] else []

unfoldable pub entry_problems : List SourceObservation → ℕ → PricedBalance → List Problem
entry_problems sources now entry = elim (find_source sources entry.source_id) [
  | none ↦ missing_source entry ∷ []
  | some source ↦
      when (ltb now entry.observed_at.ms) (future_dated entry)
      ++ when (not (text_eq entry.observed_at.text source.observed_at.text))
          (timestamp_mismatch entry)
]

unfoldable pub problems_of : List SourceObservation → ℕ → List PricedBalance → List Problem
problems_of sources now [] = []
problems_of sources now (e ∷ entries) =
    entry_problems sources now e ++ problems_of sources now entries

abbrev pub priced_entries : LendingRescueRequest → List PricedBalance
priced_entries request =
    map (λ (c : LendingCollateral). c.balance) request.collateral ++ request.debt

unfoldable pub source_integrity_problems : LendingRescueRequest → ℕ → List Problem
unfolding problems_of
source_integrity_problems request now = problems_of request.sources now (priced_entries request)

-- The difference of the two times is signed in the source: an age above the limit, by addition.
unfoldable pub stale_sources : LendingRescueRequest → ℕ → List SourceObservation
stale_sources request now =
    filter
      (λ (s : SourceObservation). ltb (s.observed_at.ms + request.max_data_age_seconds * 1_000) now)
      request.sources

unfoldable pub result_expiry : LendingRescueRequest → ℕ
unfolding execute_before
result_expiry request = execute_before request

abbrev pub format_health : Option ℕ → Option Text
format_health none = none
format_health (some h) = some (format_fixed h 8)

unfoldable pub position_of :
    LendingRescueRequest → LendingPositionMetrics → LendingPositionMetrics → LendingPosition
position_of request current stressed = record {
  collateral_value_usd = format_fixed current.collateral_value_usd 6;
  liquidation_weighted_collateral_usd = format_fixed current.liquidation_weighted_collateral_usd 6;
  debt_value_usd = format_fixed current.debt_value_usd 6;
  current_health_factor = format_health current.health_factor;
  stressed_health_factor = format_health stressed.health_factor;
  target_health_factor = request.target_health_factor;
}

-- What an answer says beyond its common fields.
pub record Answer : Type 0 where
  pub status : ProviderStatus
  pub decision : Decision
  pub recommendation : Option LendingActionPlan
  pub alternatives : List LendingActionPlan

abbrev pub without_plan : ProviderStatus → Answer
without_plan s = record { status = s; decision = nothing; recommendation = none; alternatives = [] }

abbrev pub with_plans : List LendingActionCandidate → Answer
with_plans [] = without_plan ProviderStatus.refused_constraints
with_plans (c ∷ cs) = record {
  status = ProviderStatus.actionable;
  decision = act c.plan.kind;
  recommendation = some c.plan;
  alternatives = map (λ (d : LendingActionCandidate). d.plan) cs;
}

abbrev pub is_empty {ℓ} : {A : Type ℓ} → List A → Bool
is_empty [] = true
is_empty (x ∷ xs) = false

module _ (hash : ActionHash) (request : LendingRescueRequest) where
  -- The last guards, where there is debt.
  unfoldable pub rescue : LendingPositionMetrics → ℕ → Option Answer
  rescue current health_factor = do
    target ← parse_fixed request.target_health_factor
    if leb target health_factor
        then some (without_plan ProviderStatus.no_action)
        else (build_lending_action_candidates hash request current >>= λ cs. some (with_plans cs))

  unfoldable pub answer : LendingPositionMetrics → ℕ → Option Answer
  answer current now =
      if leb request.deadline.ms now
      then some (without_plan ProviderStatus.refused_expired)
      else if not (is_empty (source_integrity_problems request now))
      then some (without_plan ProviderStatus.refused_inconsistent_data)
      else if not (is_empty (stale_sources request now))
      then some (without_plan ProviderStatus.refused_stale_data)
      else if is_empty request.collateral || is_empty request.debt
      then some (without_plan ProviderStatus.refused_constraints)
      else if current.debt_value_usd == 0
      then some (without_plan ProviderStatus.no_action)
      else elim current.health_factor [
        | none ↦ some (without_plan ProviderStatus.no_action)
        | some h ↦ rescue current h
      ]

  unfoldable pub deliver :
      LendingPositionMetrics → LendingPositionMetrics → ℕ → Answer → LendingRescueDeliverable
  deliver current stressed now a = record {
    request_id = request.request_id;
    generated_at = now;
    expires_at = result_expiry request;
    status = a.status;
    decision = a.decision;
    position = position_of request current stressed;
    recommendation = a.recommendation;
    alternatives = a.alternatives;
    sources = request.sources;
  }

  -- Both `parse` calls throw where the schema's test fails.
  unfoldable pub create_lending_rescue_deliverable : ℕ → Option LendingRescueDeliverable
  create_lending_rescue_deliverable now = do
    guard (is_lending_request request)
    current ← calculate_lending_position request fixed_scale
    stressed ←
        calculate_lending_position request
          (fixed_scale - ratio_from_bps request.stress_price_drop_bps)
    a ← answer current now
    guard (is_lending_deliverable (deliver current stressed now a))
    some (deliver current stressed now a)
