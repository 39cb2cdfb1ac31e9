-- ===== src/Lending.antt =====
-- src/domain/lending-math.ts: the value of a lending position and the actions that would rescue it.
-- `none` is a thrown error. The numbers are naturals: the two differences that the source takes
-- are never negative where it takes them (Lending/Repay and Lending/Collateral). The texts
-- of a plan's preconditions are left out.
pub mod Provider
pub mod Position
pub mod Stress
pub mod Repay
pub mod Collateral
pub mod Smallest
pub mod Candidates
pub mod Deliverable
pub mod Actionable
pub mod Samples
mod Tests
mod SingleTests
use positioncrew.Prelude.{
  ℕ, ◌+◌, ◌-◌, ◌*◌, ◌/◌, Bool, true, false, ◌&&◌, ◌||◌, Option, none, some, List, [], ◌∷◌, ◌++◌,
  ltb, leb, ◌==◌, if◌then◌else◌, Text, codes, text_eq, to_lower_case, take, drop, any,
}
use positioncrew.Prelude.Sort.{sort}
use positioncrew.Prelude.Throws.{◌>>=◌, ◌>>◌, big_div}
use positioncrew.Core.Fixed.{
  fixed_scale, parse_fixed, format_fixed, to_string, multiply_fixed, divide_fixed, ratio_from_bps,
  token_base_units_for_usd, fixed_token_amount_from_base_units, minimum,
}
use positioncrew.Contracts.{Timestamp, SourceObservation, AssetIdentity, PricedBalance}
use positioncrew.Contracts.LendingRescue.{
  ActionKind, repay_debt, add_collateral, kind_eq, LendingCollateral, AvailableAsset,
  LendingRescueRequest, LendingActionPlan,
}

pub record LendingPositionMetrics : Type 0 where
  pub collateral_value_usd : ℕ
  pub liquidation_weighted_collateral_usd : ℕ
  pub debt_value_usd : ℕ
  pub health_factor : Option ℕ

pub record LendingActionCandidate : Type 0 where
  pub plan : LendingActionPlan
  pub capital_required_usd : ℕ

unfoldable pub value_usd : Text → Text → Option ℕ
value_usd amount price_usd = do
  a ← parse_fixed amount
  p ← parse_fixed price_usd
  some (multiply_fixed a p)

-- The loop over the collateral, on the value and the weighted value so far.
unfoldable pub add_collaterals : ℕ → List LendingCollateral → ℕ → ℕ → Option (ℕ × ℕ)
add_collaterals multiplier [] value weighted = some (value, weighted)
add_collaterals multiplier (c ∷ cs) value weighted = do
  current_value ← value_usd c.amount c.price_usd
  let stressed_value = multiply_fixed current_value multiplier
  add_collaterals multiplier cs (value + stressed_value) (
      if c.collateral_enabled
      then weighted + multiply_fixed stressed_value (ratio_from_bps c.liquidation_threshold_bps)
      else weighted)

-- The loop over the debt.
unfoldable pub add_debts : List PricedBalance → ℕ → Option ℕ
add_debts [] total = some total
add_debts (d ∷ ds) total = do value ← value_usd d.amount d.price_usd; add_debts ds (total + value)

abbrev pub health : ℕ → ℕ → Option (Option ℕ)
health weighted debt =
    if debt == 0 then some none else divide_fixed weighted debt >>= λ h. some (some h)

unfoldable pub calculate_lending_position : LendingRescueRequest → ℕ → Option LendingPositionMetrics
calculate_lending_position request collateral_price_multiplier = do
  totals ← add_collaterals collateral_price_multiplier request.collateral 0 0
  debt ← add_debts request.debt 0
  h ← health totals.1 debt
  some (record {
    collateral_value_usd = totals.0;
    liquidation_weighted_collateral_usd = totals.1;
    debt_value_usd = debt;
    health_factor = h;
  })

-- `availableAssets.find`, then its amount, or 0.
unfoldable pub available_amount : List AvailableAsset → Text → Option ℕ
available_amount [] address = some 0
available_amount (a ∷ assets) address =
    if text_eq (to_lower_case a.asset.address) (to_lower_case address)
    then parse_fixed a.available_amount
    else available_amount assets address

-- `Math.min` of a bound and the times at which the sources expire.
abbrev pub source_expiry : ℕ → List SourceObservation → ℕ → ℕ
source_expiry age [] bound = bound
source_expiry age (s ∷ sources) bound =
    minimum (s.observed_at.ms + age * 1_000) (source_expiry age sources bound)

unfoldable pub execute_before : LendingRescueRequest → ℕ
execute_before request =
    source_expiry request.max_data_age_seconds request.sources request.deadline.ms

-- `canonicalHash({ requestId, payload })` of a payload's kind, asset and base units: a parameter.
abbrev pub ActionHash : Type 0
ActionHash = Text → ActionKind → Text → Text → Text

-- `projected === null || projected >= target`
abbrev pub is_at_target : ℕ → Option ℕ → Bool
is_at_target target none = true
is_at_target target (some h) = leb target h

module _ (hash : ActionHash) (request : LendingRescueRequest) where
  action_id : ActionKind → Text → Text → Text
  action_id kind asset units =
      codes "action_" ++ take 24 (drop 7 (hash request.request_id kind asset units))

  -- The plan of `units` base units of an asset, which are `amount` tokens worth `usd`.
  unfoldable pub make_plan :
      ActionKind → AssetIdentity → ℕ → ℕ → ℕ → Option ℕ → Option LendingActionPlan
  unfolding action_id
  make_plan kind asset units amount usd projected = do
    gas ← parse_fixed request.estimated_gas_usd
    some (record {
      action_id = action_id kind asset.address (to_string units);
      kind = kind;
      chain_id = request.chain_id;
      protocol = request.protocol;
      market = request.market;
      account = request.account;
      asset = asset;
      amount = format_fixed amount asset.decimals;
      amount_base_units = to_string units;
      amount_usd = format_fixed usd 6;
      estimated_gas_usd = format_fixed gas 6;
      projected_health_factor = elim projected [ none ↦ none | some h ↦ some (format_fixed h 8) ];
      execute_before = execute_before request;
      max_slippage_bps = request.max_slippage_bps;
    })

  module _ (metrics : LendingPositionMetrics) (target max_action_usd : ℕ) where
    -- The test of an action, and the push; the inner `none` adds no candidate.
    unfoldable pub propose :
        ActionKind
        → AssetIdentity
        → ℕ
        → ℕ
        → ℕ
        → Option ℕ
        → Bool
        → Option (Option LendingActionCandidate)
    propose kind asset units amount usd projected fits =
        if fits && leb usd max_action_usd && is_at_target target projected
        then (make_plan kind asset units amount usd projected >>= λ plan.
            some (some (record { plan = plan; capital_required_usd = usd })))
        else some none

    -- One round of the loop over the debt.
    unfoldable pub repay_candidate : ℕ → PricedBalance → Option (Option LendingActionCandidate)
    repay_candidate repay_usd debt = do
      price ← parse_fixed debt.price_usd
      units ← token_base_units_for_usd repay_usd price debt.asset.decimals
      let amount = fixed_token_amount_from_base_units units debt.asset.decimals
      let actual = multiply_fixed amount price
      wallet ← available_amount request.available_assets debt.asset.address
      held ← parse_fixed debt.amount
      let projected_debt = metrics.debt_value_usd - minimum actual metrics.debt_value_usd
      projected ← health metrics.liquidation_weighted_collateral_usd projected_debt
      propose repay_debt debt.asset units amount actual projected
          (leb amount wallet && leb amount held)

    -- One round of the loop over the collateral.
    unfoldable pub collateral_candidate :
        ℕ → LendingCollateral → Option (Option LendingActionCandidate)
    collateral_candidate required c =
        if c.collateral_enabled
        then (do
          let threshold = ratio_from_bps c.liquidation_threshold_bps
          add_usd ← big_div (required * fixed_scale + threshold - 1) threshold
          price ← parse_fixed c.price_usd
          units ← token_base_units_for_usd add_usd price c.asset.decimals
          let amount = fixed_token_amount_from_base_units units c.asset.decimals
          let actual = multiply_fixed amount price
          wallet ← available_amount request.available_assets c.asset.address
          let weighted =
              metrics.liquidation_weighted_collateral_usd + multiply_fixed actual threshold
          projected ← divide_fixed weighted metrics.debt_value_usd
          propose add_collateral c.asset units amount actual (some projected) (leb amount wallet))
        else some none

abbrev pub push {ℓ} : {A : Type ℓ} → Option A → List A → List A
push none rest = rest
push (some y) rest = y ∷ rest

-- A loop that pushes what its rounds yield.
unfoldable pub collect {ℓ κ} :
    {A : Type ℓ} {B : Type κ} → (A → Option (Option B)) → List A → Option (List B)
collect round [] = some []
collect round (x ∷ xs) = do found ← round x; rest ← collect round xs; some (push found rest)

-- The comparison of `candidates.sort` is at most 0. Of the two kinds ADD_COLLATERAL comes first.
unfoldable pub comes_first : LendingActionCandidate → LendingActionCandidate → Bool
comes_first left right =
    if left.capital_required_usd == right.capital_required_usd
    then kind_eq left.plan.kind add_collateral || kind_eq right.plan.kind repay_debt
    else ltb left.capital_required_usd right.capital_required_usd

unfoldable pub includes : List ActionKind → ActionKind → Bool
includes [] k = false
includes (a ∷ rest) k = kind_eq a k || includes rest k

module _ (hash : ActionHash) (request : LendingRescueRequest)
    (metrics : LendingPositionMetrics) where
  unfoldable pub repay_candidates : ℕ → ℕ → Option (List LendingActionCandidate)
  repay_candidates target max_action_usd =
      if includes request.allowed_actions repay_debt
      then (big_div (metrics.liquidation_weighted_collateral_usd * fixed_scale) target
          >>= λ maximum_debt.
              collect
                (repay_candidate hash request metrics target max_action_usd
                  (metrics.debt_value_usd - maximum_debt))
                request.debt)
      else some []

  unfoldable pub collateral_candidates : ℕ → ℕ → Option (List LendingActionCandidate)
  collateral_candidates target max_action_usd =
      if includes request.allowed_actions add_collateral
      then collect
          (collateral_candidate hash request metrics target max_action_usd (
            multiply_fixed target metrics.debt_value_usd
            - metrics.liquidation_weighted_collateral_usd))
          request.collateral
      else some []

  -- The candidates behind the guards of `buildLendingActionCandidates`.
  unfoldable pub gather_candidates : ℕ → Option (List LendingActionCandidate)
  gather_candidates target = do
    max_action ← parse_fixed request.max_action_usd
    max_gas ← parse_fixed request.max_gas_usd
    gas ← parse_fixed request.estimated_gas_usd
    if ltb max_gas gas then some [] else (do
      repays ← repay_candidates target max_action
      adds ← collateral_candidates target max_action
      some (sort comes_first (repays ++ adds)))

  unfoldable pub below_target : ℕ → Option (List LendingActionCandidate)
  below_target health_factor = do
    target ← parse_fixed request.target_health_factor
    if leb target health_factor then some [] else gather_candidates target

  unfoldable pub build_lending_action_candidates : Option (List LendingActionCandidate)
  build_lending_action_candidates =
      if metrics.debt_value_usd == 0
      then some []
      else elim metrics.health_factor [ none ↦ some [] | some h ↦ below_target h ]
