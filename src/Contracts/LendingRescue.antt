-- ===== src/Contracts/LendingRescue.antt =====
-- src/contracts/lending-rescue.ts: the request of a lending rescue and the plan that it is answered
-- with. The free texts of a deliverable (summary, conditions, limitations) are left out.
use positioncrew.Prelude.{
  ℕ, ◌+◌, Bool, true, false, not, ◌&&◌, Option, none, some, List, ltb, leb, Text, length, all,
  is_digit, if◌then◌else◌,
}
use positioncrew.Core.Fixed.{fixed_scale, parse_fixed}
use positioncrew.Contracts.{
  SourceObservation, AssetIdentity, PricedBalance, BaseRequest, ProviderStatus, has_length,
  is_chain, in_range, is_address, is_asset_identity, is_priced_balance, is_base_request,
  is_positive_decimal, is_unsigned_decimal,
}

pub data ActionKind : Type 0 where
  repay_debt add_collateral : ActionKind

abbrev pub kind_eq : ActionKind → ActionKind → Bool
kind_eq repay_debt repay_debt = true
kind_eq add_collateral add_collateral = true
kind_eq _ _ = false

pub record LendingCollateral : Type 0 where
  pub balance : PricedBalance
  pub open balance use *
  pub liquidation_threshold_bps : ℕ
  pub collateral_enabled : Bool

pub record AvailableAsset : Type 0 where
  pub asset : AssetIdentity
  pub available_amount : Text

pub record LendingRescueRequest : Type 0 where
  pub base : BaseRequest
  pub open base use *
  pub market : Text
  pub collateral : List LendingCollateral
  pub debt : List PricedBalance
  pub available_assets : List AvailableAsset
  pub allowed_actions : List ActionKind
  pub target_health_factor : Text
  pub stress_price_drop_bps : ℕ
  pub oracle_deviation_tolerance_bps : ℕ
  pub estimated_gas_usd : Text

unfoldable pub is_collateral : LendingCollateral → Bool
unfolding is_priced_balance
is_collateral c = is_priced_balance c.balance && in_range 1 10_000 c.liquidation_threshold_bps

unfoldable pub is_available_asset : AvailableAsset → Bool
unfolding is_asset_identity is_unsigned_decimal
is_available_asset a = is_asset_identity a.asset && is_unsigned_decimal a.available_amount

-- `Number(text) > 1`: the double nearest to a decimal is above 1 exactly where the decimal is above
-- 1 + 2^-53, which at 18 places is a last digit of at least 112.
unfoldable pub number_above_one : Text → Bool
number_above_one s = elim (parse_fixed s) [ none ↦ false | some v ↦ ltb (fixed_scale + 111) v ]

-- `LendingRescueRequestSchema`
unfoldable pub is_lending_request : LendingRescueRequest → Bool
unfolding is_base_request is_address is_collateral is_priced_balance is_available_asset
    is_positive_decimal is_unsigned_decimal number_above_one
is_lending_request r =
    is_base_request r.base
    && is_address r.market
    && leb (length r.collateral) 32
    && all is_collateral r.collateral
    && leb (length r.debt) 32
    && all is_priced_balance r.debt
    && all is_available_asset r.available_assets
    && in_range 1 2 (length r.allowed_actions)
    && is_positive_decimal r.target_health_factor
    && leb r.stress_price_drop_bps 5_000
    && in_range 1 2_000 r.oracle_deviation_tolerance_bps
    && is_unsigned_decimal r.estimated_gas_usd
    && number_above_one r.target_health_factor

-- `LendingActionPlan`; `execute_before` is in milliseconds.
pub record LendingActionPlan : Type 0 where
  pub action_id : Text
  pub kind : ActionKind
  pub chain_id : ℕ
  pub protocol : Text
  pub market : Text
  pub account : Text
  pub asset : AssetIdentity
  pub amount : Text
  pub amount_base_units : Text
  pub amount_usd : Text
  pub estimated_gas_usd : Text
  pub projected_health_factor : Option Text
  pub execute_before : ℕ
  pub max_slippage_bps : ℕ

abbrev pub optional : {A : Type 0} → (A → Bool) → Option A → Bool
optional p none = true
optional p (some s) = p s

-- `LendingActionPlanSchema`
unfoldable pub is_plan : LendingActionPlan → Bool
unfolding is_address is_asset_identity is_positive_decimal is_unsigned_decimal
is_plan p =
    has_length 8 160 p.action_id
    && is_chain p.chain_id
    && has_length 1 80 p.protocol
    && is_address p.market
    && is_address p.account
    && is_asset_identity p.asset
    && is_positive_decimal p.amount
    && leb 1 (length p.amount_base_units)
    && all is_digit p.amount_base_units
    && is_positive_decimal p.amount_usd
    && is_unsigned_decimal p.estimated_gas_usd
    && optional is_positive_decimal p.projected_health_factor
    && leb p.max_slippage_bps 2_000

pub data Decision : Type 0 where
  act : ActionKind → Decision
  nothing : Decision

pub record LendingPosition : Type 0 where
  pub collateral_value_usd : Text
  pub liquidation_weighted_collateral_usd : Text
  pub debt_value_usd : Text
  pub current_health_factor : Option Text
  pub stressed_health_factor : Option Text
  pub target_health_factor : Text

-- `LendingRescueDeliverable`, its times in milliseconds.
pub record LendingRescueDeliverable : Type 0 where
  pub request_id : Text
  pub generated_at : ℕ
  pub expires_at : ℕ
  pub status : ProviderStatus
  pub decision : Decision
  pub position : LendingPosition
  pub recommendation : Option LendingActionPlan
  pub alternatives : List LendingActionPlan
  pub sources : List SourceObservation

abbrev is_actionable : ProviderStatus → Bool
is_actionable ProviderStatus.actionable = true
is_actionable _ = false

abbrev has_plan : Option LendingActionPlan → Bool
has_plan none = false
has_plan (some _) = true

abbrev is_action : Decision → Bool
is_action (act _) = true
is_action nothing = false

abbrev optional_plan : Option LendingActionPlan → Bool
optional_plan none = true
optional_plan (some p) = is_plan p

-- `LendingRescueDeliverableSchema`: the plans are checked, and a plan comes with the status
-- ACTIONABLE and with no other.
unfoldable pub is_lending_deliverable : LendingRescueDeliverable → Bool
unfolding is_plan
is_lending_deliverable d =
    optional_plan d.recommendation
    && all is_plan d.alternatives
    && (if is_actionable d.status
        then is_action d.decision && has_plan d.recommendation
        else not (is_action d.decision) && not (has_plan d.recommendation))
