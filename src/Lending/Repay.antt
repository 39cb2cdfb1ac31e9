-- ===== src/Lending/Repay.antt =====
-- The repayment that `buildLendingActionCandidates` proposes is the smallest that reaches the target.
use positioncrew.Prelude.{
  ℕ, ◌-◌, ◌*◌, ◌/◌, ◌≤◌, ◌<◌, ◌≡◌, ◌↔◌, refl, Bool, true, false, ◌&&◌, Option, none, some, arith,
  leb, leb→le, le→leb, ◌==◌, inl, inr, Bool-cases, Option-cases, value_or,
}
use positioncrew.Prelude.Throws.{>>=-eq-some}
use positioncrew.Prelude.Numbers.{div-lt, le-div, mul-le_of_le-div}
use positioncrew.Core.Fixed.{
  fixed_scale, parse_fixed, to_string, multiply_fixed, minimum, token_base_units_for_usd,
  fixed_token_amount_from_base_units,
}
use positioncrew.Core.Fixed.Bounds.{divide_fixed-pos}
use positioncrew.Contracts.{PricedBalance, AssetIdentity}
use positioncrew.Contracts.LendingRescue.{
  LendingRescueRequest, LendingActionPlan, ActionKind, repay_debt,
}
use positioncrew.Lending.{
  LendingPositionMetrics, LendingActionCandidate, ActionHash, health, is_at_target,
  available_amount, make_plan, propose, repay_candidate,
}

-- Weighted collateral over debt is at least the target, in exact arithmetic and with no division.
abbrev pub Meets : ℕ → ℕ → ℕ → Type 0
Meets weighted target debt = debt * target ≤ weighted * fixed_scale

-- What `units` base units of a token are worth, and the debt that is left when they are repaid.
abbrev pub worth : ℕ → ℕ → ℕ → ℕ
worth decimals price units =
    multiply_fixed (fixed_token_amount_from_base_units units decimals) price

abbrev pub debt_after : ℕ → ℕ → ℕ
debt_after debt repaid = debt - minimum repaid debt

module _ (weighted target debt : ℕ) (positive : 0 < target) where
  -- Below the target the greatest debt that the collateral carries is less than the debt: the
  -- difference that the source takes is not negative.
  pub maximum_debt-lt :
      weighted * fixed_scale < debt * target → weighted * fixed_scale / target < debt
  maximum_debt-lt short = div-lt target (weighted * fixed_scale) debt positive short

  Meets-iff_le : (d : ℕ) → Meets weighted target d ↔ (d ≤ weighted * fixed_scale / target)
  Meets-iff_le d = (
    λ h. le-div target d (weighted * fixed_scale) positive h,
    λ h. mul-le_of_le-div target d (weighted * fixed_scale) positive h,
  )

  -- A repayment reaches the target exactly when it is worth the difference.
  pub Meets-iff_repaid :
      (v : ℕ)
      → Meets weighted target (debt_after debt v) ↔ (debt - weighted * fixed_scale / target ≤ v)
  unfolding minimum
  Meets-iff_repaid v = (
    λ h. ground (arith, (Meets-iff_le (debt_after debt v)).0 h),
    λ h. (Meets-iff_le (debt_after debt v)).1 (ground arith),
  )

  -- The rounded health factor that the source compares agrees with the exact test.
  pub is_at_target_iff :
      (d : ℕ)
      → (h : Option ℕ) × (health weighted d ≡ some h)
        × ((is_at_target target h ≡ true) ↔ Meets weighted target d)
  is_at_target_iff d = elim (Bool-cases (d == 0)) [
    | inl cleared ↦
        (none, rw cleared, (λ _. let e : d ≡ 0 = ground arith in rw e (omega arith), λ _. refl))
    | inr owed ↦
        let p : 0 < d = ground arith in
        (
          some (weighted * fixed_scale / d),
          rw (owed, divide_fixed-pos weighted d p),
          (
            λ h.
                omega
                  (arith, mul-le_of_le-div d target (weighted * fixed_scale) p (leb→le target _ h)),
            λ h. le→leb target _ (le-div d target (weighted * fixed_scale) p (omega arith)),
          ),
        )
  ]

abbrev pub is_some {ℓ} : {A : Type ℓ} → Option A → Bool
is_some none = false
is_some (some a) = true

abbrev pub amount_of : ℕ → ℕ → ℕ
amount_of decimals units = fixed_token_amount_from_base_units units decimals

module _ (hash : ActionHash) (request : LendingRescueRequest) where
  -- What a plan says of its amount.
  pub make_plan-eq-some :
      (kind : ActionKind) (asset : AssetIdentity) (units amount usd : ℕ) (projected : Option ℕ)
      {plan : LendingActionPlan}
      → make_plan hash request kind asset units amount usd projected ≡ some plan
      → (plan.kind ≡ kind) × (plan.asset ≡ asset) × (plan.amount_base_units ≡ to_string units)
  unfolding make_plan
  make_plan-eq-some kind asset units amount usd projected e =
      let (_, _, made) = >>=-eq-some (parse_fixed request.estimated_gas_usd) _ e in ground arith

  module _ (metrics : LendingPositionMetrics) (target max_action : ℕ) where
    pub propose-eq-some :
        (kind : ActionKind) (asset : AssetIdentity) (units amount usd : ℕ) (projected : Option ℕ)
        (fits : Bool) {c : LendingActionCandidate}
        → propose hash request metrics target max_action kind asset units amount usd projected fits
          ≡ some (some c)
        → (fits ≡ true)
          × (usd ≤ max_action)
          × (is_at_target target projected ≡ true)
          × (c.capital_required_usd ≡ usd)
          × (c.plan.kind ≡ kind)
          × (c.plan.asset ≡ asset)
          × (c.plan.amount_base_units ≡ to_string units)
    unfolding propose make_plan
    propose-eq-some kind asset units amount usd projected fits e = ground arith

    make_plan_total :
        (kind : ActionKind) (asset : AssetIdentity) (units amount usd : ℕ) (projected : Option ℕ)
        {gas : ℕ}
        → parse_fixed request.estimated_gas_usd ≡ some gas
        → (plan : LendingActionPlan) × (make_plan hash request kind asset units amount usd projected
            ≡ some plan)
    unfolding make_plan
    make_plan_total kind asset units amount usd projected eg =
        elim (Option-cases (make_plan hash request kind asset units amount usd projected)) [
          | inl missing ↦ absurd (ground arith)
          | inr found ↦ found
        ]

    -- With the target met, an action is proposed exactly if it fits.
    pub propose_total :
        (kind : ActionKind) (asset : AssetIdentity) (units amount usd : ℕ) (projected : Option ℕ)
        (fits : Bool) {gas : ℕ}
        → parse_fixed request.estimated_gas_usd ≡ some gas
        → is_at_target target projected ≡ true
        → (found : Option LendingActionCandidate) × (propose hash request metrics target max_action
              kind asset units amount usd projected fits
            ≡ some found)
          × ((is_some found ≡ true) ↔ ((fits ≡ true) × (usd ≤ max_action)))
    unfolding propose
    propose_total kind asset units amount usd projected fits eg safe =
        let (plan, made) = make_plan_total kind asset units amount usd projected eg in
        elim (Bool-cases (fits && leb usd max_action)) [
          | inl fit ↦ (
            some (record { plan = plan; capital_required_usd = usd }),
            ground arith,
            (λ _. ground arith, λ _. refl),
          )
          | inr unfit ↦ (none, ground arith, (λ h. cc, λ h. ground arith))
        ]

    -- What the source has read and tested when it adds a repayment.
    pub record Repays (repay_usd : ℕ) (debt : PricedBalance) (c : LendingActionCandidate)
        : Type 0 where
      pub price : ℕ
      pub units : ℕ
      pub wallet : ℕ
      pub held : ℕ
      pub priced : parse_fixed debt.price_usd ≡ some price
      pub bought : token_base_units_for_usd repay_usd price debt.asset.decimals ≡ some units
      pub funded : available_amount request.available_assets debt.asset.address ≡ some wallet
      pub owed : parse_fixed debt.amount ≡ some held
      pub capital : c.capital_required_usd ≡ worth debt.asset.decimals price units
      pub kind : c.plan.kind ≡ repay_debt
      pub base_units : c.plan.amount_base_units ≡ to_string units
      pub in_wallet : amount_of debt.asset.decimals units ≤ wallet
      pub in_debt : amount_of debt.asset.decimals units ≤ held
      pub in_budget : worth debt.asset.decimals price units ≤ max_action

    module _ (repay_usd : ℕ) (debt : PricedBalance) where
      abbrev price_read : ℕ
      price_read = value_or 0 (parse_fixed debt.price_usd)

      abbrev units_bought : ℕ
      units_bought = value_or 0 (token_base_units_for_usd repay_usd price_read debt.asset.decimals)

      abbrev wallet_read : ℕ
      wallet_read = value_or 0 (available_amount request.available_assets debt.asset.address)

      abbrev held_read : ℕ
      held_read = value_or 0 (parse_fixed debt.amount)

      abbrev usd_repaid : ℕ
      usd_repaid = worth debt.asset.decimals price_read units_bought

      abbrev health_after : Option ℕ
      health_after = value_or none (
          health metrics.liquidation_weighted_collateral_usd
            (debt_after metrics.debt_value_usd usd_repaid))

      repay_candidate-propose :
          {c : LendingActionCandidate}
          → repay_candidate hash request metrics target max_action repay_usd debt ≡ some (some c)
          → (parse_fixed debt.price_usd ≡ some price_read)
            × (token_base_units_for_usd repay_usd price_read debt.asset.decimals
                ≡ some units_bought)
            × (available_amount request.available_assets debt.asset.address ≡ some wallet_read)
            × (parse_fixed debt.amount ≡ some held_read)
            × (propose hash request metrics target max_action repay_debt debt.asset units_bought
                  (amount_of debt.asset.decimals units_bought)
                  usd_repaid
                  health_after
                  (leb (amount_of debt.asset.decimals units_bought) wallet_read
                    && leb (amount_of debt.asset.decimals units_bought) held_read)
                ≡ some (some c))
      unfolding repay_candidate
      repay_candidate-propose e = ground arith

      pub repay_candidate-Repays :
          {c : LendingActionCandidate}
          → repay_candidate hash request metrics target max_action repay_usd debt ≡ some (some c)
          → Repays repay_usd debt c
      repay_candidate-Repays e =
          let (priced, bought, funded, owed, proposed) = repay_candidate-propose e in
          let (fits, budget, _, capital, kind, _, base) =
            propose-eq-some repay_debt debt.asset units_bought
              (amount_of debt.asset.decimals units_bought) usd_repaid health_after _ proposed in
          record {
            price = price_read;
            units = units_bought;
            wallet = wallet_read;
            held = held_read;
            priced = priced;
            bought = bought;
            funded = funded;
            owed = owed;
            capital = capital;
            kind = kind;
            base_units = base;
            in_wallet = ground arith;
            in_debt = ground arith;
            in_budget = budget;
          }
