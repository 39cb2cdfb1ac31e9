-- ===== src/Yield/Answer.antt =====
-- What stands behind an actionable yield move, step by step.
use positioncrew.Prelude.{
  ℕ, ◌≡◌, ◌⊎◌, refl, sym, ap, Bool, Option, none, some, some_inj, List, [], ◌∷◌, map, arith, Text,
  inl, inr, if◌then◌else◌, Bool-cases,
}
use positioncrew.Prelude.Throws.{>>=-eq-some}
use positioncrew.Prelude.Sort.{sort}
use positioncrew.Core.Fixed.{parse_fixed}
use positioncrew.Core.Fixed.RoundTrip.{parse_fixed-format_fixed_exact}
use positioncrew.Contracts.{ProviderStatus}
use positioncrew.Contracts.YieldOptimization.{
  YieldOptimizationRequest, YieldOptimizationDeliverable, YieldDecision, hold, nothing, supply,
  migrate, WithdrawalText, AllocationText, is_yield_deliverable,
}
use positioncrew.Lending.Provider.{is_empty}
use positioncrew.Evidence.{EvidenceStatus}
use positioncrew.Evidence.Sound.{is_empty-nil}
use positioncrew.Yield.{Holding, YieldLimits, portfolio_input_issues, current_weighted_apy}
use positioncrew.Yield.Plan.{YieldPlan}
use positioncrew.Yield.Provider.{
  by_benefit, yield_evidence, admitted_yield, empty_yield_result, yield_result, yield_candidates,
  withdrawal_text, allocation_text, answer_selected, answer_portfolio, answer_evidence,
}

-- An amount that is given, and read back.
abbrev pub Reads : Option Text → ℕ → Type 0
Reads none n = ⊥
Reads (some t) n = parse_fixed t ≡ some n

-- The entries of two lists pair by pair: the same name, and the amount that its text reads back.
abbrev pub StatesWithdrawals : List WithdrawalText → List (Text × ℕ) → Type 0
StatesWithdrawals [] [] = Unit
StatesWithdrawals (t ∷ ts) (w ∷ ws) =
    (t.opportunity_id ≡ w.0) × (parse_fixed t.amount_usd ≡ some w.1) × StatesWithdrawals ts ws
StatesWithdrawals _ _ = ⊥

abbrev pub StatesAllocations : List AllocationText → List (Text × ℕ) → Type 0
StatesAllocations [] [] = Unit
StatesAllocations (t ∷ ts) (a ∷ rest) =
    (t.protocol ≡ a.0) × (parse_fixed t.amount_usd ≡ some a.1) × StatesAllocations ts rest
StatesAllocations _ _ = ⊥

-- What the texts of a deliverable say of a plan.
pub record IsStated (d : YieldOptimizationDeliverable) (plan : YieldPlan) : Type 0 where
  pub withdrawal_texts : List WithdrawalText
  pub allocation_texts : List AllocationText
  pub decision : d.decision ≡ (if is_empty plan.withdrawals then supply else migrate)
  pub selected : d.selected_opportunity_id ≡ some plan.opportunity.opportunity_id
  pub rate : d.gross_apy_bps ≡ some plan.opportunity.gross_apy_bps
  pub allocation : parse_fixed d.allocation_usd ≡ some plan.allocation
  pub uplift : parse_fixed d.annual_yield_uplift_usd ≡ some plan.annual_yield_uplift
  pub benefit : parse_fixed d.net_benefit_usd ≡ some plan.net_benefit
  pub cost : parse_fixed d.migration_cost_usd ≡ some plan.migration_cost
  pub break_even : Reads d.break_even_days plan.break_even_days
  pub withdrawals_given : d.withdrawals ≡ some withdrawal_texts
  pub withdrawals : StatesWithdrawals withdrawal_texts plan.withdrawals
  pub idle_used : Reads d.idle_capital_used_usd plan.idle_capital_used
  pub allocations_given : d.final_protocol_allocations ≡ some allocation_texts
  pub allocations : StatesAllocations allocation_texts plan.final_protocol_allocations
  pub idle_left : Reads d.remaining_idle_capital_usd plan.remaining_idle_capital
  pub capital_left : Reads d.post_migration_capital_usd plan.post_migration_capital

pub List-cases {ℓ} :
    {A : Type ℓ} (xs : List A) → (xs ≡ []) ⊎ ((x : A) × (rest : List A) × (xs ≡ x ∷ rest))
List-cases [] = inl refl
List-cases (x ∷ xs) = inr (x, xs, refl)

module _ (before : Text → Text → Bool) (request : YieldOptimizationRequest) (now : ℕ) where
  withdrawal_text-StatesWithdrawals :
      (ws : List (Text × ℕ)) → StatesWithdrawals (map (withdrawal_text before request now) ws) ws
  withdrawal_text-StatesWithdrawals [] = tt
  withdrawal_text-StatesWithdrawals (w ∷ ws) =
      (refl, parse_fixed-format_fixed_exact w.1, withdrawal_text-StatesWithdrawals ws)

  allocation_text-StatesAllocations :
      (rest : List (Text × ℕ))
      → StatesAllocations (map (allocation_text before request now) rest) rest
  allocation_text-StatesAllocations [] = tt
  allocation_text-StatesAllocations (a ∷ rest) =
      (refl, parse_fixed-format_fixed_exact a.1, allocation_text-StatesAllocations rest)

  abbrev pub IsActionable : YieldOptimizationDeliverable → Type 0
  IsActionable d = d.status ≡ ProviderStatus.actionable

  admitted_yield-eq :
      (d e : YieldOptimizationDeliverable) → admitted_yield before request now d ≡ some e → e ≡ d
  admitted_yield-eq d e h = elim (Bool-cases (is_yield_deliverable d)) [
    | inl good ↦ sym (some_inj (rw good at h))
    | inr bad ↦ let h' = rw bad at h in cc
  ]

  empty_yield_result-status :
      (status : ProviderStatus) (decision : YieldDecision) (apy : ℕ)
      {d : YieldOptimizationDeliverable}
      → empty_yield_result before request now status decision apy ≡ some d
      → d.status ≡ status
  unfolding empty_yield_result
  empty_yield_result-status status decision apy {d} h =
      ap (λ (x : YieldOptimizationDeliverable). x.status) (admitted_yield-eq _ d h)

  pub yield_result-IsStated :
      (apy : ℕ) (plan : YieldPlan) {d : YieldOptimizationDeliverable}
      → yield_result before request now apy plan ≡ some d
      → IsStated d plan
        × (d.expires_at ≡ (yield_evidence before request now).expires_at)
        × (d.request_id ≡ request.request_id)
        × (d.generated_at ≡ now)
        × (d.current_weighted_apy_bps ≡ apy)
  unfolding yield_result
  yield_result-IsStated apy plan {d} h = rw (admitted_yield-eq _ d h) (
    record {
      withdrawal_texts = map (withdrawal_text before request now) plan.withdrawals;
      allocation_texts = map (allocation_text before request now) plan.final_protocol_allocations;
      decision = refl;
      selected = refl;
      rate = refl;
      allocation = parse_fixed-format_fixed_exact plan.allocation;
      uplift = parse_fixed-format_fixed_exact plan.annual_yield_uplift;
      benefit = parse_fixed-format_fixed_exact plan.net_benefit;
      cost = parse_fixed-format_fixed_exact plan.migration_cost;
      break_even = parse_fixed-format_fixed_exact plan.break_even_days;
      withdrawals_given = refl;
      withdrawals = withdrawal_text-StatesWithdrawals plan.withdrawals;
      idle_used = parse_fixed-format_fixed_exact plan.idle_capital_used;
      allocations_given = refl;
      allocations = allocation_text-StatesAllocations plan.final_protocol_allocations;
      idle_left = parse_fixed-format_fixed_exact plan.remaining_idle_capital;
      capital_left = parse_fixed-format_fixed_exact plan.post_migration_capital;
    },
    refl,
    refl,
    refl,
    refl,
  )

  -- An actionable answer has fit evidence and comes from the portfolio.
  pub evidence-portfolio :
      (limits : YieldLimits) (positions opportunities : List Holding)
      {d : YieldOptimizationDeliverable}
      → answer_evidence before request now limits positions opportunities ≡ some d
      → IsActionable d
      → ((yield_evidence before request now).status ≡ EvidenceStatus.fit)
        × (answer_portfolio before request now limits positions opportunities ≡ some d)
  unfolding answer_evidence
  evidence-portfolio limits positions opportunities {d} h a =
      let apy = current_weighted_apy positions in
      let expired = empty_yield_result-status ProviderStatus.refused_expired nothing apy {d = d} in
      let stale = empty_yield_result-status ProviderStatus.refused_stale_data nothing apy {d = d} in
      let inconsistent =
        empty_yield_result-status ProviderStatus.refused_inconsistent_data nothing apy {d = d} in
      ground (arith, expired, stale, inconsistent)

  -- It has no issues, and the first of its candidates is the plan.
  pub portfolio-plan :
      (limits : YieldLimits) (positions opportunities : List Holding)
      {d : YieldOptimizationDeliverable}
      → answer_portfolio before request now limits positions opportunities ≡ some d
      → IsActionable d
      → (portfolio_input_issues limits.capital positions opportunities ≡ [])
        × ((candidates : List YieldPlan) × (plan : YieldPlan) × (rest : List YieldPlan)
            × (yield_candidates before request now limits positions opportunities ≡ some candidates)
            × (sort (by_benefit before) candidates ≡ plan ∷ rest)
            × (yield_result before request now (current_weighted_apy positions) plan ≡ some d))
  unfolding answer_portfolio answer_selected
  portfolio-plan limits positions opportunities {d} h a =
      let apy = current_weighted_apy positions in
      let issues = portfolio_input_issues limits.capital positions opportunities in
      elim (Bool-cases (is_empty issues)) [
        | inr some_issue ↦
            let s =
              empty_yield_result-status ProviderStatus.refused_inconsistent_data nothing apy
                (rw some_issue at h) in
            absurd cc
        | inl no_issue ↦
            let (candidates, found, more) =
              >>=-eq-some (yield_candidates before request now limits positions opportunities)
                (λ candidates.
                  answer_selected before request now apy (sort (by_benefit before) candidates))
                (rw no_issue at h) in
            (
              (is_empty-nil issues).0 no_issue,
              elim (List-cases (sort (by_benefit before) candidates)) [
                | inl empty ↦
                    let s =
                      empty_yield_result-status ProviderStatus.no_action hold apy
                        (rw empty at more) in
                    absurd cc
                | inr (plan, rest, sorted) ↦
                    (candidates, plan, rest, found, sorted, rw sorted at more)
              ],
            )
      ]
