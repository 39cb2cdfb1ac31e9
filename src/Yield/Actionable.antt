-- ===== src/Yield/Actionable.antt =====
-- What an actionable yield move promises.
use mathlib.Core.Path.{subst}
use positioncrew.Prelude.{
  ℕ, ◌≤◌, ◌<◌, ◌≡◌, ◌⊎◌, refl, sym, Bool, some, List, [], ◌∷◌, ◌++◌, map, arith, All, All-imp, Text,
  inl, inr,
}
use positioncrew.Prelude.Throws.{each, guard, >>=-eq-some}
use positioncrew.Prelude.Sort.{sort, All-sort, All-unsort}
use positioncrew.Contracts.{ProviderStatus}
use positioncrew.Contracts.YieldOptimization.{
  YieldOptimizationRequest, YieldOptimizationDeliverable, is_yield_request,
}
use positioncrew.Lending.Deliverable.{IsFresh}
use positioncrew.Evidence.{EvidenceStatus}
use positioncrew.Evidence.Sound.{IsBacked, validate_evidence_fit, validate_evidence_expiry}
use positioncrew.Yield.{
  Holding, YieldLimits, read_limits, read_position, portfolio_input_issues, current_weighted_apy,
}
use positioncrew.Yield.Plan.{YieldPlan}
use positioncrew.Yield.Provider.{
  by_benefit, observation_of, yield_evidence, yield_candidates, answer_evidence,
  create_yield_optimization_deliverable,
}
use positioncrew.Yield.Draws.{has_duplicate-Distinct}
use positioncrew.Yield.Portfolio.{portfolio_input_issues-nil}
use positioncrew.Yield.Best.{IsLed, sort-IsLed}
use positioncrew.Yield.Candidates.{IsPlanFor, yield_candidates-IsPlanFor}
use positioncrew.Yield.Answer.{
  IsStated, IsActionable, yield_result-IsStated, evidence-portfolio, portfolio-plan,
}

-- An entry of a list.
abbrev pub IsIn : {A : Type 0} → A → List A → Type 0
IsIn x [] = ⊥
IsIn x (y ∷ ys) = (x ≡ y) ⊎ IsIn x ys

All-IsIn : {A : Type 0} (xs : List A) → All (λ x. IsIn x xs) xs
All-IsIn [] = tt
All-IsIn (x ∷ xs) =
    (inl refl, All-imp (λ y. IsIn y xs) (λ y. IsIn y (x ∷ xs)) xs (λ y k. inr k) (All-IsIn xs))

module _ (before : Text → Text → Bool) (request : YieldOptimizationRequest) (now : ℕ) where
  -- What holds of every candidate holds of the first.
  first-fact {ℓ} :
      (P : YieldPlan → Type ℓ) (candidates : List YieldPlan) (plan : YieldPlan)
      (rest : List YieldPlan)
      → sort (by_benefit before) candidates ≡ plan ∷ rest
      → All P candidates
      → P plan
  first-fact P candidates plan rest sorted facts =
      let all_sorted : All P (plan ∷ rest) =
        subst (All P) sorted (All-sort (by_benefit before) P candidates facts) in
      all_sorted.0

  pub first-leads :
      (candidates : List YieldPlan) (plan : YieldPlan) (rest : List YieldPlan)
      → sort (by_benefit before) candidates ≡ plan ∷ rest
      → All (λ (other : YieldPlan). other.net_benefit ≤ plan.net_benefit) candidates
  first-leads candidates plan rest sorted =
      let led : IsLed (plan ∷ rest) = subst IsLed sorted (sort-IsLed before candidates) in
      All-unsort (by_benefit before) (λ (other : YieldPlan). other.net_benefit ≤ plan.net_benefit)
        candidates
        (subst (All (λ (other : YieldPlan). other.net_benefit ≤ plan.net_benefit)) (sym sorted)
          (omega arith, led))

  -- What an actionable yield move rests on.
  pub record IsYield (d : YieldOptimizationDeliverable) : Type 0 where
    pub limits : YieldLimits
    pub positions : List Holding
    pub opportunities : List Holding
    pub candidates : List YieldPlan
    pub plan : YieldPlan
    pub opportunity : Holding
    pub limits_read : read_limits request ≡ some limits
    pub positions_read : each read_position request.current_positions ≡ some positions
    pub opportunities_read : each read_position request.opportunities ≡ some opportunities
    pub in_time : now < request.deadline.ms
    pub backed :
        All
          (IsBacked request.sources now)
          (map observation_of (request.current_positions ++ request.opportunities))
    pub fresh : All (IsFresh request.max_data_age_seconds now) request.sources
    pub no_issues : portfolio_input_issues limits.capital positions opportunities ≡ []
    pub listed : IsIn opportunity opportunities
    pub planned : IsPlanFor before request now limits positions opportunity plan
    pub computed :
        yield_candidates before request now limits positions opportunities ≡ some candidates
    pub leading : All (λ (other : YieldPlan). other.net_benefit ≤ plan.net_benefit) candidates
    pub stated : IsStated d plan
    pub answers : (d.request_id ≡ request.request_id) × (d.generated_at ≡ now)
    pub current : d.current_weighted_apy_bps ≡ current_weighted_apy positions
    pub expires : (d.expires_at ≤ request.deadline.ms) × (now ≤ d.expires_at)

  fit-evidence :
      (d : YieldOptimizationDeliverable)
      → (yield_evidence before request now).status ≡ EvidenceStatus.fit
      → d.expires_at ≡ (yield_evidence before request now).expires_at
      → (now < request.deadline.ms)
        × All
            (IsBacked request.sources now)
            (map observation_of (request.current_positions ++ request.opportunities))
        × All (IsFresh request.max_data_age_seconds now) request.sources
        × (d.expires_at ≤ request.deadline.ms)
        × (now ≤ d.expires_at)
  fit-evidence d fit expiry =
      let observations = map observation_of (request.current_positions ++ request.opportunities) in
      let (in_time, backed, _, fresh) =
        (validate_evidence_fit request.sources now observations request.deadline.ms
            request.max_data_age_seconds).0
          fit in
      let (until, _, alive) =
        validate_evidence_expiry request.sources now observations request.deadline.ms
          request.max_data_age_seconds in
      let after = alive fit in
      (in_time, backed, fresh, omega (arith, expiry, until), omega (arith, expiry, after))

  answer_evidence-IsYield :
      (limits : YieldLimits) (positions opportunities : List Holding)
      {d : YieldOptimizationDeliverable}
      → read_limits request ≡ some limits
      → each read_position request.current_positions ≡ some positions
      → each read_position request.opportunities ≡ some opportunities
      → answer_evidence before request now limits positions opportunities ≡ some d
      → IsActionable before request now d
      → IsYield d
  answer_evidence-IsYield limits positions opportunities {d} limits_read positions_read listed h a =
      let (fit, answered) =
        evidence-portfolio before request now limits positions opportunities h a in
      let (none_issued, (candidates, plan, rest, computed, sorted, given)) =
        portfolio-plan before request now limits positions opportunities answered a in
      let (stated, expiry, asked, given_at, current) =
        yield_result-IsStated before request now (current_weighted_apy positions) plan given in
      let (below, unique, _, _, _) =
        portfolio_input_issues-nil limits.capital positions opportunities none_issued in
      let distinct = has_duplicate-Distinct (λ (h : Holding). h.opportunity_id) positions unique in
      let facts =
        yield_candidates-IsPlanFor before request now (λ (o : Holding). IsIn o opportunities) limits
          positions opportunities candidates below distinct (All-IsIn opportunities) computed in
      let (opportunity, is_listed, planned) = first-fact _ candidates plan rest sorted facts in
      let (in_time, backed, fresh, until, alive) = fit-evidence d fit expiry in
      record {
        limits = limits;
        positions = positions;
        opportunities = opportunities;
        candidates = candidates;
        plan = plan;
        opportunity = opportunity;
        limits_read = limits_read;
        positions_read = positions_read;
        opportunities_read = listed;
        in_time = in_time;
        backed = backed;
        fresh = fresh;
        no_issues = none_issued;
        listed = is_listed;
        planned = planned;
        computed = computed;
        leading = first-leads candidates plan rest sorted;
        stated = stated;
        answers = (asked, given_at);
        current = current;
        expires = (until, alive);
      }

  pub actionable-IsYield :
      {d : YieldOptimizationDeliverable}
      → create_yield_optimization_deliverable before request now ≡ some d
      → d.status ≡ ProviderStatus.actionable
      → IsYield d
  unfolding create_yield_optimization_deliverable
  actionable-IsYield {d} h a =
      let (_, _, h₁) = >>=-eq-some (guard (is_yield_request request)) _ h in
      let (limits, limits_read, h₂) = >>=-eq-some (read_limits request) _ h₁ in
      let (positions, positions_read, h₃) =
        >>=-eq-some (each read_position request.current_positions) _ h₂ in
      let (opportunities, opportunities_read, h₄) =
        >>=-eq-some (each read_position request.opportunities) _ h₃ in
      answer_evidence-IsYield limits positions opportunities limits_read positions_read
        opportunities_read h₄ a
