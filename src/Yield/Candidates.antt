-- ===== src/Yield/Candidates.antt =====
-- The candidates of a portfolio, each with its opportunity.
use positioncrew.Prelude.{
  ℕ, suc, ◌+◌, ◌≤◌, ◌≡◌, refl, sym, ap, ◌∙◌, Bool, true, false, none, some, List, [], ◌∷◌, length,
  map, arith, All, All-imp, inl, inr, Bool-cases, Option-cases, some_inj, Text, All-both,
}
use positioncrew.Prelude.Throws.{◌>>=◌, >>=-eq-some}
use positioncrew.Contracts.YieldOptimization.{YieldOptimizationRequest}
use positioncrew.Yield.{Holding, YieldLimits, has_duplicate, sum_of}
use positioncrew.Yield.Plan.{YieldPlan}
use positioncrew.Yield.Sources.{best_plan, funding_source_sets}
use positioncrew.Yield.Provider.{
  is_eligible, is_funding_source, potential_sources, route_to, plan_opportunity, yield_candidates,
}
use positioncrew.Yield.Draws.{DistinctIds, Distinct-has_duplicate}
use positioncrew.Yield.Sums.{sum_amounts}
use positioncrew.Yield.Accounts.{
  RespectsLimits, IsBalanced, candidate_plan-opportunity, candidate_plan-RespectsLimits,
  candidate_plan-IsBalanced,
}
use positioncrew.Yield.Sourced.{IsSourced, candidate_plan-IsSourced}
use positioncrew.Yield.Sets.{funding_source_sets-All}
use positioncrew.Yield.Apart.{funding_source_sets-DistinctIds}
use positioncrew.Yield.Best.{best_plan-eq-some}
use positioncrew.Yield.Held.{held_by_protocol-sum, held_by_protocol-distinct}
use positioncrew.Yield.Eligible.{
  potential_sources-true, potential_sources-DistinctIds, IsEligible, IsFundingSource,
  is_eligible-IsEligible, is_funding_source-IsFundingSource,
}

module _ (before : Text → Text → Bool) (request : YieldOptimizationRequest) (now : ℕ) where
  -- What a plan for an opportunity satisfies.
  pub record IsPlanFor (limits : YieldLimits) (positions : List Holding) (opportunity : Holding)
      (plan : YieldPlan) : Type 0 where
    pub eligible : IsEligible before request now limits opportunity
    pub chosen : plan.opportunity ≡ opportunity
    pub limited : RespectsLimits (route_to before request now limits positions opportunity) plan
    pub balanced : IsBalanced (route_to before request now limits positions opportunity) plan
    pub sourced : All (IsSourced (IsFundingSource before request now opportunity)) plan.withdrawals

  route-facts :
      (limits : YieldLimits) (positions : List Holding) (opportunity : Holding)
      → sum_of (λ (h : Holding). h.amount) positions ≤ limits.capital
      → let r = route_to before request now limits positions opportunity in
        (has_duplicate (map (λ (e : Text × ℕ). e.0) r.held_by_protocol) ≡ false)
        × (sum_amounts r.held_by_protocol + r.idle_capital ≡ r.capital)
        × (r.opportunity ≡ opportunity)
  unfolding route_to has_duplicate
  route-facts limits positions opportunity below = (
    held_by_protocol-distinct positions [] refl,
    omega (arith, held_by_protocol-sum positions [], below),
    refl,
  )

  plan_opportunity-IsPlanFor :
      (limits : YieldLimits) (positions : List Holding) (opportunity : Holding) (plan : YieldPlan)
      → sum_of (λ (h : Holding). h.amount) positions ≤ limits.capital
      → DistinctIds positions
      → plan_opportunity before request now limits positions opportunity ≡ some (some plan)
      → IsPlanFor limits positions opportunity plan
  unfolding plan_opportunity
  plan_opportunity-IsPlanFor limits positions opportunity plan below distinct found =
      let r = route_to before request now limits positions opportunity in
      let sources = potential_sources before request now positions opportunity in
      let sets = funding_source_sets r sources in
      let Source : Holding → Type 0 = IsFundingSource before request now opportunity in
      let tested = potential_sources-true before request now positions opportunity in
      elim (Bool-cases (is_eligible before request now limits opportunity)) [
        | inr unfit ↦ absurd (let e = rw (plan_opportunity, unfit) at found in cc)
        | inl fit ↦
            let best : best_plan r sets none ≡ some (some plan) =
              rw (plan_opportunity, fit) at found in
            let apart =
              funding_source_sets-DistinctIds r sources
                (potential_sources-DistinctIds before request now positions opportunity distinct) in
            let usable = funding_source_sets-All r Source sources (
              All-imp (λ (s : Holding). is_funding_source before request now opportunity s ≡ true)
                Source sources
                (λ s k. is_funding_source-IsFundingSource before request now opportunity s k)
                tested) in
            elim (best_plan-eq-some r (λ set. DistinctIds set × All Source set) sets none plan
              (All-both DistinctIds (All Source) sets apart usable) best) [
                | inl a ↦ absurd cc
                | inr (set, (ids, ok), made) ↦
                    let (keys, whole, same) = route-facts limits positions opportunity below in
                    let fuel = suc (length set) in
                    let unique =
                      Distinct-has_duplicate (λ (h : Holding). h.opportunity_id) set ids in
                    record {
                      eligible = is_eligible-IsEligible before request now limits opportunity fit;
                      chosen = candidate_plan-opportunity r fuel set plan made ∙ same;
                      limited = candidate_plan-RespectsLimits r fuel set plan made;
                      balanced = candidate_plan-IsBalanced r fuel set plan unique keys whole made;
                      sourced = candidate_plan-IsSourced Source r fuel set plan ok unique keys made;
                    }
              ]
      ]

  -- The plans of the candidates, each for an opportunity of the list.
  pub yield_candidates-IsPlanFor {ℓ} :
      (P : Holding → Type ℓ) (limits : YieldLimits) (positions opportunities : List Holding)
      (plans : List YieldPlan)
      → sum_of (λ (h : Holding). h.amount) positions ≤ limits.capital
      → DistinctIds positions
      → All P opportunities
      → yield_candidates before request now limits positions opportunities ≡ some plans
      → All (λ (plan : YieldPlan). (o : Holding) × P o × IsPlanFor limits positions o plan) plans
  unfolding yield_candidates
  yield_candidates-IsPlanFor P limits positions [] plans below distinct p e =
      let same = some_inj e in rw (sym same) tt
  yield_candidates-IsPlanFor P limits positions (o ∷ os) plans below distinct p e =
      let (best, made, more) =
        >>=-eq-some (plan_opportunity before request now limits positions o)
          (λ best. yield_candidates before request now limits positions os >>= λ rest.
            some (elim best [ none ↦ rest | some plan ↦ plan ∷ rest ]))
          e in
      let (rest, found, last) =
        >>=-eq-some (yield_candidates before request now limits positions os)
          (λ rest. some (elim best [ none ↦ rest | some plan ↦ plan ∷ rest ])) more in
      let others = yield_candidates-IsPlanFor P limits positions os rest below distinct p.1 found in
      elim (Option-cases best) [
        | inl nothing_found ↦
            let same : rest ≡ plans = some_inj (rw nothing_found at last) in rw (sym same) others
        | inr (plan, is_best) ↦
            let same : plan ∷ rest ≡ plans = some_inj (rw is_best at last) in
            let fact =
              plan_opportunity-IsPlanFor limits positions o plan below distinct
                (made ∙ ap some is_best) in
            rw (sym same) ((o, p.0, fact), others)
      ]
