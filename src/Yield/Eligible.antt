-- ===== src/Yield/Eligible.antt =====
-- The guards of an opportunity and of its sources, and the computation of the candidates.
use positioncrew.Prelude.{
  ℕ, ◌≤◌, ◌≡◌, refl, Bool, true, Option, none, some, List, [], ◌∷◌, arith, filter, All, inl, inr,
  Bool-cases, Option-cases, Text, text_eq, text_eq_iff, any, leb, leb→le, ltb, not, ◌==◌, ◌&&◌, ◌<◌,
  ◌≢◌, All-filter, filter-All,
}
use positioncrew.Prelude.Throws.{◌>>=◌}
use positioncrew.Prelude.Sort.{All-sort}
use positioncrew.Contracts.YieldOptimization.{YieldOptimizationRequest}
use positioncrew.Yield.{
  Holding, YieldLimits, protocol_of, protocol_key, asset_key, market_of, available_withdrawal,
}
use positioncrew.Yield.Plan.{YieldPlan}
use positioncrew.Yield.Sources.{by_apy, funding_source_sets}
use positioncrew.Yield.Provider.{
  risk_rank, is_eligible, is_funding_source, potential_sources, route_to, plan_opportunity,
  yield_candidates,
}
use positioncrew.Yield.Loop.{IsHeld}
use positioncrew.Yield.Draws.{DistinctIds}
use positioncrew.Yield.Accounts.{DistinctIds-filter}
use positioncrew.Yield.Sets.{funding_source_sets-All}
use positioncrew.Yield.Apart.{DistinctIds-sort}
use positioncrew.Yield.Best.{best_plan-total}
use positioncrew.Yield.Held.{held_by_protocol-IsKey}

four_tests :
    (a b c d : Bool) → (a && b && c && d) ≡ true → (a ≡ true) × (b ≡ true) × (c ≡ true) × (d ≡ true)
four_tests a b c d h = (ground arith, ground arith, ground arith, ground arith)

module _ (before : Text → Text → Bool) (request : YieldOptimizationRequest) (now : ℕ) where
  pub potential_sources-All {ℓ} :
      (P : Holding → Type ℓ) (positions : List Holding) (opportunity : Holding)
      → All P positions
      → All P (potential_sources before request now positions opportunity)
  unfolding potential_sources
  potential_sources-All P positions opportunity h =
      let test = is_funding_source before request now opportunity in
      All-sort (by_apy before) P (filter test positions) (All-filter P test positions h)

  pub potential_sources-true :
      (positions : List Holding) (opportunity : Holding)
      → All
          (λ (s : Holding). is_funding_source before request now opportunity s ≡ true)
          (potential_sources before request now positions opportunity)
  unfolding potential_sources
  potential_sources-true positions opportunity =
      let test = is_funding_source before request now opportunity in
      All-sort (by_apy before) (λ (s : Holding). test s ≡ true) (filter test positions)
        (filter-All test positions)

  pub potential_sources-DistinctIds :
      (positions : List Holding) (opportunity : Holding)
      → DistinctIds positions
      → DistinctIds (potential_sources before request now positions opportunity)
  unfolding potential_sources
  potential_sources-DistinctIds positions opportunity h =
      let test = is_funding_source before request now opportunity in
      DistinctIds-sort (by_apy before) (filter test positions) (DistinctIds-filter test positions h)

  route-IsHeld :
      (limits : YieldLimits) (positions : List Holding) (opportunity : Holding)
      → All (IsHeld (route_to before request now limits positions opportunity)) positions
  unfolding route_to
  route-IsHeld limits positions opportunity = held_by_protocol-IsKey positions []

  plan_opportunity-total :
      (limits : YieldLimits) (positions : List Holding) (opportunity : Holding)
      → (best : Option YieldPlan) × (plan_opportunity before request now limits positions
            opportunity
          ≡ some best)
  unfolding plan_opportunity
  plan_opportunity-total limits positions opportunity =
      elim (Bool-cases (is_eligible before request now limits opportunity)) [
        | inr unfit ↦ (none, rw (plan_opportunity, unfit) refl)
        | inl fit ↦
            let route = route_to before request now limits positions opportunity in
            let sources = potential_sources before request now positions opportunity in
            let held =
              potential_sources-All (IsHeld route) positions opportunity
                (route-IsHeld limits positions opportunity) in
            let (best, found) =
              best_plan-total route (funding_source_sets route sources) none
                (funding_source_sets-All route (IsHeld route) sources held) in
            (best, rw (plan_opportunity, fit) found)
      ]

  -- For every list of opportunities the candidates are computed: the rounds of every plan end, and no
  -- step throws.
  pub yield_candidates-total :
      (limits : YieldLimits) (positions opportunities : List Holding)
      → (plans : List YieldPlan) × (yield_candidates before request now limits positions
            opportunities
          ≡ some plans)
  unfolding yield_candidates
  yield_candidates-total limits positions [] = ([], refl)
  yield_candidates-total limits positions (opportunity ∷ opportunities) =
      let (best, made) = plan_opportunity-total limits positions opportunity in
      let (rest, found) = yield_candidates-total limits positions opportunities in
      elim (Option-cases best) [
        | inl nothing_found ↦ (rest, rw (made, found, nothing_found, ◌>>=◌) refl)
        | inr (plan, e) ↦ (plan ∷ rest, rw (made, found, e, ◌>>=◌) refl)
      ]

  -- An opportunity of an allowed protocol, within the limits on lockup, liquidity and risk.
  abbrev pub IsEligible : YieldLimits → Holding → Type 0
  IsEligible limits o =
      (any (λ (p : Text). text_eq (protocol_of o) (protocol_key p))
          request.constraints.protocol_allowlist
        ≡ true)
      × (o.lockup_seconds ≤ request.constraints.maximum_lockup_seconds)
      × (limits.minimum_liquidity ≤ o.liquidity)
      × (risk_rank o.risk_tier ≤ risk_rank request.constraints.maximum_risk_tier)

  -- An unlocked position of the opportunity's asset in another market, from which something is available.
  abbrev pub IsFundingSource : Holding → Holding → Type 0
  IsFundingSource o s =
      (0 < available_withdrawal s)
      × (s.lockup_seconds ≡ 0)
      × (asset_key s ≡ asset_key o)
      × (market_of s ≢ market_of o)

  pub is_eligible-IsEligible :
      (limits : YieldLimits) (o : Holding)
      → is_eligible before request now limits o ≡ true
      → IsEligible limits o
  unfolding is_eligible
  is_eligible-IsEligible limits o h =
      let (allowed, lockup, liquid, risk) =
        four_tests
          (any (λ (p : Text). text_eq (protocol_of o) (protocol_key p))
            request.constraints.protocol_allowlist)
          (leb o.lockup_seconds request.constraints.maximum_lockup_seconds)
          (leb limits.minimum_liquidity o.liquidity)
          (leb (risk_rank o.risk_tier) (risk_rank request.constraints.maximum_risk_tier)) h in
      (
        allowed,
        leb→le o.lockup_seconds request.constraints.maximum_lockup_seconds lockup,
        leb→le limits.minimum_liquidity o.liquidity liquid,
        leb→le (risk_rank o.risk_tier) (risk_rank request.constraints.maximum_risk_tier) risk,
      )

  pub is_funding_source-IsFundingSource :
      (o s : Holding) → is_funding_source before request now o s ≡ true → IsFundingSource o s
  unfolding is_funding_source
  is_funding_source-IsFundingSource o s h =
      let (some_available, unlocked, same, other) =
        four_tests (ltb 0 (available_withdrawal s)) (s.lockup_seconds == 0)
          (text_eq (asset_key s) (asset_key o)) (not (text_eq (market_of s) (market_of o))) h in
      (
        ground arith,
        ground arith,
        (text_eq_iff (asset_key s) (asset_key o)).0 same,
        λ e. ground (arith, text_eq_iff (market_of s) (market_of o)),
      )
