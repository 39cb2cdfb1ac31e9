-- ===== src/Yield/Choice.antt =====
-- The plan that the provider chooses among those of all opportunities and sets.
use mathlib.Core.Path.{subst}
use positioncrew.Prelude.{
  ℕ, suc, ◌≤◌, ◌≡◌, ◌⊎◌, sym, Bool, true, Option, none, some, List, [], ◌∷◌, ◌++◌, length, arith,
  All, inl, inr, Option-cases, some_inj, Text,
}
use positioncrew.Prelude.Throws.{◌>>=◌, >>=-eq-some}
use positioncrew.Prelude.Sort.{sort, All-unsort}
use positioncrew.Contracts.YieldOptimization.{YieldOptimizationRequest}
use positioncrew.Yield.{Holding, YieldLimits}
use positioncrew.Yield.Plan.{YieldPlan, candidate_plan}
use positioncrew.Yield.Sources.{best_plan, funding_source_sets}
use positioncrew.Yield.Provider.{
  by_benefit, is_eligible, potential_sources, route_to, plan_opportunity, yield_candidates,
}
use positioncrew.Yield.Best.{best_plan-greatest}
use positioncrew.Yield.Answer.{List-cases}
use positioncrew.Yield.Actionable.{first-leads}

-- One of the plans is at least as good.
abbrev IsReached : YieldPlan → List YieldPlan → Type 0
IsReached p [] = ⊥
IsReached p (b ∷ bs) = (p.net_benefit ≤ b.net_benefit) ⊎ IsReached p bs

IsReached-le :
    (p chosen : YieldPlan) (plans : List YieldPlan)
    → IsReached p plans
    → All (λ (other : YieldPlan). other.net_benefit ≤ chosen.net_benefit) plans
    → p.net_benefit ≤ chosen.net_benefit
IsReached-le p chosen [] r h = absurd r
IsReached-le p chosen (b ∷ bs) (inl le) h = omega (arith, le, h.0)
IsReached-le p chosen (b ∷ bs) (inr r) h = IsReached-le p chosen bs r h.1

not_IsReached :
    (p : YieldPlan) (plans : List YieldPlan)
    → All (λ (q : YieldPlan). ⊥) plans
    → IsReached p plans
    → ⊥
not_IsReached p [] h r = r
not_IsReached p (b ∷ bs) h r = h.0

module _ (before : Text → Text → Bool) (request : YieldOptimizationRequest) (now : ℕ)
    (limits : YieldLimits) (positions : List Holding) where
  -- The plan of a set among those proposed for an eligible opportunity.
  abbrev pub IsProposed :
      Holding → List (List Holding) → List Holding → List (List Holding) → YieldPlan → Type 0
  IsProposed o earlier set later p =
      (is_eligible before request now limits o ≡ true)
      × (funding_source_sets (route_to before request now limits positions o)
            (potential_sources before request now positions o)
          ≡ earlier ++ set ∷ later)
      × (candidate_plan (route_to before request now limits positions o) (suc (length set)) set
          ≡ some (some p))

  plan_opportunity-greatest :
      (o : Holding) (earlier later : List (List Holding)) (set : List Holding) (p : YieldPlan)
      (best : Option YieldPlan)
      → IsProposed o earlier set later p
      → plan_opportunity before request now limits positions o ≡ some best
      → (b : YieldPlan) × (best ≡ some b) × (p.net_benefit ≤ b.net_benefit)
  unfolding plan_opportunity
  plan_opportunity-greatest o earlier later set p best (fit, sets, made) e =
      let r = route_to before request now limits positions o in
      let found : best_plan r (earlier ++ set ∷ later) none ≡ some best =
        rw (plan_opportunity, fit, sets) at e in
      best_plan-greatest r earlier later set p none best made found

  yield_candidates-IsReached :
      (earlier_os later_os : List Holding) (o : Holding) (earlier later : List (List Holding))
      (set : List Holding) (p : YieldPlan) (plans : List YieldPlan)
      → IsProposed o earlier set later p
      → yield_candidates before request now limits positions (earlier_os ++ o ∷ later_os)
        ≡ some plans
      → IsReached p plans
  unfolding yield_candidates
  yield_candidates-IsReached [] later_os o earlier later set p plans proposed e =
      let (best, made, more) =
        >>=-eq-some (plan_opportunity before request now limits positions o)
          (λ best. yield_candidates before request now limits positions later_os >>= λ rest.
            some (elim best [ none ↦ rest | some plan ↦ plan ∷ rest ]))
          e in
      let (rest, _, last) =
        >>=-eq-some (yield_candidates before request now limits positions later_os)
          (λ rest. some (elim best [ none ↦ rest | some plan ↦ plan ∷ rest ])) more in
      let (b, is_best, le) = plan_opportunity-greatest o earlier later set p best proposed made in
      let same : b ∷ rest ≡ plans = some_inj (rw is_best at last) in
      subst (IsReached p) same (inl le)
  yield_candidates-IsReached (other ∷ os) later_os o earlier later set p plans proposed e =
      let (best, made, more) =
        >>=-eq-some (plan_opportunity before request now limits positions other)
          (λ best.
            yield_candidates before request now limits positions (os ++ o ∷ later_os) >>= λ rest.
            some (elim best [ none ↦ rest | some plan ↦ plan ∷ rest ]))
          e in
      let (rest, found, last) =
        >>=-eq-some (yield_candidates before request now limits positions (os ++ o ∷ later_os))
          (λ rest. some (elim best [ none ↦ rest | some plan ↦ plan ∷ rest ])) more in
      let reached =
        yield_candidates-IsReached os later_os o earlier later set p rest proposed found in
      elim (Option-cases best) [
        | inl nothing_found ↦
            let same : rest ≡ plans = some_inj (rw nothing_found at last) in
            subst (IsReached p) same reached
        | inr (plan, is_best) ↦
            let same : plan ∷ rest ≡ plans = some_inj (rw is_best at last) in
            subst (IsReached p) same (inr reached)
      ]

  -- Where a plan comes from one of the sets proposed for one of the opportunities that are eligible, the
  -- provider has a first candidate, and its net benefit is at least that plan's.
  pub yield_candidates-greatest :
      (earlier_os later_os : List Holding) (o : Holding) (earlier later : List (List Holding))
      (set : List Holding) (p : YieldPlan) (plans : List YieldPlan)
      → IsProposed o earlier set later p
      → yield_candidates before request now limits positions (earlier_os ++ o ∷ later_os)
        ≡ some plans
      → (chosen : YieldPlan) × (rest : List YieldPlan) × (sort (by_benefit before) plans
          ≡ chosen ∷ rest)
        × (p.net_benefit ≤ chosen.net_benefit)
  yield_candidates-greatest earlier_os later_os o earlier later set p plans proposed e =
      let reached =
        yield_candidates-IsReached earlier_os later_os o earlier later set p plans proposed e in
      elim (List-cases (sort (by_benefit before) plans)) [
        | inl empty ↦
            let nobody : All (λ (q : YieldPlan). ⊥) plans =
              All-unsort (by_benefit before) (λ (q : YieldPlan). ⊥) plans
                (subst (All (λ (q : YieldPlan). ⊥)) (sym empty) tt) in
            absurd (not_IsReached p plans nobody reached)
        | inr (chosen, rest, sorted) ↦
            let leads = first-leads before request now plans chosen rest sorted in
            (chosen, rest, sorted, IsReached-le p chosen plans reached leads)
      ]
