-- ===== src/Yield/Sourced.antt =====
-- The withdrawals of a plan, each with the position it is from.
use mathlib.Core.Path.{subst}
use positioncrew.Prelude.{
  ℕ, ◌≤◌, ◌≡◌, refl, sym, false, some, List, [], ◌∷◌, map, All, Text, All-filter,
}
use positioncrew.Yield.{Holding, has_duplicate, available_withdrawal}
use positioncrew.Yield.Plan.{
  Draw, YieldPlan, YieldRoute, withdrawn_from, candidate_plan, yield_plan,
}
use positioncrew.Yield.Loop.{candidate_plan-eq-some, attempt-planned}
use positioncrew.Yield.Draws.{DistinctIds, has_duplicate-Distinct}
use positioncrew.Yield.Funding.{plan_withdrawals-funded}
use positioncrew.Yield.Accounts.{DistinctIds-filter}

module _ {ℓ} (P : Holding → Type ℓ) where
  -- A withdrawal from a position with the property, of at most what that has available.
  abbrev pub IsSourced : Text × ℕ → Type ℓ
  IsSourced w = (s : Holding) × P s × (s.opportunity_id ≡ w.0) × (w.1 ≤ available_withdrawal s)

  withdrawals-IsSourced :
      (d : Draw) (sources : List Holding)
      → All P sources
      → All (λ (s : Holding). withdrawn_from d s ≤ available_withdrawal s) sources
      → All IsSourced (map (λ (h : Holding). (h.opportunity_id, withdrawn_from d h)) sources)
  withdrawals-IsSourced d [] p b = tt
  withdrawals-IsSourced d (s ∷ sources) p b =
      ((s, p.0, refl, b.0), withdrawals-IsSourced d sources p.1 b.1)

pub candidate_plan-IsSourced {ℓ} :
    (P : Holding → Type ℓ) (r : YieldRoute) (fuel : ℕ) (sources : List Holding) (plan : YieldPlan)
    → All P sources
    → has_duplicate (map (λ (h : Holding). h.opportunity_id) sources) ≡ false
    → has_duplicate (map (λ (e : Text × ℕ). e.0) r.held_by_protocol) ≡ false
    → candidate_plan r fuel sources ≡ some (some plan)
    → All (IsSourced P) plan.withdrawals
unfolding yield_plan
candidate_plan-IsSourced P r fuel sources plan p ids keys found =
    let distinct = has_duplicate-Distinct (λ (h : Holding). h.opportunity_id) sources ids in
    let (used, apart, made) =
      candidate_plan-eq-some r (λ (hs : List Holding). DistinctIds hs × All P hs)
        (λ keep hs h. (DistinctIds-filter keep hs h.0, All-filter P keep hs h.1)) fuel sources plan
        (distinct, p) found in
    let (d, f, same, _, _, drawn, _, _, _, _) = attempt-planned r used plan made in
    let (funded, _, _) =
      plan_withdrawals-funded r used apart.0 d
        (has_duplicate-Distinct (λ (e : Text × ℕ). e.0) r.held_by_protocol keys) drawn in
    subst (λ (q : YieldPlan). All (IsSourced P) q.withdrawals) (sym same)
      (withdrawals-IsSourced P d used apart.1 funded.1)
