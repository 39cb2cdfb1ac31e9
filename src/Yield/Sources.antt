-- ===== src/Yield/Sources.antt =====
-- src/providers/yield-optimization.ts: the sets of positions that `fundingSourceSets` proposes, as the
-- list of what the generator yields, and the best plan over them.
use positioncrew.Prelude.{
  ℕ, suc, ◌+◌, ◌*◌, Bool, true, false, ◌||◌, ◌&&◌, Option, none, some, List, [], ◌∷◌, ◌++◌, map,
  length, ltb, leb, ◌==◌, filter, Text, if◌then◌else◌,
}
use positioncrew.Prelude.Throws.{◌>>=◌}
use positioncrew.Prelude.Sort.{sort}
use positioncrew.Core.Fixed.{minimum}
use positioncrew.Yield.{Holding, available_withdrawal}
use positioncrew.Yield.Plan.{YieldPlan, YieldRoute, candidate_plan}

-- The comparisons: whether the first comes no later than the second.
module _ (before : Text → Text → Bool) where
  unfoldable pub by_apy : Holding → Holding → Bool
  by_apy left right =
      ltb left.gross_apy_bps right.gross_apy_bps
      || (left.gross_apy_bps == right.gross_apy_bps
          && before left.opportunity_id right.opportunity_id)

  unfoldable pub by_funding_cost : Holding → Holding → Bool
  by_funding_cost left right =
      let l = left.exit_cost * available_withdrawal right in
      let r = right.exit_cost * available_withdrawal left in
      ltb l r || (l == r && by_apy left right)

  unfoldable pub by_exit_cost : Holding → Holding → Bool
  by_exit_cost left right =
      ltb left.exit_cost right.exit_cost
      || (left.exit_cost == right.exit_cost && by_funding_cost left right)

  -- The inner loop: the selections that grow past one position, along one ordering.
  unfoldable pub greedy_sets : ℕ → ℕ → List Holding → List Holding → List (List Holding)
  greedy_sets limit cost selected [] = []
  greedy_sets limit cost selected (item ∷ ordering) = elim (ltb limit (cost + item.exit_cost)) [
    | true ↦ greedy_sets limit cost selected ordering
    | false ↦
        let more = selected ++ item ∷ [] in
        let rest = greedy_sets limit (cost + item.exit_cost) more ordering in
        if ltb 1 (length more) then sort by_apy more ∷ rest else rest
  ]

unfoldable pub cost_limit : YieldRoute → ℕ
cost_limit r = minimum r.max_action (minimum r.max_gas r.max_execution_cost)

unfoldable pub affordable_sources : YieldRoute → List Holding → List Holding
affordable_sources r sources =
    filter (λ (h : Holding). leb (r.opportunity.entry_cost + h.exit_cost) (cost_limit r)) sources

unfoldable pub funding_source_sets : YieldRoute → List Holding → List (List Holding)
funding_source_sets r sources =
    let affordable = affordable_sources r sources in
    let greedy = greedy_sets r.before (cost_limit r) r.opportunity.entry_cost [] in
    [] ∷ map (λ (h : Holding). h ∷ []) affordable
    ++ greedy affordable
    ++ greedy (sort (by_exit_cost r.before) affordable)
    ++ greedy (sort (by_funding_cost r.before) affordable)

-- `best`, after one more candidate.
abbrev pub better_plan : Option YieldPlan → Option YieldPlan → Option YieldPlan
better_plan best none = best
better_plan none (some plan) = some plan
better_plan (some best) (some plan) =
    if ltb best.net_benefit plan.net_benefit then some plan else some best

-- The loop over the sets. A set gives the fuel of its plan.
unfoldable pub best_plan :
    YieldRoute → List (List Holding) → Option YieldPlan → Option (Option YieldPlan)
best_plan r [] best = some best
best_plan r (set ∷ sets) best = do
  candidate ← candidate_plan r (suc (length set)) set
  best_plan r sets (better_plan best candidate)
