-- ===== src/Yield/Sets.antt =====
-- The sets that `fundingSourceSets` yields: how many there are, and what each of them costs.
use positioncrew.Prelude.{◌+◌, List, [], ◌∷◌, ◌++◌, map, leb, All, All-append, All-filter}
use positioncrew.Prelude.Sort.{sort, All-sort}
use positioncrew.Yield.{Holding}
use positioncrew.Yield.Plan.{YieldRoute}
use positioncrew.Yield.Sources.{
  by_exit_cost, by_funding_cost, cost_limit, affordable_sources, funding_source_sets,
}
use positioncrew.Yield.Greedy.{greedy, greedy-All}

pub All-four {ℓ κ} :
    {A : Type ℓ} (P : A → Type κ) (a b c d : List A)
    → All P a
    → All P b
    → All P c
    → All P d
    → All P (a ++ b ++ c ++ d)
All-four P a b c d ha hb hc hd =
    All-append P (a ++ b ++ c) d (All-append P (a ++ b) c (All-append P a b ha hb) hc) hd

module _ (r : YieldRoute) where
  abbrev pub singles : List Holding → List (List Holding)
  singles = map (λ (h : Holding). h ∷ [])

  singles-All {ℓ} :
      (P : Holding → Type ℓ) (sources : List Holding)
      → All P sources
      → All (All P) (singles sources)
  singles-All P [] h = tt
  singles-All P (s ∷ sources) h = ((h.0, tt), singles-All P sources h.1)

  -- What holds of every potential source holds in every set.
  pub funding_source_sets-All {ℓ} :
      (P : Holding → Type ℓ) (sources : List Holding)
      → All P sources
      → All (All P) (funding_source_sets r sources)
  unfolding funding_source_sets affordable_sources
  funding_source_sets-All P sources h =
      let affordable = affordable_sources r sources in
      let kept =
        All-filter P (λ (h : Holding). leb (r.opportunity.entry_cost + h.exit_cost) (cost_limit r))
          sources h in
      let entry = r.opportunity.entry_cost in
      let by_exit = sort (by_exit_cost r.before) affordable in
      let by_funding = sort (by_funding_cost r.before) affordable in
      (
        tt,
        All-four (All P) (singles affordable) (greedy r entry [] affordable)
            (greedy r entry [] by_exit) (greedy r entry [] by_funding)
            (singles-All P affordable kept) (greedy-All r P entry [] affordable tt kept)
            (greedy-All r P entry [] by_exit tt
              (All-sort (by_exit_cost r.before) P affordable kept))
            (greedy-All r P entry [] by_funding tt
              (All-sort (by_funding_cost r.before) P affordable kept)),
      )
