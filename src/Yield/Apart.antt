-- ===== src/Yield/Apart.antt =====
-- The identifiers of the positions in a set that `fundingSourceSets` yields.
use positioncrew.Prelude.{
  ℕ, ◌+◌, ◌≢◌, sym, Bool, List, [], ◌∷◌, ◌++◌, leb, All, All-append, inl, inr, Bool-cases,
}
use positioncrew.Prelude.Sort
use positioncrew.Prelude.Sort.{sort, All-insert, All-sort}
use positioncrew.Yield.{Holding}
use positioncrew.Yield.Plan.{YieldRoute}
use positioncrew.Yield.Sources.{
  by_apy, by_exit_cost, by_funding_cost, cost_limit, affordable_sources, funding_source_sets,
}
use positioncrew.Yield.Draws.{DistinctIds}
use positioncrew.Yield.Accounts.{DistinctIds-filter}
use positioncrew.Yield.Greedy.{greedy, greedy-nil, greedy-cons}
use positioncrew.Yield.Sets.{singles, All-four}

abbrev DiffersFrom : Holding → Holding → Type 0
DiffersFrom h k = h.opportunity_id ≢ k.opportunity_id

module _ (first : Holding → Holding → Bool) where
  DistinctIds-insert :
      (h : Holding) (hs : List Holding)
      → All (DiffersFrom h) hs
      → DistinctIds hs
      → DistinctIds (Sort.insert first h hs)
  unfolding Sort.insert
  DistinctIds-insert h [] ne d = (tt, tt)
  DistinctIds-insert h (x ∷ hs) ne d = elim (Bool-cases (first h x)) [
    | inl before ↦ rw before (ne, d)
    | inr after ↦ rw after (
      All-insert first (DiffersFrom x) h hs (λ e. ne.0 (sym e)) d.0,
      DistinctIds-insert h hs ne.1 d.1,
    )
  ]

  pub DistinctIds-sort : (hs : List Holding) → DistinctIds hs → DistinctIds (sort first hs)
  unfolding Sort.sort
  DistinctIds-sort [] d = tt
  DistinctIds-sort (h ∷ hs) d =
      DistinctIds-insert h (sort first hs) (All-sort first (DiffersFrom h) hs d.0)
        (DistinctIds-sort hs d.1)

-- One more position at the end.
DistinctIds-append :
    (hs : List Holding) (h : Holding)
    → DistinctIds hs
    → All (λ (k : Holding). DiffersFrom k h) hs
    → DistinctIds (hs ++ h ∷ [])
DistinctIds-append [] h d ne = (tt, tt)
DistinctIds-append (k ∷ hs) h d ne =
    (All-append (DiffersFrom k) hs (h ∷ []) d.0 (ne.0, tt), DistinctIds-append hs h d.1 ne.1)

module _ (r : YieldRoute) where
  greedy-DistinctIds :
      (cost : ℕ) (selected ordering : List Holding)
      → DistinctIds selected
      → DistinctIds ordering
      → All (λ (o : Holding). All (λ (s : Holding). DiffersFrom s o) selected) ordering
      → All DistinctIds (greedy r cost selected ordering)
  greedy-DistinctIds cost selected [] d e ne = rw (greedy-nil r cost selected) tt
  greedy-DistinctIds cost selected (item ∷ ordering) d e ne =
      let more = selected ++ item ∷ [] in
      let distinct = DistinctIds-append selected item d ne.0 in
      let further = grow item selected ordering e.0 ne.1 in
      let rest = greedy-DistinctIds (cost + item.exit_cost) more ordering distinct e.1 further in
      elim (greedy-cons r cost selected item ordering) [
        | inl same ↦ rw same (greedy-DistinctIds cost selected ordering d e.1 ne.1)
        | inr (bound, inl same) ↦ rw same rest
        | inr (bound, inr same) ↦ rw same (DistinctIds-sort (by_apy r.before) more distinct, rest)
      ]
    where
      grow :
          (item : Holding) (selected ordering : List Holding)
          → All (DiffersFrom item) ordering
          → All (λ (o : Holding). All (λ (s : Holding). DiffersFrom s o) selected) ordering
          → All
              (λ (o : Holding). All (λ (s : Holding). DiffersFrom s o) (selected ++ item ∷ []))
              ordering
      grow item selected [] h k = tt
      grow item selected (o ∷ ordering) h k = (
        All-append (λ (s : Holding). DiffersFrom s o) selected (item ∷ []) k.0 (h.0, tt),
        grow item selected ordering h.1 k.1,
      )

  singles-DistinctIds : (sources : List Holding) → All DistinctIds (singles r sources)
  singles-DistinctIds [] = tt
  singles-DistinctIds (s ∷ sources) = ((tt, tt), singles-DistinctIds sources)

  none_selected :
      (ordering : List Holding)
      → All (λ (o : Holding). All (λ (s : Holding). DiffersFrom s o) []) ordering
  none_selected [] = tt
  none_selected (o ∷ ordering) = (tt, none_selected ordering)

  pub funding_source_sets-DistinctIds :
      (sources : List Holding)
      → DistinctIds sources
      → All DistinctIds (funding_source_sets r sources)
  unfolding funding_source_sets affordable_sources
  funding_source_sets-DistinctIds sources d =
      let affordable = affordable_sources r sources in
      let kept =
        DistinctIds-filter
          (λ (h : Holding). leb (r.opportunity.entry_cost + h.exit_cost) (cost_limit r)) sources
          d in
      let entry = r.opportunity.entry_cost in
      let by_exit = sort (by_exit_cost r.before) affordable in
      let by_funding = sort (by_funding_cost r.before) affordable in
      (
        tt,
        All-four DistinctIds (singles r affordable) (greedy r entry [] affordable)
            (greedy r entry [] by_exit) (greedy r entry [] by_funding)
            (singles-DistinctIds affordable)
            (greedy-DistinctIds entry [] affordable tt kept (none_selected affordable))
            (greedy-DistinctIds entry [] by_exit tt
              (DistinctIds-sort (by_exit_cost r.before) affordable kept) (none_selected by_exit))
            (greedy-DistinctIds entry [] by_funding tt
              (DistinctIds-sort (by_funding_cost r.before) affordable kept)
              (none_selected by_funding)),
      )
