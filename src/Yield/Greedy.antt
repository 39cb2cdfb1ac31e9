-- ===== src/Yield/Greedy.antt =====
-- The sets that `fundingSourceSets` yields along one ordering.
use positioncrew.Prelude.{
  ℕ, suc, ◌+◌, ◌≤◌, ◌≡◌, ◌⊎◌, refl, Bool, List, [], ◌∷◌, ◌++◌, length, arith, ltb, not-ltb→le, All,
  All-append, inl, inr, Bool-cases,
}
use positioncrew.Prelude.Sort
use positioncrew.Prelude.Sort.{sort, All-sort}
use positioncrew.Yield.{Holding, sum_of}
use positioncrew.Yield.Plan.{YieldRoute}
use positioncrew.Yield.Sources.{by_apy, greedy_sets, cost_limit}

abbrev pub exit_costs : List Holding → ℕ
exit_costs = sum_of (λ (h : Holding). h.exit_cost)

module _ (first : Holding → Holding → Bool) where
  sort-counts :
      (h : Holding) (hs : List Holding)
      → (length (Sort.insert first h hs) ≡ suc (length hs))
        × (exit_costs (Sort.insert first h hs) ≡ h.exit_cost + exit_costs hs)
  unfolding Sort.insert
  sort-counts h [] = (refl, refl)
  sort-counts h (x ∷ hs) = elim (Bool-cases (first h x)) [
    | inl before ↦ rw before (refl, refl)
    | inr after ↦
        let (size, cost) = sort-counts h hs in rw after (omega (arith, size), omega (arith, cost))
  ]

  pub sort-same :
      (hs : List Holding)
      → (length (sort first hs) ≡ length hs) × (exit_costs (sort first hs) ≡ exit_costs hs)
  unfolding Sort.sort
  sort-same [] = (refl, refl)
  sort-same (h ∷ hs) =
      let (size, cost) = sort-same hs in
      let (more, dearer) = sort-counts h (sort first hs) in
      (omega (arith, size, more), omega (arith, cost, dearer))

exit_costs-append : (xs ys : List Holding) → exit_costs (xs ++ ys) ≡ exit_costs xs + exit_costs ys
exit_costs-append [] ys = omega arith
exit_costs-append (x ∷ xs) ys = omega (arith, exit_costs-append xs ys)

-- A set that the costs of the route admit.
abbrev pub IsAffordable : YieldRoute → List Holding → Type 0
IsAffordable r set = r.opportunity.entry_cost + exit_costs set ≤ cost_limit r

module _ (r : YieldRoute) where
  abbrev pub greedy : ℕ → List Holding → List Holding → List (List Holding)
  greedy = greedy_sets r.before (cost_limit r)

  pub greedy-nil : (cost : ℕ) (selected : List Holding) → greedy cost selected [] ≡ []
  unfolding greedy_sets
  greedy-nil cost selected = refl

  -- One position of an ordering: passed over, or selected, and then proposed if it is not alone.
  pub greedy-cons :
      (cost : ℕ) (selected : List Holding) (item : Holding) (ordering : List Holding)
      → (greedy cost selected (item ∷ ordering) ≡ greedy cost selected ordering)
        ⊎ ((cost + item.exit_cost ≤ cost_limit r)
            × ((greedy cost selected (item ∷ ordering)
                  ≡ greedy (cost + item.exit_cost) (selected ++ item ∷ []) ordering)
                ⊎ (greedy cost selected (item ∷ ordering)
                    ≡ sort (by_apy r.before) (selected ++ item ∷ [])
                      ∷ greedy (cost + item.exit_cost) (selected ++ item ∷ []) ordering)))
  unfolding greedy_sets
  greedy-cons cost selected item ordering =
      elim (Bool-cases (ltb (cost_limit r) (cost + item.exit_cost))) [
        | inl dear ↦ inl (rw (greedy_sets, dear) refl)
        | inr cheap ↦
            let bound = not-ltb→le (cost_limit r) (cost + item.exit_cost) cheap in
            elim (Bool-cases (ltb 1 (length (selected ++ item ∷ [])))) [
              | inr alone ↦ inr (bound, inl (rw (greedy_sets, cheap, alone) refl))
              | inl several ↦ inr (bound, inr (rw (greedy_sets, cheap, several) refl))
            ]
      ]

  pub greedy-IsAffordable :
      (cost : ℕ) (selected ordering : List Holding)
      → r.opportunity.entry_cost + exit_costs selected ≡ cost
      → All (IsAffordable r) (greedy cost selected ordering)
  greedy-IsAffordable cost selected [] e = rw (greedy-nil cost selected) tt
  greedy-IsAffordable cost selected (item ∷ ordering) e =
      let more = selected ++ item ∷ [] in
      let grown : r.opportunity.entry_cost + exit_costs more ≡ cost + item.exit_cost =
        omega (arith, e, exit_costs-append selected (item ∷ [])) in
      let rest = greedy-IsAffordable (cost + item.exit_cost) more ordering grown in
      elim (greedy-cons cost selected item ordering) [
        | inl same ↦ rw same (greedy-IsAffordable cost selected ordering e)
        | inr (bound, inl same) ↦ rw same rest
        | inr (bound, inr same) ↦
            let sorted = sort-same (by_apy r.before) more in
            rw same (omega (arith, sorted, grown, bound), rest)
      ]

  pub greedy-length :
      (cost : ℕ) (selected ordering : List Holding)
      → length (greedy cost selected ordering) ≤ length ordering
  greedy-length cost selected [] = rw (greedy-nil cost selected) (omega arith)
  greedy-length cost selected (item ∷ ordering) =
      let more = selected ++ item ∷ [] in
      let rest = greedy-length (cost + item.exit_cost) more ordering in
      elim (greedy-cons cost selected item ordering) [
        | inl same ↦ rw same (omega (arith, greedy-length cost selected ordering))
        | inr (bound, inl same) ↦ rw same (omega (arith, rest))
        | inr (bound, inr same) ↦ rw same (omega (arith, rest))
      ]

  -- What holds of every position of an ordering and of the selected ones holds in every set.
  pub greedy-All {ℓ} :
      (P : Holding → Type ℓ) (cost : ℕ) (selected ordering : List Holding)
      → All P selected
      → All P ordering
      → All (All P) (greedy cost selected ordering)
  greedy-All P cost selected [] h k = rw (greedy-nil cost selected) tt
  greedy-All P cost selected (item ∷ ordering) h k =
      let more = selected ++ item ∷ [] in
      let all_more = All-append P selected (item ∷ []) h (k.0, tt) in
      let rest = greedy-All P (cost + item.exit_cost) more ordering all_more k.1 in
      elim (greedy-cons cost selected item ordering) [
        | inl same ↦ rw same (greedy-All P cost selected ordering h k.1)
        | inr (bound, inl same) ↦ rw same rest
        | inr (bound, inr same) ↦ rw same (All-sort (by_apy r.before) P more all_more, rest)
      ]
