-- ===== src/Grid/Search.antt =====
-- The search for the size of a grid.
use positioncrew.Prelude.{
  ℕ, zero, suc, ◌+◌, ◌-◌, ◌/◌, ◌≤◌, ◌<◌, ◌≡◌, refl, sym, ◌∙◌, true, some, arith, ltb, inl, inr, ◌⊎◌,
  Bool-cases, some_inj,
}
use positioncrew.Prelude.Throws.{◌>>=◌}
use positioncrew.Contracts.BoundedGrid.{BoundedGridRequest}
use positioncrew.Grid.Provider.{
  GridSetup, GridPlan, plan_for_budget, respects_risk_limits, search_budget, size_plan,
}
use positioncrew.Grid.Monotone.{IsSetup}
use positioncrew.Grid.Plans.{plan_for_budget_mono, respects_down}

-- The plan of a budget respects the limits.
abbrev pub Fits : BoundedGridRequest → GridSetup → ℕ → Type 0
Fits request setup budget =
    (p : GridPlan) × (plan_for_budget request setup budget ≡ some p)
    × (respects_risk_limits request setup p ≡ true)

module _ (request : BoundedGridRequest) (setup : GridSetup) (ready : IsSetup setup)
    (places : request.quote_asset.decimals ≤ 18) where
  Fits-down : (a b : ℕ) → a ≤ b → Fits request setup b → Fits request setup a
  Fits-down a b h (q', made', ok') =
      let (p, q, made, made_q, le) = plan_for_budget_mono request setup ready places a b h in
      let same : q' ≡ q = some_inj (sym made' ∙ made_q) in
      (p, made, respects_down request setup ready places p q le (rw same at ok'))

  -- Given fuel for the distance of its bounds the search ends, between them, at the lower bound or at a
  -- budget that fits, and no budget up to the upper bound that fits is larger.
  pub search_budget_greatest :
      (fuel lower upper : ℕ)
      → lower ≤ upper
      → upper - lower < fuel
      → (budget : ℕ) × (search_budget request setup fuel lower upper ≡ some budget)
        × (lower ≤ budget)
        × (budget ≤ upper)
        × ((budget ≡ lower) ⊎ Fits request setup budget)
        × ((other : ℕ) → other ≤ upper → Fits request setup other → other ≤ budget)
  unfolding search_budget
  search_budget_greatest zero lower upper h enough = absurd (omega arith)
  search_budget_greatest (suc fuel) lower upper h enough = elim (Bool-cases (ltb lower upper)) [
    | inr done ↦
        (lower, rw (search_budget, done) refl, omega arith, h, inl refl, λ other b f. ground arith)
    | inl more ↦
        let middle = (lower + upper + 1) / 2 in
        let above : lower < middle = ground arith in
        let below : middle ≤ upper = ground arith in
        let (p, _, made, _, _) =
          plan_for_budget_mono request setup ready places middle middle (omega arith) in
        elim (Bool-cases (respects_risk_limits request setup p)) [
          | inl good ↦
              let (r, e, lo, hi, ends, greatest) =
                search_budget_greatest fuel middle upper below (omega arith) in
              (
                r,
                rw (search_budget, more, made, ◌>>=◌, good) e,
                omega arith,
                hi,
                elim ends [ inl same ↦ inr (rw same (p, made, good)) | inr f ↦ inr f ],
                greatest,
              )
          | inr bad ↦
              let (r, e, lo, hi, ends, greatest) =
                search_budget_greatest fuel lower (middle - 1) (omega arith) (omega arith) in
              (
                r,
                rw (search_budget, more, made, ◌>>=◌, bad) e,
                lo,
                omega arith,
                ends,
                λ other b f. elim (Bool-cases (ltb other middle)) [
                  | inl small ↦ greatest other (ground arith) f
                  | inr large ↦
                      let (p', made', good) = Fits-down middle other (ground arith) f in
                      let same : p' ≡ p = some_inj (sym made' ∙ made) in absurd (ground arith)
                ],
              )
        ]
  ]

  -- The plan that is chosen is that of a budget of at most the capital. If any such budget respects the
  -- limits, the chosen one does, and it is the largest that does.
  pub size_plan_greatest :
      (budget : ℕ) × (plan : GridPlan) × (size_plan request setup ≡ some plan)
      × (plan_for_budget request setup budget ≡ some plan)
      × (budget ≤ setup.capital)
      × ((other : ℕ)
          → other ≤ setup.capital
          → Fits request setup other
          → (respects_risk_limits request setup plan ≡ true) × (other ≤ budget))
  unfolding size_plan
  size_plan_greatest =
      let capital = setup.capital in
      let (full, _, made, _, _) =
        plan_for_budget_mono request setup ready places capital capital (omega arith) in
      elim (Bool-cases (respects_risk_limits request setup full)) [
        | inl good ↦
            (capital, full, rw (made, good) refl, made, omega arith, λ other h f. (good, h))
        | inr bad ↦
            let (budget, found, _, below, ends, greatest) =
              search_budget_greatest (suc capital) 0 capital (omega arith) (omega arith) in
            let (plan, _, planned, _, _) =
              plan_for_budget_mono request setup ready places budget budget (omega arith) in
            (
              budget,
              plan,
              rw (made, bad, found, planned) refl,
              planned,
              below,
              λ other h f.
                  let reached = greatest other h f in
                  let (plan', made', good) : Fits request setup budget = elim ends [
                    | inl none_found ↦ rw none_found (Fits-down 0 other (omega arith) f)
                    | inr fits ↦ fits
                  ] in
                  let same : plan' ≡ plan = some_inj (sym made' ∙ planned) in
                  (rw same at good, reached),
            )
      ]
