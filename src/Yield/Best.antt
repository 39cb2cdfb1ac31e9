-- ===== src/Yield/Best.antt =====
-- The best plan over the proposed sets, and the order of the candidates.
use positioncrew.Prelude.{
  suc, ◌≤◌, ◌≡◌, ◌⊎◌, refl, sym, ap, ◌∙◌, Bool, true, false, Option, none, some, List, [], ◌∷◌,
  ◌++◌, length, arith, ltb, All, All-imp, inl, inr, Bool-cases, some_inj, Text,
}
use positioncrew.Prelude.Throws.{◌>>=◌, >>=-eq-some}
use positioncrew.Prelude.Sort
use positioncrew.Prelude.Sort.{sort, All-insert}
use positioncrew.Yield.{Holding}
use positioncrew.Yield.Plan.{YieldPlan, YieldRoute, candidate_plan}
use positioncrew.Yield.Sources.{better_plan, best_plan}
use positioncrew.Yield.Provider.{by_benefit}
use positioncrew.Yield.Loop.{IsHeld, candidate_plan-total}

-- A plan that is at least as good.
abbrev pub Reaches : YieldPlan → Option YieldPlan → Type 0
Reaches p result = (b : YieldPlan) × (result ≡ some b) × (p.net_benefit ≤ b.net_benefit)

better_plan-either :
    (best candidate : Option YieldPlan)
    → (better_plan best candidate ≡ best) ⊎ (better_plan best candidate ≡ candidate)
better_plan-either best none = inl refl
better_plan-either none (some plan) = inr refl
better_plan-either (some best) (some plan) =
    elim (Bool-cases (ltb best.net_benefit plan.net_benefit)) [
      | inl more ↦ inr (rw more refl)
      | inr less ↦ inl (rw less refl)
    ]

better_plan-keeps :
    (best : YieldPlan) (candidate : Option YieldPlan)
    → Reaches best (better_plan (some best) candidate)
better_plan-keeps best none = (best, refl, omega arith)
better_plan-keeps best (some plan) = elim (Bool-cases (ltb best.net_benefit plan.net_benefit)) [
  | inl more ↦ (plan, rw more refl, ground arith)
  | inr less ↦ (best, rw less refl, omega arith)
]

better_plan-takes :
    (best : Option YieldPlan) (plan : YieldPlan) → Reaches plan (better_plan best (some plan))
better_plan-takes none plan = (plan, refl, omega arith)
better_plan-takes (some best) plan = elim (Bool-cases (ltb best.net_benefit plan.net_benefit)) [
  | inl more ↦ (plan, rw more refl, omega arith)
  | inr less ↦ (best, rw less refl, ground arith)
]

module _ (r : YieldRoute) where
  -- The loop over the sets ends where every position has its protocol held.
  pub best_plan-total :
      (sets : List (List Holding)) (best : Option YieldPlan)
      → All (All (IsHeld r)) sets
      → (result : Option YieldPlan) × (best_plan r sets best ≡ some result)
  unfolding best_plan
  best_plan-total [] best h = (best, refl)
  best_plan-total (set ∷ sets) best h =
      let (candidate, made) = candidate_plan-total r (suc (length set)) set h.0 (omega arith) in
      let (result, found) = best_plan-total sets (better_plan best candidate) h.1 in
      (result, rw (made, ◌>>=◌) found)

  -- A plan of the loop is one of a set.
  pub best_plan-eq-some {ℓ} :
      (P : List Holding → Type ℓ) (sets : List (List Holding)) (best : Option YieldPlan)
      (plan : YieldPlan)
      → All P sets
      → best_plan r sets best ≡ some (some plan)
      → (best ≡ some plan)
        ⊎ ((set : List Holding) × P set
            × (candidate_plan r (suc (length set)) set ≡ some (some plan)))
  unfolding best_plan
  best_plan-eq-some P [] best plan h e = inl (some_inj e)
  best_plan-eq-some P (set ∷ sets) best plan h e =
      let (candidate, made, more) =
        >>=-eq-some (candidate_plan r (suc (length set)) set)
          (λ candidate. best_plan r sets (better_plan best candidate)) e in
      elim (best_plan-eq-some P sets (better_plan best candidate) plan h.1 more) [
        | inr found ↦ inr found
        | inl same ↦ elim (better_plan-either best candidate) [
          | inl kept ↦ inl (sym kept ∙ same)
          | inr taken ↦ inr (set, h.0, made ∙ ap some (sym taken ∙ same))
        ]
      ]

  best_plan-keeps :
      (sets : List (List Holding)) (p : YieldPlan) (best result : Option YieldPlan)
      → Reaches p best
      → best_plan r sets best ≡ some result
      → Reaches p result
  unfolding best_plan
  best_plan-keeps [] p best result h e = let same = some_inj e in rw (sym same) h
  best_plan-keeps (set ∷ sets) p best result (b, is_best, le) e =
      let (candidate, _, more) =
        >>=-eq-some (candidate_plan r (suc (length set)) set)
          (λ candidate. best_plan r sets (better_plan best candidate)) e in
      let (c, next, up) = better_plan-keeps b candidate in
      let next' : better_plan best candidate ≡ some c = rw is_best next in
      best_plan-keeps sets p (better_plan best candidate) result (c, next', omega (arith, le, up))
        more

  -- The plan of any set, wherever it is among the sets, is no better than the result of the loop.
  pub best_plan-greatest :
      (earlier later : List (List Holding)) (set : List Holding) (p : YieldPlan)
      (best result : Option YieldPlan)
      → candidate_plan r (suc (length set)) set ≡ some (some p)
      → best_plan r (earlier ++ set ∷ later) best ≡ some result
      → (b : YieldPlan) × (result ≡ some b) × (p.net_benefit ≤ b.net_benefit)
  unfolding best_plan
  best_plan-greatest [] later set p best result made e =
      best_plan-keeps later p (better_plan best (some p)) result (better_plan-takes best p)
        (rw (made, ◌>>=◌) at e)
  best_plan-greatest (other ∷ earlier) later set p best result made e =
      let (candidate, _, more) =
        >>=-eq-some (candidate_plan r (suc (length other)) other)
          (λ candidate. best_plan r (earlier ++ set ∷ later) (better_plan best candidate)) e in
      best_plan-greatest earlier later set p (better_plan best candidate) result made more

-- The first of some plans has the greatest net benefit.
abbrev pub IsLed : List YieldPlan → Type 0
IsLed [] = Unit
IsLed (x ∷ xs) = All (λ (y : YieldPlan). y.net_benefit ≤ x.net_benefit) xs

module _ (before : Text → Text → Bool) where
  by_benefit-le :
      (x y : YieldPlan)
      → ((by_benefit before x y ≡ true) × (y.net_benefit ≤ x.net_benefit))
        ⊎ ((by_benefit before x y ≡ false) × (x.net_benefit ≤ y.net_benefit))
  unfolding by_benefit
  by_benefit-le x y = elim (Bool-cases (by_benefit before x y)) [
    | inl first ↦ inl (first, ground arith)
    | inr second ↦ inr (second, ground arith)
  ]

  insert-IsLed :
      (x : YieldPlan) (ys : List YieldPlan)
      → IsLed ys
      → IsLed (Sort.insert (by_benefit before) x ys)
  unfolding Sort.insert
  insert-IsLed x [] h = tt
  insert-IsLed x (y ∷ ys) h = elim (by_benefit-le x y) [
    | inl (first, le) ↦ rw first (
      le,
      All-imp (λ (z : YieldPlan). z.net_benefit ≤ y.net_benefit)
          (λ (z : YieldPlan). z.net_benefit ≤ x.net_benefit) ys (λ z k. omega (arith, k, le)) h,
    )
    | inr (second, le) ↦ rw second (
        All-insert (by_benefit before) (λ (z : YieldPlan). z.net_benefit ≤ y.net_benefit) x ys le h)
  ]

  pub sort-IsLed : (ys : List YieldPlan) → IsLed (sort (by_benefit before) ys)
  unfolding Sort.sort
  sort-IsLed [] = tt
  sort-IsLed (y ∷ ys) = insert-IsLed y (sort (by_benefit before) ys) (sort-IsLed ys)
