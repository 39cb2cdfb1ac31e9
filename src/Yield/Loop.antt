-- ===== src/Yield/Loop.antt =====
-- The rounds of the loop in `candidatePlan`.
use positioncrew.Prelude.{
  ℕ, zero, suc, ◌+◌, ◌≤◌, ◌<◌, ◌≡◌, refl, sym, ap, ◌∙◌, Bool, true, false, Option, none, some, List,
  arith, length, ◌==◌, ◌||◌, ltb, leb, ◌⊎◌, filter, all, All, inl, inr, Bool-cases, Option-cases,
  some_inj, Text, All-imp, All-filter, length-filter-le,
}
use positioncrew.Prelude.Throws.{>>=-eq-some}
use positioncrew.Prelude.Dict.{Dict}
use positioncrew.Prelude.Integers.{ℤ}
use positioncrew.Yield.{Holding, protocol_of}
use positioncrew.Yield.Plan.{
  Draw, YieldPlan, Attempt, refused, retry, planned, YieldRoute, candidate_plan, next_round,
  attempt, settle_round, conclude, final_holdings, signed_holdings, plan_withdrawals, exceeds_costs,
  yield_plan, is_within, with_allocation, annual_uplift, yield_gain, has_withdrawal, migration_cost,
  planned_allocation,
}
use positioncrew.Yield.Keys.{IsKey, IsKey-signed_holdings, final_holdings-total}

Attempt-cases :
    (a : Attempt)
    → (a ≡ refused)
      ⊎ ((fewer : List Holding) × (a ≡ retry fewer))
      ⊎ ((plan : YieldPlan) × (a ≡ planned plan))
Attempt-cases refused = inl refl
Attempt-cases (retry fewer) = inr (inl (fewer, refl))
Attempt-cases (planned plan) = inr (inr (plan, refl))

module _ (r : YieldRoute) where
  abbrev pub IsHeld : Holding → Type 0
  IsHeld h = IsKey r.held_by_protocol (protocol_of h)

  -- The round that yields an answer other than `null`, up to its settlement.
  pub attempt-eq-some :
      (sources : List Holding) (a : Attempt)
      → attempt r sources ≡ some a
      → (a ≡ refused)
        ⊎ ((d : Draw) × (migration_cost r sources < r.capital)
            × (0 < planned_allocation r sources)
            × (plan_withdrawals r sources ≡ some d)
            × (settle_round r sources d ≡ some a))
  unfolding attempt
  attempt-eq-some sources a e =
      elim (Bool-cases
        (leb r.capital (migration_cost r sources) || planned_allocation r sources == 0)) [
          | inl over ↦ inl (sym (some_inj (rw over at e)))
          | inr under ↦ elim (Option-cases (plan_withdrawals r sources)) [
            | inl unfunded ↦ inl (sym (some_inj (rw (under, unfunded) at e)))
            | inr (d, found) ↦ inr (d, ground arith, ground arith, found, rw (under, found) at e)
          ]
        ]

  pub settle_round-eq-some :
      (sources : List Holding) (d : Draw) (a : Attempt)
      → settle_round r sources d ≡ some a
      → (a ≡ refused)
        ⊎ ((a ≡ retry (filter (has_withdrawal d) sources))
            × (length (filter (has_withdrawal d) sources) < length sources))
        ⊎ ((f : Dict ℤ) × (length (filter (has_withdrawal d) sources) ≡ length sources)
            × (exceeds_costs r sources d ≡ false)
            × (final_holdings d sources (signed_holdings r.held_by_protocol) ≡ some f)
            × (a ≡ conclude r sources d f))
  unfolding settle_round
  settle_round-eq-some sources d a e =
      let used = filter (has_withdrawal d) sources in
      let fewer = length-filter-le (has_withdrawal d) sources in
      elim (Bool-cases (length used == length sources)) [
        | inr drops ↦ inr (inl (sym (some_inj (rw drops at e)), ground arith))
        | inl keeps ↦ elim (Bool-cases (exceeds_costs r sources d)) [
          | inl dear ↦ inl (sym (some_inj (rw (keeps, dear) at e)))
          | inr cheap ↦
              let held = signed_holdings r.held_by_protocol in
              let (f, found, made) =
                >>=-eq-some (final_holdings d sources held) (λ f. some (conclude r sources d f))
                  (rw (keeps, cheap) at e) in
              inr (inr (f, ground arith, cheap, found, sym (some_inj made)))
        ]
      ]

  settle_round-total :
      (sources : List Holding) (d : Draw)
      → All IsHeld sources
      → (a : Attempt) × (settle_round r sources d ≡ some a)
  unfolding settle_round
  settle_round-total sources d h =
      let used = filter (has_withdrawal d) sources in
      let held = signed_holdings r.held_by_protocol in
      elim (Bool-cases (length used == length sources)) [
        | inr drops ↦ (retry used, rw drops refl)
        | inl keeps ↦ elim (Bool-cases (exceeds_costs r sources d)) [
          | inl dear ↦ (refused, rw (keeps, dear) refl)
          | inr cheap ↦
              let (f, e) = final_holdings-total d sources held (
                All-imp IsHeld (λ (s : Holding). IsKey held (protocol_of s)) sources
                  (λ (s : Holding) (k : IsHeld s).
                    IsKey-signed_holdings (protocol_of s) r.held_by_protocol k)
                  h) in
              (conclude r sources d f, rw (keeps, cheap, e) refl)
        ]
      ]

  attempt-total :
      (sources : List Holding) → All IsHeld sources → (a : Attempt) × (attempt r sources ≡ some a)
  unfolding attempt
  attempt-total sources h =
      elim (Bool-cases
        (leb r.capital (migration_cost r sources) || planned_allocation r sources == 0)) [
          | inl over ↦ (refused, rw over refl)
          | inr under ↦ elim (Option-cases (plan_withdrawals r sources)) [
            | inl unfunded ↦ (refused, rw (under, unfunded) refl)
            | inr (d, found) ↦
                let (a, e) = settle_round-total sources d h in (a, rw (under, found) e)
          ]
        ]

  pub conclude-either :
      (sources : List Holding) (d : Draw) (f : Dict ℤ)
      → (conclude r sources d f ≡ refused)
        ⊎ ((conclude r sources d f ≡ planned (yield_plan r sources d f))
            × (all (λ (e : Text × ℤ). is_within r sources e.1) (with_allocation r sources f) ≡ true)
            × (0 < annual_uplift r sources d)
            × (migration_cost r sources + r.minimum_net_benefit ≤ yield_gain r sources d))
  unfolding conclude
  conclude-either sources d f =
      elim (Bool-cases
        (all (λ (e : Text × ℤ). is_within r sources e.1) (with_allocation r sources f))) [
          | inr outside ↦ inl (rw outside refl)
          | inl inside ↦ elim (Bool-cases (annual_uplift r sources d == 0)) [
            | inl zero_gain ↦ inl (rw (inside, zero_gain) refl)
            | inr gains ↦
                elim (Bool-cases (
                  ltb (yield_gain r sources d)
                    (migration_cost r sources + r.minimum_net_benefit))) [
                      | inl low ↦ inl (rw (inside, gains, low) refl)
                      | inr high ↦
                          inr (rw (inside, gains, high) refl, inside, ground arith, ground arith)
                    ]
          ]
        ]

  -- A round that is followed by another leaves out sources.
  retry-fewer :
      (sources fewer : List Holding)
      → attempt r sources ≡ some (retry fewer)
      → (d : Draw) × (fewer ≡ filter (has_withdrawal d) sources) × (length fewer < length sources)
  retry-fewer sources fewer e = elim (attempt-eq-some sources (retry fewer) e) [
    | inl a ↦ absurd cc
    | inr (d, _, _, _, settled) ↦ elim (settle_round-eq-some sources d (retry fewer) settled) [
      | inl a ↦ absurd cc
      | inr (inl (same, less)) ↦
          let same' : fewer ≡ filter (has_withdrawal d) sources = cc in (d, same', rw same' less)
      | inr (inr (f, _, _, _, made)) ↦ elim (conclude-either sources d f) [
        | inl a ↦ absurd cc
        | inr (a, _, _, _) ↦ absurd cc
      ]
    ]
  ]

  -- With fuel above the number of sources, the loop ends.
  pub candidate_plan-total :
      (fuel : ℕ) (sources : List Holding)
      → All IsHeld sources
      → length sources < fuel
      → (answer : Option YieldPlan) × (candidate_plan r fuel sources ≡ some answer)
  unfolding candidate_plan
  candidate_plan-total zero sources h enough = absurd (omega arith)
  candidate_plan-total (suc fuel) sources h enough =
      let (a, made) = attempt-total sources h in
      elim (Attempt-cases a) [
        | inl e ↦ (none, rw (made ∙ ap some e) refl)
        | inr (inl (fewer, e)) ↦
            let (d, same, less) = retry-fewer sources fewer (made ∙ ap some e) in
            let kept : All IsHeld fewer =
              rw same (All-filter IsHeld (has_withdrawal d) sources h) in
            let (answer, found) = candidate_plan-total fuel fewer kept (omega arith) in
            (answer, rw (made ∙ ap some e) found)
        | inr (inr (plan, e)) ↦ (some plan, rw (made ∙ ap some e) refl)
      ]

  -- A plan of the loop is that of a round over sources that are left from those given.
  pub candidate_plan-eq-some {ℓ} :
      (P : List Holding → Type ℓ)
      → ((keep : Holding → Bool) (sources : List Holding) → P sources → P (filter keep sources))
      → (fuel : ℕ) (sources : List Holding) (plan : YieldPlan) → P sources
      → candidate_plan r fuel sources ≡ some (some plan)
      → (used : List Holding) × P used × (attempt r used ≡ some (planned plan))
  unfolding candidate_plan
  candidate_plan-eq-some P step zero sources plan h e = absurd cc
  candidate_plan-eq-some P step (suc fuel) sources plan h e =
      let (a, made, rest) =
        >>=-eq-some (attempt r sources) (next_round (candidate_plan r fuel)) e in
      elim (Attempt-cases a) [
        | inl k ↦ absurd (let e' = rw k at rest in cc)
        | inr (inl (fewer, k)) ↦
            let (d, same, _) = retry-fewer sources fewer (made ∙ ap some k) in
            let kept : P fewer = rw same (step (has_withdrawal d) sources h) in
            candidate_plan-eq-some P step fuel fewer plan kept (rw k at rest)
        | inr (inr (plan', k)) ↦
            let same : plan' ≡ plan = some_inj (some_inj (rw k at rest)) in
            (sources, h, made ∙ ap some (k ∙ ap planned same))
      ]

  -- What is known of the plan of a round.
  pub attempt-planned :
      (sources : List Holding) (plan : YieldPlan)
      → attempt r sources ≡ some (planned plan)
      → (d : Draw) × (f : Dict ℤ) × (plan ≡ yield_plan r sources d f)
        × (migration_cost r sources < r.capital)
        × (0 < planned_allocation r sources)
        × (plan_withdrawals r sources ≡ some d)
        × (exceeds_costs r sources d ≡ false)
        × (final_holdings d sources (signed_holdings r.held_by_protocol) ≡ some f)
        × (all (λ (e : Text × ℤ). is_within r sources e.1) (with_allocation r sources f) ≡ true)
        × (migration_cost r sources + r.minimum_net_benefit ≤ yield_gain r sources d)
  attempt-planned sources plan e = elim (attempt-eq-some sources (planned plan) e) [
    | inl a ↦ absurd cc
    | inr (d, below, some_allocation, drawn, settled) ↦
        elim (settle_round-eq-some sources d (planned plan) settled) [
          | inl a ↦ absurd cc
          | inr (inl (a, _)) ↦ absurd cc
          | inr (inr (f, _, cheap, final, made)) ↦ elim (conclude-either sources d f) [
            | inl a ↦ absurd cc
            | inr (a, inside, _, gain) ↦
                let same : plan ≡ yield_plan r sources d f = cc in
                (d, f, same, below, some_allocation, drawn, cheap, final, inside, gain)
          ]
        ]
  ]
