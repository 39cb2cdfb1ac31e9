-- ===== src/Lending/Candidates.antt =====
-- The list of candidates as a whole: what each satisfies, and their order.
use positioncrew.Prelude.{
  ℕ, ◌≤◌, ◌≡◌, refl, true, false, Option, none, some, List, [], ◌∷◌, ◌++◌, arith, ltb, leb, ◌==◌,
  All, All-append, inl, inr, Bool-cases, Option-cases, ◌≢◌, not-ltb→le,
}
use positioncrew.Prelude.Sort.{sort, IsSorted, All-sort, sort-IsSorted}
use positioncrew.Prelude.Throws.{big_div, >>=-eq-some}
use positioncrew.Core.Fixed.{parse_fixed}
use positioncrew.Contracts.LendingRescue.{LendingRescueRequest, repay_debt, add_collateral}
use positioncrew.Lending.{
  LendingPositionMetrics, LendingActionCandidate, ActionHash, collect, push, comes_first, includes,
  repay_candidates, collateral_candidates, gather_candidates, below_target,
  build_lending_action_candidates,
}
use positioncrew.Lending.Repay.{repay_candidate-Repays}
use positioncrew.Lending.Collateral.{collateral_candidate-TopsUp}

All-push {ℓ κ} :
    {A : Type ℓ} (P : A → Type κ) (found : Option A) (rest : List A)
    → ((y : A) → found ≡ some y → P y)
    → All P rest
    → All P (push found rest)
All-push P none rest h k = k
All-push P (some y) rest h k = (h y refl, k)

collect-All {ℓ κ μ} :
    {A : Type ℓ} {B : Type κ} (P : B → Type μ) (round : A → Option (Option B))
    → ((x : A) (y : B) → round x ≡ some (some y) → P y)
    → (xs : List A) {ys : List B} → collect round xs ≡ some ys
    → All P ys
unfolding collect
collect-All P round keep [] {ys} e = let none_found : ys ≡ [] = cc in rw none_found tt
collect-All P round keep (x ∷ xs) {ys} e =
    let (found, here, e₁) = >>=-eq-some (round x) _ e in
    let (rest, later, e₂) = >>=-eq-some (collect round xs) _ e₁ in
    let pushed : ys ≡ push found rest = cc in
    rw pushed
      (All-push P found rest (λ y h. keep x y (rw h at here)) (collect-All P round keep xs later))

comes_first_total :
    (x y : LendingActionCandidate) → comes_first x y ≡ false → comes_first y x ≡ true
unfolding comes_first
comes_first_total x y h = ground arith

comes_first_trans :
    (x y z : LendingActionCandidate)
    → comes_first x y ≡ true
    → comes_first y z ≡ true
    → comes_first x z ≡ true
unfolding comes_first
comes_first_trans x y z h k = ground arith

pub comes_first→le :
    (x y : LendingActionCandidate)
    → comes_first x y ≡ true
    → x.capital_required_usd ≤ y.capital_required_usd
unfolding comes_first
comes_first→le x y h = ground arith

-- A candidate is of an allowed kind and within the limit.
pub record IsAllowed (request : LendingRescueRequest) (limit : ℕ) (c : LendingActionCandidate)
    : Type 0 where
  pub allowed : includes request.allowed_actions c.plan.kind ≡ true
  pub within : c.capital_required_usd ≤ limit

module _ (hash : ActionHash) (request : LendingRescueRequest) (metrics : LendingPositionMetrics)
    (target limit : ℕ) where
  repay_candidates-IsAllowed :
      {cs : List LendingActionCandidate}
      → repay_candidates hash request metrics target limit ≡ some cs
      → All (IsAllowed request limit) cs
  unfolding repay_candidates
  repay_candidates-IsAllowed {cs} e =
      elim (Bool-cases (includes request.allowed_actions repay_debt)) [
        | inl listed ↦
            let (m, _, e₁) = >>=-eq-some (big_div _ target) _ (rw listed at e) in
            collect-All (IsAllowed request limit) _
              (λ debt c h.
                let r = repay_candidate-Repays hash request metrics target limit _ debt h in
                record { allowed = rw r.kind listed; within = rw r.capital r.in_budget })
              request.debt e₁
        | inr unlisted ↦ let none_found : cs ≡ [] = ground arith in rw none_found tt
      ]

  collateral_candidates-IsAllowed :
      {cs : List LendingActionCandidate}
      → collateral_candidates hash request metrics target limit ≡ some cs
      → All (IsAllowed request limit) cs
  unfolding collateral_candidates
  collateral_candidates-IsAllowed {cs} e =
      elim (Bool-cases (includes request.allowed_actions add_collateral)) [
        | inl listed ↦
            collect-All (IsAllowed request limit) _
              (λ c found h.
                let r = collateral_candidate-TopsUp hash request metrics target limit _ c h in
                record { allowed = rw r.kind listed; within = rw r.capital r.in_budget })
              request.collateral (rw listed at e)
        | inr unlisted ↦ let none_found : cs ≡ [] = ground arith in rw none_found tt
      ]

module _ (hash : ActionHash) (request : LendingRescueRequest)
    (metrics : LendingPositionMetrics) where
  module _ {limit max_gas gas : ℕ} (el : parse_fixed request.max_action_usd ≡ some limit)
      (em : parse_fixed request.max_gas_usd ≡ some max_gas)
      (eg : parse_fixed request.estimated_gas_usd ≡ some gas) where
    -- What holds of a list of candidates.
    abbrev pub IsOffer : List LendingActionCandidate → Type 0
    IsOffer cs =
        All (IsAllowed request limit) cs × IsSorted comes_first cs × (cs ≢ [] → gas ≤ max_gas)

    IsOffer-nil : {cs : List LendingActionCandidate} → cs ≡ [] → IsOffer cs
    IsOffer-nil e = rw e (tt, tt, λ h. absurd (h refl))

    gather_candidates-IsOffer :
        (target : ℕ) {cs : List LendingActionCandidate}
        → gather_candidates hash request metrics target ≡ some cs
        → IsOffer cs
    unfolding gather_candidates
    gather_candidates-IsOffer target {cs} e = elim (Bool-cases (ltb max_gas gas)) [
      | inl dear ↦ IsOffer-nil (ground arith)
      | inr cheap ↦
          let (repays, er, e₁) =
            >>=-eq-some (repay_candidates hash request metrics target limit) _
              (rw (el, em, eg, cheap) at e) in
          let (adds, ea, e₂) =
            >>=-eq-some (collateral_candidates hash request metrics target limit) _ e₁ in
          let sorted : cs ≡ sort comes_first (repays ++ adds) = cc in
          let all_allowed =
            All-append (IsAllowed request limit) repays adds
              (repay_candidates-IsAllowed hash request metrics target limit er)
              (collateral_candidates-IsAllowed hash request metrics target limit ea) in
          rw sorted (
            All-sort comes_first (IsAllowed request limit) (repays ++ adds) all_allowed,
            sort-IsSorted comes_first comes_first_total comes_first_trans (repays ++ adds),
            λ _. not-ltb→le max_gas gas cheap,
          )
    ]

    below_target-IsOffer :
        (h : ℕ) {cs : List LendingActionCandidate}
        → below_target hash request metrics h ≡ some cs
        → IsOffer cs
    unfolding below_target
    below_target-IsOffer h {cs} e =
        let (target, _, e₁) = >>=-eq-some (parse_fixed request.target_health_factor) _ e in
        elim (Bool-cases (leb target h)) [
          | inl met ↦ IsOffer-nil (ground arith)
          | inr unmet ↦ gather_candidates-IsOffer target (rw unmet at e₁)
        ]

    -- The candidates of a request are of allowed kinds and within its action limit, they stand in the
    -- order of the capital that they need, and there are none unless the gas is within its limit.
    pub build_candidates_offer :
        {cs : List LendingActionCandidate}
        → build_lending_action_candidates hash request metrics ≡ some cs
        → All (IsAllowed request limit) cs × IsSorted comes_first cs × (cs ≢ [] → gas ≤ max_gas)
    unfolding build_lending_action_candidates
    build_candidates_offer {cs} e = elim (Bool-cases (metrics.debt_value_usd == 0)) [
      | inl free ↦ IsOffer-nil (ground arith)
      | inr owed ↦ elim (Option-cases metrics.health_factor) [
        | inl unknown ↦ IsOffer-nil (ground arith)
        | inr (h, known) ↦ below_target-IsOffer h (rw known at (rw owed at e))
      ]
    ]
