-- ===== src/Lending/Deliverable.antt =====
-- What stands behind a deliverable of `createLendingRescueDeliverable`.
use positioncrew.Prelude.{
  ℕ, ◌+◌, ◌-◌, ◌*◌, ◌≤◌, ◌<◌, ◌≡◌, refl, ap, Bool, true, false, not, Option, some, List, [], ◌∷◌,
  ◌++◌, map, arith, leb, not-leb→lt, All, All-imp, text_eq_sound, inl, inr, Bool-cases,
  Option-cases, filter,
}
use positioncrew.Prelude.Throws.{guard, >>=-eq-some, guard-eq-some}
use positioncrew.Core.Fixed.{fixed_scale, parse_fixed, ratio_from_bps, minimum}
use positioncrew.Contracts.{SourceObservation, PricedBalance, ProviderStatus}
use positioncrew.Contracts.LendingRescue.{
  LendingRescueRequest, LendingRescueDeliverable, LendingActionPlan, is_lending_request,
  is_lending_deliverable,
}
use positioncrew.Lending.{
  LendingPositionMetrics, LendingActionCandidate, ActionHash, calculate_lending_position,
  build_lending_action_candidates, source_expiry,
}
use positioncrew.Lending.Provider.{
  find_source, entry_problems, problems_of, source_integrity_problems, stale_sources, Answer,
  with_plans, is_empty, rescue, answer, deliver, create_lending_rescue_deliverable,
}

-- The observation of an entry is supported by its source: the source is listed, has the same
-- timestamp, and the observation is not later than now.
pub record IsSupported (sources : List SourceObservation) (now : ℕ) (e : PricedBalance)
    : Type 0 where
  pub source : SourceObservation
  pub listed : find_source sources e.source_id ≡ some source
  pub past : e.observed_at.ms ≤ now
  pub same : e.observed_at.text ≡ source.observed_at.text

entry_problems-nil :
    (sources : List SourceObservation) (now : ℕ) (e : PricedBalance)
    → entry_problems sources now e ≡ []
    → IsSupported sources now e
unfolding entry_problems
entry_problems-nil sources now e h = elim (Option-cases (find_source sources e.source_id)) [
  | inl missing ↦ absurd (ground arith)
  | inr (s, listed) ↦ record {
    source = s;
    listed = listed;
    past = ground arith;
    same = text_eq_sound _ _ (ground arith);
  }
]

append-nil_left {ℓ} : {A : Type ℓ} (xs ys : List A) → xs ++ ys ≡ [] → (xs ≡ []) × (ys ≡ [])
append-nil_left [] ys h = (refl, h)
append-nil_left (x ∷ xs) ys h = cc

pub problems_of-nil :
    (sources : List SourceObservation) (now : ℕ) (es : List PricedBalance)
    → problems_of sources now es ≡ []
    → All (IsSupported sources now) es
unfolding problems_of
problems_of-nil sources now [] h = tt
problems_of-nil sources now (e ∷ es) h =
    let (here, later) = append-nil_left (entry_problems sources now e) _ h in
    (entry_problems-nil sources now e here, problems_of-nil sources now es later)

-- No source is older than the request allows.
abbrev pub IsFresh : ℕ → ℕ → SourceObservation → Type 0
IsFresh age now s = now ≤ s.observed_at.ms + age * 1_000

pub filter-nil {ℓ κ} :
    {A : Type ℓ} (P : A → Type κ) (p : A → Bool) (xs : List A)
    → ((x : A) → p x ≡ false → P x)
    → filter p xs ≡ []
    → All P xs
filter-nil P p [] keep h = tt
filter-nil P p (x ∷ xs) keep h = elim (Bool-cases (p x)) [
  | inl caught ↦ absurd (ground arith)
  | inr passed ↦ (keep x passed, filter-nil P p xs keep (ground arith))
]

pub is_empty-nil {ℓ} : {A : Type ℓ} (xs : List A) → not (is_empty xs) ≡ false → xs ≡ []
is_empty-nil [] h = refl
is_empty-nil (x ∷ xs) h = cc

-- The time at which an answer expires is the earliest of the deadline and the ages' ends.
pub source_expiry-bounds :
    (age bound now : ℕ) (sources : List SourceObservation)
    → (source_expiry age sources bound ≤ bound)
      × All (λ s. source_expiry age sources bound ≤ s.observed_at.ms + age * 1_000) sources
      × (now ≤ bound → All (IsFresh age now) sources → now ≤ source_expiry age sources bound)
unfolding minimum
source_expiry-bounds age bound now [] = (omega arith, tt, λ h _. h)
source_expiry-bounds age bound now (s ∷ sources) =
    let (low, ends, late) = source_expiry-bounds age bound now sources in
    (
      ground arith,
      (ground arith, All-imp _ _ sources (λ x h. ground arith) ends),
      λ h k. ground (arith, late h k.1),
    )

module _ (hash : ActionHash) (request : LendingRescueRequest) (now : ℕ) where
  -- What stands behind a deliverable.
  pub record Made (d : LendingRescueDeliverable) : Type 0 where
    pub current : LendingPositionMetrics
    pub stressed : LendingPositionMetrics
    pub found : Answer
    pub valid : is_lending_request request ≡ true
    pub measured : calculate_lending_position request fixed_scale ≡ some current
    pub answered : answer hash request current now ≡ some found
    pub delivered : d ≡ deliver hash request current stressed now found

  pub create-Made :
      {d : LendingRescueDeliverable}
      → create_lending_rescue_deliverable hash request now ≡ some d
      → Made d
  unfolding create_lending_rescue_deliverable
  create-Made {d} e =
      let (_, valid, e₁) = >>=-eq-some (guard (is_lending_request request)) _ e in
      let (current, measured, e₂) =
        >>=-eq-some (calculate_lending_position request fixed_scale) _ e₁ in
      let (stressed, _, e₃) =
        >>=-eq-some
          (calculate_lending_position request
            (fixed_scale - ratio_from_bps request.stress_price_drop_bps))
          _ e₂ in
      let (found, answered, e₄) = >>=-eq-some (answer hash request current now) _ e₃ in
      let (_, _, e₅) =
        >>=-eq-some
          (guard (is_lending_deliverable (deliver hash request current stressed now found))) _ e₄ in
      record {
        current = current;
        stressed = stressed;
        found = found;
        valid = guard-eq-some _ valid;
        measured = measured;
        answered = answered;
        delivered = cc;
      }

  pub answer-actionable :
      (current : LendingPositionMetrics) {a : Answer}
      → answer hash request current now ≡ some a
      → a.status ≡ ProviderStatus.actionable
      → (h : ℕ) × (current.health_factor ≡ some h)
        × (rescue hash request current h ≡ some a)
        × (now < request.deadline.ms)
        × (not (is_empty (source_integrity_problems request now)) ≡ false)
        × (not (is_empty (stale_sources request now)) ≡ false)
  unfolding answer
  answer-actionable current {a} e s = elim (Option-cases current.health_factor) [
    | inl unknown ↦ absurd (ground arith)
    | inr (h, known) ↦ (h, known, ground arith, ground arith, ground arith, ground arith)
  ]

  -- A recommended plan, with the others, and the candidates that they come from.
  pub record Offers (current : LendingPositionMetrics) (h : ℕ)
      (recommendation : Option LendingActionPlan) (alternatives : List LendingActionPlan)
      : Type 0 where
    pub target : ℕ
    pub best : LendingActionCandidate
    pub others : List LendingActionCandidate
    pub read : parse_fixed request.target_health_factor ≡ some target
    pub below : h < target
    pub built : build_lending_action_candidates hash request current ≡ some (best ∷ others)
    pub recommended : recommendation ≡ some best.plan
    pub listed : alternatives ≡ map (λ (c : LendingActionCandidate). c.plan) others

  Offers-of :
      (current : LendingPositionMetrics) (h target : ℕ) (cs : List LendingActionCandidate)
      {a : Answer}
      → parse_fixed request.target_health_factor ≡ some target
      → h < target
      → build_lending_action_candidates hash request current ≡ some cs
      → a ≡ with_plans cs
      → a.status ≡ ProviderStatus.actionable
      → Offers current h a.recommendation a.alternatives
  Offers-of current h target [] read below built e s = absurd (ground arith)
  Offers-of current h target (c ∷ cs) read below built e s = record {
    target = target;
    best = c;
    others = cs;
    read = read;
    below = below;
    built = built;
    recommended = ap (λ (x : Answer). x.recommendation) e;
    listed = ap (λ (x : Answer). x.alternatives) e;
  }

  pub rescue-Offers :
      (current : LendingPositionMetrics) (h : ℕ) {a : Answer}
      → rescue hash request current h ≡ some a
      → a.status ≡ ProviderStatus.actionable
      → Offers current h a.recommendation a.alternatives
  unfolding rescue
  rescue-Offers current h {a} e s =
      let (target, read, e₁) = >>=-eq-some (parse_fixed request.target_health_factor) _ e in
      elim (Bool-cases (leb target h)) [
        | inl met ↦ absurd (ground arith)
        | inr unmet ↦
            let (cs, built, e₂) =
              >>=-eq-some (build_lending_action_candidates hash request current) _
                (rw unmet at e₁) in
            let offered : a ≡ with_plans cs = cc in
            Offers-of current h target cs read (not-leb→lt target h unmet) built offered s
      ]
