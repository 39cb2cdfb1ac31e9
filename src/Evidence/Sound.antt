-- ===== src/Evidence/Sound.antt =====
-- What the status of the evidence means.
use positioncrew.Prelude.{
  ℕ, ◌+◌, ◌*◌, ◌≤◌, ◌<◌, ◌≡◌, ◌↔◌, refl, Bool, true, false, some, List, [], ◌∷◌, map, ltb, arith,
  All, text_eq_iff, inl, inr, Bool-cases, Option-cases, filter, append-nil,
}
use positioncrew.Contracts.{SourceObservation}
use positioncrew.Lending.Provider.{find_source, is_empty}
use positioncrew.Lending.{source_expiry}
use positioncrew.Lending.Deliverable.{source_expiry-bounds, IsFresh}
use positioncrew.Evidence.{
  TimestampedObservation, EvidenceStatus, observation_problems, mismatches, future_sources,
  inconsistencies, too_old, validate_evidence,
}

-- The source of an observation is listed and has the same timestamp, which is not in the future.
pub record IsBacked (sources : List SourceObservation) (now : ℕ) (o : TimestampedObservation)
    : Type 0 where
  pub source : SourceObservation
  pub listed : find_source sources o.source_id ≡ some source
  pub same : o.observed_at.text ≡ source.observed_at.text
  pub past : o.observed_at.ms ≤ now

abbrev pub IsPast : ℕ → SourceObservation → Type 0
IsPast now s = s.observed_at.ms ≤ now

filter-nil_iff {κ} :
    {A : Type 0} (P : A → Type κ) (p : A → Bool) (xs : List A)
    → ((x : A) → (p x ≡ false) ↔ P x)
    → (filter p xs ≡ []) ↔ All P xs
filter-nil_iff P p [] f = (λ _. tt, λ _. refl)
filter-nil_iff P p (x ∷ xs) f = elim (Bool-cases (p x)) [
  | inl caught ↦ (λ h. absurd (ground arith), λ h. let g = (f x).1 h.0 in absurd (ground arith))
  | inr passed ↦
      rw passed
        (λ h. ((f x).0 passed, (filter-nil_iff P p xs f).0 h), λ h. (filter-nil_iff P p xs f).1 h.1)
]

map-nil : {A B : Type 0} (f : A → B) (xs : List A) → (map f xs ≡ []) ↔ (xs ≡ [])
map-nil f [] = (λ _. refl, λ _. refl)
map-nil f (x ∷ xs) = (λ h. absurd (ground arith), λ h. absurd (ground arith))

pub is_empty-nil : {A : Type 0} (xs : List A) → (is_empty xs ≡ true) ↔ (xs ≡ [])
is_empty-nil [] = (λ _. refl, λ _. refl)
is_empty-nil (x ∷ xs) = (λ h. absurd (ground arith), λ h. absurd (ground arith))

module _ (sources : List SourceObservation) (now : ℕ) where
  observation_problems-nil :
      (o : TimestampedObservation)
      → (observation_problems sources now o ≡ []) ↔ IsBacked sources now o
  unfolding observation_problems
  observation_problems-nil o = elim (Option-cases (find_source sources o.source_id)) [
    | inl missing ↦ (λ h. absurd (ground arith), λ b. let l = b.listed in absurd (ground arith))
    | inr (s, listed) ↦
        let same = text_eq_iff o.observed_at.text s.observed_at.text in
        (
          λ h. record { source = s; listed = listed; same = ground arith; past = ground arith },
          λ b. let l = b.listed in let e = b.same in let p = b.past in ground arith,
        )
  ]

  mismatches-nil :
      (os : List TimestampedObservation)
      → (mismatches sources now os ≡ []) ↔ All (IsBacked sources now) os
  unfolding mismatches
  mismatches-nil [] = (λ _. tt, λ _. refl)
  mismatches-nil (o ∷ os) =
      let split = append-nil (observation_problems sources now o) (mismatches sources now os) in
      (
        λ h. ((observation_problems-nil o).0 (split.0 h).0, (mismatches-nil os).0 (split.0 h).1),
        λ h. split.1 ((observation_problems-nil o).1 h.0, (mismatches-nil os).1 h.1),
      )

  future_sources-nil : (future_sources sources now ≡ []) ↔ All (IsPast now) sources
  unfolding future_sources
  future_sources-nil =
      let none_left =
        filter-nil_iff (IsPast now) (λ (s : SourceObservation). ltb now s.observed_at.ms) sources
          (λ s. (λ h. ground arith, λ h. ground arith)) in
      let mapped =
        map-nil _ (filter (λ (s : SourceObservation). ltb now s.observed_at.ms) sources) in
      (λ h. none_left.0 (mapped.0 h), λ h. mapped.1 (none_left.1 h))

  too_old-nil : (age : ℕ) → (too_old sources now age ≡ []) ↔ All (IsFresh age now) sources
  unfolding too_old
  too_old-nil age =
      filter-nil_iff (IsFresh age now) _ sources (λ s. (λ h. ground arith, λ h. ground arith))

  -- The evidence is fit exactly if the deadline has not passed, every observation has a listed source
  -- with its own timestamp, nothing is dated in the future, and no source is older than allowed.
  pub validate_evidence_fit :
      (observations : List TimestampedObservation) (deadline age : ℕ)
      → ((validate_evidence sources now observations deadline age).status ≡ EvidenceStatus.fit) ↔ (
          (now < deadline)
          × All (IsBacked sources now) observations
          × All (IsPast now) sources
          × All (IsFresh age now) sources)
  unfolding validate_evidence inconsistencies
  validate_evidence_fit observations deadline age =
      let split = append-nil (mismatches sources now observations) (future_sources sources now) in
      let consistent = is_empty-nil (inconsistencies sources now observations) in
      let young = is_empty-nil (too_old sources now age) in
      (
        λ h.
            let in_time : now < deadline = ground arith in
            let good = consistent.0 (ground arith) in
            let fresh = young.0 (ground arith) in
            (
              in_time,
              (mismatches-nil observations).0 (split.0 good).0,
              future_sources-nil.0 (split.0 good).1,
              (too_old-nil age).0 fresh,
            ),
        λ (in_time, backed, past, fresh).
            let good =
              consistent.1
                (split.1 ((mismatches-nil observations).1 backed, future_sources-nil.1 past)) in
            let left = young.1 ((too_old-nil age).1 fresh) in ground arith,
      )

  validate_evidence-expires_at :
      (observations : List TimestampedObservation) (deadline age : ℕ)
      → (validate_evidence sources now observations deadline age).expires_at
        ≡ source_expiry age sources deadline
  unfolding validate_evidence
  validate_evidence-expires_at observations deadline age = ground arith

  -- The evidence expires no later than the deadline and than the age limit of each source, and fit
  -- evidence has not expired.
  pub validate_evidence_expiry :
      (observations : List TimestampedObservation) (deadline age : ℕ)
      → ((validate_evidence sources now observations deadline age).expires_at ≤ deadline)
        × All
            (λ (s : SourceObservation).
              (validate_evidence sources now observations deadline age).expires_at
              ≤ s.observed_at.ms + age * 1_000)
            sources
        × ((validate_evidence sources now observations deadline age).status ≡ EvidenceStatus.fit
            → now ≤ (validate_evidence sources now observations deadline age).expires_at)
  validate_evidence_expiry observations deadline age =
      let (before, ends, late) = source_expiry-bounds age deadline now sources in
      let same = validate_evidence-expires_at observations deadline age in
      rw same (
        before,
        ends,
        λ h.
            let (in_time, _, _, fresh) = (validate_evidence_fit observations deadline age).0 h in
            late (omega arith) fresh,
      )
