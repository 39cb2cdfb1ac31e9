-- ===== src/Evidence.antt =====
-- src/providers/provider-utils.ts: the check of a request's evidence that the LP, yield and grid
-- providers share. The texts of the reasons are values.
pub mod Sound
mod Tests
use positioncrew.Prelude.{
  ℕ, zero, ◌+◌, ◌*◌, Bool, true, false, not, ◌||◌, Option, none, some, List, [], ◌∷◌, ◌++◌, map,
  ltb, leb, if◌then◌else◌, Text, text_eq, filter,
}
use positioncrew.Contracts.{Timestamp, SourceObservation}
use positioncrew.Lending.{source_expiry}
use positioncrew.Lending.Provider.{find_source, is_empty}

pub record TimestampedObservation : Type 0 where
  pub source_id : Text
  pub observed_at : Timestamp

pub data EvidenceStatus : Type 0 where
  fit refused_expired refused_stale_data refused_inconsistent_data : EvidenceStatus

pub data Reason : Type 0 where
  deadline_passed : Reason
  missing_source timestamp_mismatch future_dated stale_source : Text → Reason

pub record EvidenceState : Type 0 where
  pub status : EvidenceStatus
  pub expires_at : ℕ
  pub reasons : List Reason

module _ (sources : List SourceObservation) (now : ℕ) where
  unfoldable pub observation_problems : TimestampedObservation → List Reason
  observation_problems o = elim (find_source sources o.source_id) [
    | none ↦ missing_source o.source_id ∷ []
    | some source ↦
        if not (text_eq o.observed_at.text source.observed_at.text) || ltb now o.observed_at.ms
        then timestamp_mismatch o.source_id ∷ []
        else []
  ]

  -- The loop over the observations.
  unfoldable pub mismatches : List TimestampedObservation → List Reason
  mismatches [] = []
  mismatches (o ∷ observations) = observation_problems o ++ mismatches observations

  unfoldable pub future_sources : List Reason
  future_sources =
      map (λ (s : SourceObservation). future_dated s.source_id)
        (filter (λ (s : SourceObservation). ltb now s.observed_at.ms) sources)

  unfoldable pub inconsistencies : List TimestampedObservation → List Reason
  inconsistencies observations = mismatches observations ++ future_sources

  -- The difference of the two times is signed in the source: an age above the limit, by addition.
  unfoldable pub too_old : ℕ → List SourceObservation
  too_old age = filter (λ (s : SourceObservation). ltb (s.observed_at.ms + age * 1_000) now) sources

  unfoldable pub validate_evidence : List TimestampedObservation → ℕ → ℕ → EvidenceState
  validate_evidence observations deadline age =
      let expiry = source_expiry age sources deadline in
      if leb deadline now
      then record {
        status = EvidenceStatus.refused_expired;
        expires_at = expiry;
        reasons = deadline_passed ∷ [];
      }
      else if not (is_empty (inconsistencies observations))
      then record {
        status = EvidenceStatus.refused_inconsistent_data;
        expires_at = expiry;
        reasons = inconsistencies observations;
      }
      else if not (is_empty (too_old age))
      then record {
        status = EvidenceStatus.refused_stale_data;
        expires_at = expiry;
        reasons = map (λ (s : SourceObservation). stale_source s.source_id) (too_old age);
      }
      else record { status = EvidenceStatus.fit; expires_at = expiry; reasons = [] }
