-- ===== src/Evidence/Tests.antt =====
-- The theorems on the evidence, on one source with one observation.
use positioncrew.Prelude.{◌+◌, ◌*◌, ◌≤◌, ◌<◌, ◌≡◌, ◌↔◌, List, [], ◌∷◌, All, codes}
use positioncrew.Contracts.{Timestamp, SourceObservation}
use positioncrew.Lending.Deliverable.{IsFresh}
use positioncrew.Evidence.{TimestampedObservation, EvidenceStatus, validate_evidence}
use positioncrew.Evidence.Sound.{IsBacked, IsPast, validate_evidence_fit, validate_evidence_expiry}

abbrev observed : Timestamp
observed = record { text = codes "2026-09-03T16:00:00.000Z"; ms = 900_000 }

abbrev sources : List SourceObservation
sources =
    record {
      source_id = codes "pool";
      label = codes "Pool";
      uri = codes "https://pool.test";
      observed_at = observed;
    }
    ∷ []

abbrev observations : List TimestampedObservation
observations = record { source_id = codes "pool"; observed_at = observed } ∷ []

validate_evidence_fit_example :
    ((validate_evidence sources 1_000_000 observations 2_000_000 600).status ≡ EvidenceStatus.fit)
    ↔ ((1_000_000 < 2_000_000)
        × All (IsBacked sources 1_000_000) observations
        × All (IsPast 1_000_000) sources
        × All (IsFresh 600 1_000_000) sources)
validate_evidence_fit_example = validate_evidence_fit sources 1_000_000 observations 2_000_000 600

validate_evidence_expiry_example :
    ((validate_evidence sources 1_000_000 observations 2_000_000 600).expires_at ≤ 2_000_000)
    × All
        (λ (s : SourceObservation).
          (validate_evidence sources 1_000_000 observations 2_000_000 600).expires_at
          ≤ s.observed_at.ms + 600 * 1_000)
        sources
    × ((validate_evidence sources 1_000_000 observations 2_000_000 600).status ≡ EvidenceStatus.fit
        → 1_000_000 ≤ (validate_evidence sources 1_000_000 observations 2_000_000 600).expires_at)
validate_evidence_expiry_example =
    validate_evidence_expiry sources 1_000_000 observations 2_000_000 600
