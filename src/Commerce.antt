-- ===== src/Commerce.antt =====
-- src/commerce/types.ts: a job, the receipts that move it on, and the tests of their schemas. zod's
-- `url()` is a parameter of the tests.
pub mod Adapter
pub mod Reference
pub mod Stage
pub mod Operations
pub mod Judgement
pub mod Assignments
pub mod Store
pub mod Reached
pub mod Again
pub mod Kept
pub mod Permanent
mod Tests
use positioncrew.Prelude.{
  ℕ, zero, ◌+◌, Bool, true, false, not, ◌&&◌, ◌||◌, Option, List, [], ◌∷◌, ltb, leb, ◌==◌,
  if◌then◌else◌, Text, length, any, all,
}
use positioncrew.Contracts.{
  Timestamp, ServiceType, AssetIdentity, has_length, is_chain, is_address, is_hash,
  is_asset_identity, is_positive_decimal,
}

pub data JobState : Type 0 where
  created funded assigned submitted evaluated completed : JobState
  rejected disputed refunded unknown : JobState

pub record JobBudget : Type 0 where
  pub chain_id : ℕ
  pub token : AssetIdentity
  pub amount : Text

pub record JobEnvelope : Type 0 where
  pub idempotency_key : Text
  pub service : ServiceType
  pub request_id : Text
  pub request_hash : Text
  pub budget : JobBudget
  pub created_at : Timestamp
  pub deadline : Timestamp

pub record FundingReceipt : Type 0 where
  pub token_address : Text
  pub amount : Text
  pub transaction_reference : Text
  pub funded_at : Timestamp

pub record DeliverableManifest : Type 0 where
  pub request_hash : Text
  pub deliverable_hash : Text
  pub uri : Text
  pub created_at : Timestamp

pub record EvaluationCheck : Type 0 where
  pub id : Text
  pub label : Text
  pub weight : ℕ
  pub critical : Bool
  pub passed : Bool
  pub evidence : Text

-- An evaluation without its commitment.
pub record EvaluationBody : Type 0 where
  pub rubric_version : Text
  pub request_hash : Text
  pub deliverable_hash : Text
  pub evaluator_id : Text
  pub evaluated_at : Timestamp
  pub score : ℕ
  pub passed : Bool
  pub checks : List EvaluationCheck

pub record EvaluationReceipt : Type 0 where
  pub body : EvaluationBody
  pub open body use *
  pub evaluation_hash : Text

pub record JobHistoryEntry : Type 0 where
  pub state : JobState
  pub at : Timestamp
  pub reference : Text

pub record JobRecord : Type 0 where
  pub job_id : Text
  pub envelope : JobEnvelope
  pub envelope_hash : Text
  pub state : JobState
  pub provider_id : Option Text
  pub evaluator_id : Option Text
  pub funding : Option FundingReceipt
  pub deliverable : Option DeliverableManifest
  pub evaluation : Option EvaluationReceipt
  pub history : List JobHistoryEntry

-- `JobBudgetSchema`
unfoldable pub is_budget : JobBudget → Bool
unfolding is_asset_identity is_positive_decimal
is_budget b = is_chain b.chain_id && is_asset_identity b.token && is_positive_decimal b.amount

-- `JobEnvelopeSchema`
unfoldable pub is_envelope : JobEnvelope → Bool
unfolding is_hash is_budget
is_envelope e =
    has_length 8 160 e.idempotency_key
    && has_length 8 120 e.request_id
    && is_hash e.request_hash
    && is_budget e.budget
    && ltb e.created_at.ms e.deadline.ms

-- `FundingReceiptSchema`
unfoldable pub is_funding_receipt : FundingReceipt → Bool
unfolding is_address is_positive_decimal
is_funding_receipt r =
    is_address r.token_address
    && is_positive_decimal r.amount
    && has_length 8 200 r.transaction_reference

-- `DeliverableManifestSchema`
unfoldable pub is_manifest : (Text → Bool) → DeliverableManifest → Bool
unfolding is_hash
is_manifest is_url m = is_hash m.request_hash && is_hash m.deliverable_hash && is_url m.uri

-- `EvaluationCheckSchema`
unfoldable pub is_check : EvaluationCheck → Bool
is_check c =
    has_length 1 120 c.id
    && has_length 1 200 c.label
    && leb c.weight 100
    && has_length 1 500 c.evidence

-- The weights of the checks that passed.
unfoldable pub computed_score : List EvaluationCheck → ℕ → ℕ
computed_score [] total = total
computed_score (c ∷ cs) total = computed_score cs (total + (if c.passed then c.weight else 0))

unfoldable pub critical_failure : List EvaluationCheck → Bool
critical_failure cs = any (λ (c : EvaluationCheck). c.critical && not c.passed) cs

abbrev pub bool_eq : Bool → Bool → Bool
bool_eq true b = b
bool_eq false b = not b

-- `EvaluationReceiptSchema`
unfoldable pub is_evaluation_receipt : EvaluationReceipt → Bool
unfolding is_hash is_check computed_score critical_failure
is_evaluation_receipt r =
    has_length 1 120 r.rubric_version
    && is_hash r.request_hash
    && is_hash r.deliverable_hash
    && has_length 3 160 r.evaluator_id
    && leb r.score 100
    && leb 1 (length r.checks)
    && all is_check r.checks
    && is_hash r.evaluation_hash
    && computed_score r.checks 0 == r.score
    && bool_eq r.passed (leb 90 r.score && not (critical_failure r.checks))
