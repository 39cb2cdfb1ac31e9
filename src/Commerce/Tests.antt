-- ===== src/Commerce/Tests.antt =====
-- A job from its creation to its completion, and the theorems on it.
use positioncrew.Prelude.{
  ℕ, ◌≡◌, refl, true, false, none, some, List, [], ◌∷◌, ◌++◌, Text, codes, ok, arith,
}
use positioncrew.Prelude.Dict.{lookup, insert}
use positioncrew.Contracts.{Timestamp, AssetIdentity, ServiceType}
use positioncrew.Commerce.{
  completed, JobEnvelope, FundingReceipt, DeliverableManifest, EvaluationReceipt, JobRecord,
  is_envelope, is_funding_receipt, is_manifest, is_evaluation_receipt,
}
use positioncrew.Commerce.Adapter.{
  Host, Adapter, already_funded, empty_adapter, on_job, create_job, fund, assign_provider,
  assign_evaluator, submit_deliverable, evaluate, reconcile, fund_step, prior_step, submit_step,
  evaluate_step, assign_provider_step, assign_evaluator_step,
}
use positioncrew.Commerce.Store.{
  Call, creating, funding, assigning_provider, assigning_evaluator, submitting, evaluating, run,
  AllStored,
}
use positioncrew.Commerce.Reached.{
  Reached, at_start, by_call, reached-AllStored, IsFulfilled, completed-IsFulfilled,
  failed_unchanged, others_unchanged,
}
use positioncrew.Commerce.Again.{run-again}
use positioncrew.Commerce.Kept.{Keeps}
use positioncrew.Commerce.Permanent.{call-Keeps}

abbrev hash_text : Text
hash_text = codes "sha256:0123456789abcdef0123456789abcdef0123456789abcdef0123456789abcdef"

-- A host whose commitments are readable.
abbrev host : Host
host = record {
  hash_envelope = λ (e : JobEnvelope). e.idempotency_key;
  hash_job = λ h. codes "sha256:" ++ h;
  hash_funding = λ (r : FundingReceipt). r.transaction_reference;
  hash_manifest = λ (m : DeliverableManifest). m.uri;
  hash_body = λ b. hash_text;
  hash_receipt = λ (r : EvaluationReceipt). r.evaluator_id;
  is_url = λ s. true;
}

abbrev at_ms : ℕ → Timestamp
at_ms n = record { text = codes "2026-09-03T16:00:00.000Z"; ms = n }

abbrev usdc : AssetIdentity
usdc = record {
  symbol = codes "USDC";
  address = codes "0x0000000000000000000000000000000000001001";
  decimals = 6;
}

abbrev envelope_of : Text → JobEnvelope
envelope_of key = record {
  idempotency_key = key;
  service = ServiceType.lending_rescue;
  request_id = codes "request-1";
  request_hash = hash_text;
  budget = record { chain_id = 56; token = usdc; amount = codes "5" };
  created_at = at_ms 1_000;
  deadline = at_ms 9_000;
}

abbrev funding_receipt : FundingReceipt
funding_receipt = record {
  token_address = codes "0x0000000000000000000000000000000000001001";
  amount = codes "5";
  transaction_reference = codes "memory-funding";
  funded_at = at_ms 2_000;
}

abbrev manifest : DeliverableManifest
manifest = record {
  request_hash = hash_text;
  deliverable_hash = hash_text;
  uri = codes "data:1";
  created_at = at_ms 3_000;
}

abbrev evaluation_receipt : EvaluationReceipt
evaluation_receipt = record {
  body = record {
    rubric_version = codes "v1";
    request_hash = hash_text;
    deliverable_hash = hash_text;
    evaluator_id = codes "judge";
    evaluated_at = at_ms 4_000;
    score = 95;
    passed = true;
    checks =
        record {
          id = codes "a";
          label = codes "b";
          weight = 95;
          critical = true;
          passed = true;
          evidence = codes "c";
        }
        ∷ record {
          id = codes "d";
          label = codes "e";
          weight = 5;
          critical = false;
          passed = false;
          evidence = codes "f";
        }
        ∷ [];
  };
  evaluation_hash = hash_text;
}

abbrev first_id : Text
first_id = codes "job_first-key"

abbrev second_id : Text
second_id = codes "job_second-key"

-- The store after the calls, the last of them first.
abbrev after : List Call → Adapter
after [] = empty_adapter
after (c ∷ cs) = (run host c (after cs)).1

abbrev reached : (cs : List Call) → Reached host (after cs)
reached [] = at_start
reached (c ∷ cs) = by_call c (reached cs)

abbrev creations : List Call
creations =
    creating (envelope_of (codes "second-key")) ∷ creating (envelope_of (codes "first-key")) ∷ []

abbrev calls : List Call
calls =
    evaluating first_id evaluation_receipt
    ∷ submitting first_id manifest
    ∷ assigning_evaluator first_id (codes "judge")
    ∷ assigning_provider first_id (codes "provider")
    ∷ funding first_id funding_receipt
    ∷ creations

abbrev no_job : JobRecord
no_job = record {
  job_id = [];
  envelope = envelope_of [];
  envelope_hash = [];
  state = completed;
  provider_id = none;
  evaluator_id = none;
  funding = none;
  deliverable = none;
  evaluation = none;
  history = [];
}

abbrev job_in : Text → Adapter → JobRecord
job_in id s = elim (lookup id s.jobs) [ none ↦ no_job | some job ↦ job ]

completed-IsFulfilled_example : IsFulfilled (job_in first_id (after calls))
unfolding run fund assign_provider assign_evaluator submit_deliverable evaluate reconcile create_job
    on_job prior_step fund_step submit_step evaluate_step assign_provider_step assign_evaluator_step
    lookup insert is_envelope is_funding_receipt is_manifest is_evaluation_receipt
    positioncrew.Core.Fixed.match_decimal
completed-IsFulfilled_example =
    completed-IsFulfilled {host = host} first_id (reached calls) refl refl

reached-AllStored_example : AllStored (after calls)
unfolding run fund assign_provider assign_evaluator submit_deliverable evaluate reconcile create_job
    on_job prior_step fund_step submit_step evaluate_step assign_provider_step assign_evaluator_step
    lookup insert is_envelope is_funding_receipt is_manifest is_evaluation_receipt
    positioncrew.Core.Fixed.match_decimal
reached-AllStored_example = reached-AllStored (reached calls)

-- A second funding with another receipt is refused.
abbrev other_receipt : FundingReceipt
other_receipt = record funding_receipt { transaction_reference = codes "another-funding" }

failed_unchanged_example : (run host (funding first_id other_receipt) (after calls)).1 ≡ after calls
unfolding run fund assign_provider assign_evaluator submit_deliverable evaluate reconcile create_job
    on_job prior_step fund_step submit_step evaluate_step assign_provider_step assign_evaluator_step
    lookup insert is_envelope is_funding_receipt is_manifest is_evaluation_receipt
    positioncrew.Core.Fixed.match_decimal
failed_unchanged_example =
    failed_unchanged host (funding first_id other_receipt) (after calls) {e = already_funded} refl

others_unchanged_example :
    lookup second_id (run host (funding first_id funding_receipt) (after creations)).1.jobs
    ≡ lookup second_id (after creations).jobs
unfolding run fund assign_provider assign_evaluator submit_deliverable evaluate reconcile create_job
    on_job prior_step fund_step submit_step evaluate_step assign_provider_step assign_evaluator_step
    lookup insert is_envelope is_funding_receipt is_manifest is_evaluation_receipt
    positioncrew.Core.Fixed.match_decimal
others_unchanged_example =
    others_unchanged host (funding first_id funding_receipt) (after creations)
      {job = job_in first_id (run host (funding first_id funding_receipt) (after creations)).1}
      second_id (reached-AllStored (reached creations)) refl (λ h. absurd (ground (arith)))

run-again_example :
    run host (creating (envelope_of (codes "first-key"))) (after creations)
    ≡ (ok (job_in first_id (after creations)), after creations)
unfolding run fund assign_provider assign_evaluator submit_deliverable evaluate reconcile create_job
    on_job prior_step fund_step submit_step evaluate_step assign_provider_step assign_evaluator_step
    lookup insert is_envelope is_funding_receipt is_manifest is_evaluation_receipt
    positioncrew.Core.Fixed.match_decimal
run-again_example =
    run-again host (creating (envelope_of (codes "first-key"))) (after creations) refl

call-Keeps_example :
    (job : JobRecord) × (lookup first_id
        (run host (funding first_id funding_receipt) (after creations)).1.jobs
      ≡ some job)
    × Keeps (job_in first_id (after creations)) job
unfolding run fund assign_provider assign_evaluator submit_deliverable evaluate reconcile create_job
    on_job prior_step fund_step submit_step evaluate_step assign_provider_step assign_evaluator_step
    lookup insert is_envelope is_funding_receipt is_manifest is_evaluation_receipt
    positioncrew.Core.Fixed.match_decimal
call-Keeps_example =
    call-Keeps host (funding first_id funding_receipt) {s = after creations} first_id
      (reached creations) refl (λ e h. absurd (ground arith))
