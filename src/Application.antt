-- ===== src/Application.antt =====
-- src/application/run-provider-job.ts: a job from its request to its judgement, over the store of
-- jobs. The four services stand behind one interface; an evaluator is an argument, as the option
-- `evaluate` of the source is.
mod Accepts
mod Completes
mod Done
mod Services
mod Tests
use positioncrew.Prelude.{
  ℕ, ◌+◌, Bool, true, false, not, ◌&&◌, ◌||◌, Option, none, some, leb, if◌then◌else◌, Text, codes,
  ◌++◌, value_or, Result, ok, err,
}
use positioncrew.Contracts.{
  Timestamp, AssetIdentity, ServiceType, lending_rescue, lp_rebalance, yield_optimization,
  bounded_grid, BaseRequest, ProviderStatus,
}
use positioncrew.Commerce.{
  JobEnvelope, FundingReceipt, DeliverableManifest, EvaluationReceipt, JobRecord,
}
use positioncrew.Commerce.Adapter.{
  Host, CommerceError, Adapter, Outcome, create_job, fund, assign_provider, assign_evaluator,
  submit_deliverable, evaluate,
}

-- What a service of the crew is to the run of its jobs.
pub record Service (Request Deliverable : Type 0) : Type 0 where
  pub service : ServiceType
  pub base : Request → BaseRequest
  pub is_request : Request → Bool
  pub is_deliverable : Deliverable → Bool
  pub execute : Request → ℕ → Option Deliverable
  pub status : Deliverable → ProviderStatus
  pub hash_request : Request → Text
  pub hash_deliverable : Deliverable → Text
  pub data_uri : Deliverable → Text

-- `toISOString`
abbrev pub Clock : Type 0
Clock = ℕ → Timestamp

pub record RunProviderJobOptions (Request Deliverable : Type 0) : Type 0 where
  pub persist_expired_refusal : Bool
  pub request_hash : Option Text
  pub provider_id : Option Text
  pub evaluator_id : Option Text
  pub deliverable : Option Deliverable
  pub evaluator : Request → Deliverable → Text → ℕ → Text → Option EvaluationReceipt

pub record ProviderJobResult (Request Deliverable : Type 0) : Type 0 where
  pub job : JobRecord
  pub request : Request
  pub deliverable : Deliverable
  pub evaluation : EvaluationReceipt

-- What a throw says.
pub data JobError : Type 0 where
  refused_by : CommerceError → JobError
  invalid_request invalid_deliverable not_a_refusal not_evaluated : JobError

-- `service.toLowerCase()`
abbrev pub service_name : ServiceType → Text
service_name lending_rescue = codes "lending_rescue"
service_name lp_rebalance = codes "lp_rebalance"
service_name yield_optimization = codes "yield_optimization"
service_name bounded_grid = codes "bounded_grid"

abbrev pub provider_ids : ServiceType → Text
provider_ids lending_rescue = codes "positioncrew:provider:lending-rescue:v1"
provider_ids lp_rebalance = codes "positioncrew:provider:lp-rebalance:v1"
provider_ids yield_optimization = codes "positioncrew:provider:yield-optimization:v1"
provider_ids bounded_grid = codes "positioncrew:provider:bounded-grid:v1"

abbrev pub test_settlement_token : AssetIdentity
test_settlement_token = record {
  symbol = codes "TEST_USDC";
  address = codes "0x0000000000000000000000000000000000001001";
  decimals = 6;
}

abbrev pub is_refused_expired : ProviderStatus → Bool
is_refused_expired ProviderStatus.refused_expired = true
is_refused_expired _ = false

module _ {Request Deliverable : Type 0} (host : Host) (clock : Clock)
    (service : Service Request Deliverable) where
  abbrev pub Run : Type 0
  Run = Result JobError (ProviderJobResult Request Deliverable) × Adapter

  -- `await` of a call of the adapter, and what follows it.
  abbrev pub then_job : Outcome × Adapter → (JobRecord → Adapter → Run) → Run
  then_job (ok job, s) next = next job s
  then_job (err e, s) next = (err (refused_by e), s)

  module _ (request : Request) (now : ℕ) (options : RunProviderJobOptions Request Deliverable) where
    abbrev pub job_request_hash : Text
    job_request_hash = value_or (service.hash_request request) options.request_hash

    abbrev pub job_provider : Text
    job_provider = value_or (provider_ids service.service) options.provider_id

    abbrev pub job_evaluator : Text
    job_evaluator =
        value_or (codes "positioncrew:evaluator:" ++ service_name service.service ++ codes ":v1")
          options.evaluator_id

    abbrev pub persists_refusal : Bool
    persists_refusal = options.persist_expired_refusal && leb (service.base request).deadline.ms now

    abbrev pub job_envelope : JobEnvelope
    job_envelope = record {
      idempotency_key =
          service_name service.service ++ codes ":" ++ (service.base request).request_id;
      service = service.service;
      request_id = (service.base request).request_id;
      request_hash = job_request_hash;
      budget = record {
        chain_id = (service.base request).chain_id;
        token = test_settlement_token;
        amount = codes "5";
      };
      created_at = clock now;
      deadline = if persists_refusal then clock (now + 1) else (service.base request).deadline;
    }

    abbrev pub job_funding : Text → FundingReceipt
    job_funding job_id = record {
      token_address = test_settlement_token.address;
      amount = codes "5";
      transaction_reference = codes "memory-funding:" ++ job_id;
      funded_at = clock now;
    }

    abbrev pub job_manifest : Deliverable → DeliverableManifest
    job_manifest deliverable = record {
      request_hash = job_request_hash;
      deliverable_hash = service.hash_deliverable deliverable;
      uri = service.data_uri deliverable;
      created_at = clock now;
    }

    -- `options.deliverable ?? executeProvider(request, now)`
    abbrev pub deliverable_of : Option Deliverable
    deliverable_of = elim options.deliverable [
      | some d ↦ some d
      | none ↦ service.execute request now
    ]

    unfoldable pub judge_deliverable : Text → Deliverable → Adapter → Run
    judge_deliverable job_id deliverable s =
        elim (options.evaluator request deliverable job_evaluator now job_request_hash) [
          | none ↦ (err not_evaluated, s)
          | some evaluation ↦ then_job (evaluate host job_id evaluation s) (λ job s'. (
            ok (record {
              job = job;
              request = request;
              deliverable = deliverable;
              evaluation = evaluation;
            }),
            s',
          ))
        ]

    unfoldable pub deliver_job : Text → Adapter → Run
    deliver_job job_id s = elim deliverable_of [
      | none ↦ (err invalid_deliverable, s)
      | some deliverable ↦
          if not (service.is_deliverable deliverable)
          then (err invalid_deliverable, s)
          else if persists_refusal && not (is_refused_expired (service.status deliverable))
          then (err not_a_refusal, s)
          else then_job (submit_deliverable host job_id (job_manifest deliverable) s)
              (λ job s'. judge_deliverable job.job_id deliverable s')
    ]

    unfoldable pub run_provider_job : Adapter → Run
    run_provider_job s =
        if not (service.is_request request)
        then (err invalid_request, s)
        else then_job (create_job host job_envelope s) (λ job s₁.
          then_job (fund host job.job_id (job_funding job.job_id) s₁) (λ job s₂.
            then_job (assign_provider host job.job_id job_provider s₂) (λ job s₃.
              then_job (assign_evaluator host job.job_id job_evaluator s₃)
                (λ job s₄. deliver_job job.job_id s₄))))
