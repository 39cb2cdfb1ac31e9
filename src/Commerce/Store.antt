-- ===== src/Commerce/Store.antt =====
-- The interface `CommerceAdapter` of src/commerce/types.ts as calls, and what every call keeps of the
-- stored jobs.
use positioncrew.Prelude.{
  ◌≡◌, refl, true, none, some, Text, text_eq, text_eq_sound, arith, ◌⊎◌, inl, inr, ok, err, All,
  Bool-cases, Option-cases, sym,
}
use positioncrew.Prelude.Dict.{insert-lookup, Dict, lookup, insert, All-insert, All-lookup}
use positioncrew.Commerce.{
  FundingReceipt, DeliverableManifest, EvaluationReceipt, JobEnvelope, JobRecord, is_envelope,
  is_funding_receipt, is_manifest, is_evaluation_receipt,
}
use positioncrew.Commerce.Adapter.{
  Host, Adapter, Outcome, Action, CommerceError, unknown_job, invalid_input, bad_commitment, truthy,
  mark_assigned_when_ready, on_job, new_job, create_job, fund, assign_provider, assign_evaluator,
  submit_deliverable, evaluate, reconcile,
}
use positioncrew.Commerce.Reference.{
  fund_job, submit_job, evaluate_job, assign_provider_to, assign_evaluator_to, in_place, left_after,
  prior_job, prior_job-same, prior_step-in_place, give-in_place, assign_provider_step-in_place,
  assign_evaluator_step-in_place, fund_step-in_place, submit_step-in_place, evaluate_step-in_place,
}
use positioncrew.Commerce.Stage.{Stage, at_created}
use positioncrew.Commerce.Operations.{fund_job-Stage, submit_job-Stage}
use positioncrew.Commerce.Judgement.{evaluate_job-Stage}
use positioncrew.Commerce.Assignments.{assign_provider_to-Stage, assign_evaluator_to-Stage}

pub data Call : Type 0 where
  creating : JobEnvelope → Call
  funding : Text → FundingReceipt → Call
  assigning_provider assigning_evaluator : Text → Text → Call
  submitting : Text → DeliverableManifest → Call
  evaluating : Text → EvaluationReceipt → Call
  reconciling : Text → Call

unfoldable pub run : Host → Call → Action
run host (creating envelope) = create_job host envelope
run host (funding id receipt) = fund host id receipt
run host (assigning_provider id name) = assign_provider host id name
run host (assigning_evaluator id name) = assign_evaluator host id name
run host (submitting id manifest) = submit_deliverable host id manifest
run host (evaluating id receipt) = evaluate host id receipt
run host (reconciling id) = reconcile host id

-- A stored job has the id that it is stored under, and is in a stage.
abbrev pub Stored : Text → JobRecord → Type 0
Stored id job = (job.job_id ≡ id) × Stage job

abbrev pub AllStored : Adapter → Type 0
AllStored s = All (λ (e : Text × JobRecord). Stored e.0 e.1) s.jobs

outcome-cases :
    (o : Outcome) → ((e : CommerceError) × (o ≡ err e)) ⊎ ((job : JobRecord) × (o ≡ ok job))
outcome-cases (err e) = inl (e, refl)
outcome-cases (ok job) = inr (job, refl)

-- The moves of one job.
pub data JobStep (host : Host) (job job' : JobRecord) : Type 0 where
  unchanged : job' ≡ job → JobStep host job job'
  by_funding : (r : FundingReceipt) → fund_job host r job ≡ ok job' → JobStep host job job'
  by_provider : (name : Text) → assign_provider_to name job ≡ ok job' → JobStep host job job'
  by_evaluator : (name : Text) → assign_evaluator_to name job ≡ ok job' → JobStep host job job'
  by_submission :
      (m : DeliverableManifest) → submit_job host m job ≡ ok job' → JobStep host job job'
  by_evaluation :
      (r : EvaluationReceipt)
      → is_evaluation_receipt r ≡ true
      → evaluate_job host r job ≡ ok job'
      → JobStep host job job'

pub Stored-at :
    (id : Text) {job : JobRecord} (s : Adapter)
    → AllStored s
    → lookup id s.jobs ≡ some job
    → Stored id job
Stored-at id s all found =
    All-lookup Stored id s.jobs (λ j same h. rw (text_eq_sound id j same) h) all found

pub put :
    (id : Text) (job : JobRecord) (d : Dict JobRecord)
    → Stored id job
    → All (λ (e : Text × JobRecord). Stored e.0 e.1) d
    → All (λ (e : Text × JobRecord). Stored e.0 e.1) (insert id job d)
put id job d h all =
    All-insert Stored id job d (λ j same. let e = text_eq_sound id j same in rw (sym e) h) h all

-- What `on_job` gave: an error and the store as it was, or the job that the operation made.
pub on_job-cases :
    (host : Host) (id : Text) (step : JobRecord → Outcome) (s : Adapter)
    → ((e : CommerceError) × (on_job host id (in_place step) s ≡ (err e, s)))
      ⊎ ((job : JobRecord) × (job' : JobRecord) × (lookup id s.jobs ≡ some job)
          × (step job ≡ ok job')
          × (on_job host id (in_place step) s
              ≡ (ok job', record s { jobs = insert id job' s.jobs })))
unfolding on_job in_place left_after
on_job-cases host id step s = elim (Option-cases (lookup id s.jobs)) [
  | inl missing ↦ inl (unknown_job, rw (on_job, missing))
  | inr (job, found) ↦ elim (outcome-cases (step job)) [
    | inl (e, failed) ↦
        let kept = insert-lookup id job s.jobs found in
        inl (e, rw (on_job, found, in_place, failed, kept) refl)
    | inr (job', made) ↦ inr (job, job', found, made, rw (on_job, found, in_place, made) refl)
  ]
]

module _ (host : Host) where
  fund_job-id :
      (receipt : FundingReceipt) (job job' : JobRecord)
      → fund_job host receipt job ≡ ok job'
      → job'.job_id ≡ job.job_id
  unfolding fund_job
  fund_job-id receipt job job' e = ground arith

  submit_job-id :
      (manifest : DeliverableManifest) (job job' : JobRecord)
      → submit_job host manifest job ≡ ok job'
      → job'.job_id ≡ job.job_id
  unfolding submit_job
  submit_job-id manifest job job' e = ground arith

  evaluate_job-id :
      (receipt : EvaluationReceipt) (job job' : JobRecord)
      → evaluate_job host receipt job ≡ ok job'
      → job'.job_id ≡ job.job_id
  unfolding evaluate_job
  evaluate_job-id receipt job job' e = ground arith

mark_assigned_when_ready-id : (job : JobRecord) → (mark_assigned_when_ready job).job_id ≡ job.job_id
unfolding mark_assigned_when_ready
mark_assigned_when_ready-id job = ground arith

assign_provider_to-id :
    (name : Text) (job job' : JobRecord)
    → assign_provider_to name job ≡ ok job'
    → job'.job_id ≡ job.job_id
unfolding assign_provider_to
assign_provider_to-id name job job' e =
    let id = mark_assigned_when_ready-id (record job { provider_id = some name }) in ground arith

assign_evaluator_to-id :
    (name : Text) (job job' : JobRecord)
    → assign_evaluator_to name job ≡ ok job'
    → job'.job_id ≡ job.job_id
unfolding assign_evaluator_to
assign_evaluator_to-id name job job' e =
    let id = mark_assigned_when_ready-id (record job { evaluator_id = some name }) in ground arith

-- A job as it is created.
pub new_job-Stored :
    (host : Host) (envelope : JobEnvelope)
    → Stored (new_job host envelope).job_id (new_job host envelope)
new_job-Stored host envelope = (refl, at_created refl refl refl refl refl refl refl)

pub JobStep-Stage :
    {host : Host} (job job' : JobRecord) → JobStep host job job' → Stage job → Stage job'
JobStep-Stage job job' (unchanged same) st = rw same st
JobStep-Stage {host} job job' (by_funding r e) st = fund_job-Stage host r job st e
JobStep-Stage job job' (by_provider name e) st = assign_provider_to-Stage name job st e
JobStep-Stage job job' (by_evaluator name e) st = assign_evaluator_to-Stage name job st e
JobStep-Stage {host} job job' (by_submission m e) st = submit_job-Stage host m job st e
JobStep-Stage {host} job job' (by_evaluation r valid e) st =
    evaluate_job-Stage host r job valid st e

pub JobStep-id :
    {host : Host} (job job' : JobRecord) → JobStep host job job' → job'.job_id ≡ job.job_id
JobStep-id job job' (unchanged same) = rw same refl
JobStep-id {host} job job' (by_funding r e) = fund_job-id host r job job' e
JobStep-id job job' (by_provider name e) = assign_provider_to-id name job job' e
JobStep-id job job' (by_evaluator name e) = assign_evaluator_to-id name job job' e
JobStep-id {host} job job' (by_submission m e) = submit_job-id host m job job' e
JobStep-id {host} job job' (by_evaluation r valid e) = evaluate_job-id host r job job' e

-- What an action does to the store: nothing after an error, one move of one job, or a new job.
pub data Ran (host : Host) (c : Call) (s : Adapter) (result : Outcome × Adapter) : Type 0 where
  ran_failed : (e : CommerceError) → result ≡ (err e, s) → Ran host c s result
  ran_step :
      (id : Text) (job job' : JobRecord)
      → lookup id s.jobs ≡ some job
      → JobStep host job job'
      → result ≡ (ok job', record s { jobs = insert id job' s.jobs })
      → Ran host c s result
  ran_new :
      (envelope : JobEnvelope)
      → c ≡ creating envelope
      → is_envelope envelope ≡ true
      → truthy (lookup envelope.idempotency_key s.idempotency) ≡ none
      → result ≡ (
        ok (new_job host envelope),
        record s {
          jobs = insert (new_job host envelope).job_id (new_job host envelope) s.jobs;
          idempotency =
              insert envelope.idempotency_key (new_job host envelope).job_id s.idempotency;
        },
      )
      → Ran host c s result

on_job-Ran :
    (host : Host) (c : Call) (id : Text) (step : JobRecord → Outcome) (s : Adapter)
    → ((job job' : JobRecord) → step job ≡ ok job' → JobStep host job job')
    → Ran host c s (on_job host id (in_place step) s)
on_job-Ran host c id step s f = elim (on_job-cases host id step s) [
  | inl (e, failed) ↦ ran_failed e failed
  | inr (job, job', found, made, result) ↦ ran_step id job job' found (f job job' made) result
]

create_job-Ran :
    (host : Host) (envelope : JobEnvelope) (s : Adapter)
    → Ran host (creating envelope) s (create_job host envelope s)
unfolding create_job
create_job-Ran host envelope s = elim (Bool-cases (is_envelope envelope)) [
  | inr invalid ↦ ran_failed invalid_input (rw invalid refl)
  | inl valid ↦ elim (Option-cases (truthy (lookup envelope.idempotency_key s.idempotency))) [
    | inr (prior, known) ↦
        rw (valid, known, prior_step-in_place host (host.hash_envelope envelope))
          (on_job-Ran host (creating envelope) prior (prior_job host (host.hash_envelope envelope))
            s (λ job job' e. unchanged (prior_job-same host (host.hash_envelope envelope) job e)))
    | inl new ↦ ran_new envelope refl valid new (rw (valid, new) refl)
  ]
]

pub run-Ran : (host : Host) (c : Call) (s : Adapter) → Ran host c s (run host c s)
unfolding run fund assign_provider assign_evaluator submit_deliverable evaluate reconcile
run-Ran host (creating envelope) s = create_job-Ran host envelope s
run-Ran host (funding id receipt) s = elim (Bool-cases (is_funding_receipt receipt)) [
  | inr invalid ↦ ran_failed invalid_input (rw invalid refl)
  | inl valid ↦
      rw (valid, fund_step-in_place host receipt)
        (on_job-Ran host (funding id receipt) id (fund_job host receipt) s
          (λ job job' e. by_funding receipt e))
]
run-Ran host (assigning_provider id name) s = rw (assign_provider_step-in_place name) (
    on_job-Ran host (assigning_provider id name) id (assign_provider_to name) s
      (λ job job' e. by_provider name e))
run-Ran host (assigning_evaluator id name) s = rw (assign_evaluator_step-in_place name) (
    on_job-Ran host (assigning_evaluator id name) id (assign_evaluator_to name) s
      (λ job job' e. by_evaluator name e))
run-Ran host (submitting id manifest) s = elim (Bool-cases (is_manifest host.is_url manifest)) [
  | inr invalid ↦ ran_failed invalid_input (rw invalid refl)
  | inl valid ↦
      rw (valid, submit_step-in_place host manifest)
        (on_job-Ran host (submitting id manifest) id (submit_job host manifest) s
          (λ job job' e. by_submission manifest e))
]
run-Ran host (evaluating id receipt) s = elim (Bool-cases (is_evaluation_receipt receipt)) [
  | inr invalid ↦ ran_failed invalid_input (rw invalid refl)
  | inl valid ↦ elim (Bool-cases (text_eq (host.hash_body receipt.body) receipt.evaluation_hash)) [
    | inr broken ↦ ran_failed bad_commitment (rw (valid, broken) refl)
    | inl committed ↦
        rw (valid, committed, evaluate_step-in_place host receipt)
          (on_job-Ran host (evaluating id receipt) id (evaluate_job host receipt) s
            (λ job job' e. by_evaluation receipt valid e))
  ]
]
run-Ran host (reconciling id) s =
    rw give-in_place
      (on_job-Ran host (reconciling id) id ok s (λ job job' e. unchanged (ground arith)))
