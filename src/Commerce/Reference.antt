-- ===== src/Commerce/Reference.antt =====
-- What the steps of src/commerce/memory-adapter.ts come to: a job or an error, without the object that
-- they mutate. A step gives that outcome and leaves the object as the job that it gave, or after a
-- throw as it found it.
use mathlib.Core.Path.{fun_ext}
use positioncrew.Prelude.{
  ◌≡◌, refl, not, ◌||◌, none, some, ltb, if◌then◌else◌, Text, text_eq, to_lower_case, trim, length,
  ok, err, arith,
}
use positioncrew.Commerce.{
  funded, submitted, evaluated, completed, rejected, FundingReceipt, DeliverableManifest,
  EvaluationReceipt, JobRecord,
}
use positioncrew.Commerce.Adapter.{
  Host, Outcome, Step, give, already_funded, deliverable_fixed, evaluation_fixed, evaluator_fixed,
  evaluator_invalid, funding_mismatch, identity_mismatch, key_reused, late, provider_fixed,
  provider_invalid, request_mismatch, wrong_deliverable, wrong_state, truthy, is_created,
  is_assigned, is_submitted, transition, mark_assigned_when_ready, can_assign, other_deliverable,
  other_evaluator, assign_provider_step, assign_evaluator_step, fund_step, submit_step,
  evaluate_step, prior_step,
}

unfoldable pub assign_provider_to : Text → JobRecord → Outcome
unfolding mark_assigned_when_ready
assign_provider_to provider job = elim (truthy job.provider_id) [
  | some p ↦ if text_eq p provider then ok job else err provider_fixed
  | none ↦
      if not (can_assign job.state)
      then err wrong_state
      else if ltb (length (trim provider)) 3
      then err provider_invalid
      else ok (mark_assigned_when_ready (record job { provider_id = some provider }))
]

unfoldable pub assign_evaluator_to : Text → JobRecord → Outcome
unfolding mark_assigned_when_ready
assign_evaluator_to evaluator job = elim (truthy job.evaluator_id) [
  | some e ↦ if text_eq e evaluator then ok job else err evaluator_fixed
  | none ↦
      if not (can_assign job.state)
      then err wrong_state
      else if ltb (length (trim evaluator)) 3
      then err evaluator_invalid
      else ok (mark_assigned_when_ready (record job { evaluator_id = some evaluator }))
]

module _ (host : Host) where
  unfoldable pub fund_job : FundingReceipt → JobRecord → Outcome
  unfolding transition
  fund_job receipt job = elim job.funding [
    | some r ↦
        if text_eq (host.hash_funding r) (host.hash_funding receipt)
        then ok job
        else err already_funded
    | none ↦
        if not (is_created job.state)
        then err wrong_state
        else if not (
              text_eq (to_lower_case receipt.token_address)
                (to_lower_case job.envelope.budget.token.address))
            || not (text_eq receipt.amount job.envelope.budget.amount)
        then err funding_mismatch
        else ok (
            transition (record job { funding = some receipt }) funded receipt.funded_at
              receipt.transaction_reference)
  ]

  unfoldable pub submit_job : DeliverableManifest → JobRecord → Outcome
  unfolding transition
  submit_job manifest job = elim job.deliverable [
    | some m ↦
        if text_eq (host.hash_manifest m) (host.hash_manifest manifest)
        then ok job
        else err deliverable_fixed
    | none ↦
        if not (is_assigned job.state)
        then err wrong_state
        else if ltb job.envelope.deadline.ms manifest.created_at.ms
        then err late
        else if not (text_eq manifest.request_hash job.envelope.request_hash)
        then err request_mismatch
        else ok (
            transition (record job { deliverable = some manifest }) submitted manifest.created_at
              manifest.deliverable_hash)
  ]

  unfoldable pub evaluate_job : EvaluationReceipt → JobRecord → Outcome
  unfolding transition
  evaluate_job receipt job = elim job.evaluation [
    | some r ↦
        if text_eq (host.hash_receipt r) (host.hash_receipt receipt)
        then ok job
        else err evaluation_fixed
    | none ↦
        if not (is_submitted job.state)
        then err wrong_state
        else if other_deliverable host receipt job.deliverable
        then err wrong_deliverable
        else if not (text_eq receipt.request_hash job.envelope.request_hash)
            || other_evaluator host receipt job.evaluator_id
        then err identity_mismatch
        else ok (
            transition
              (transition (record job { evaluation = some receipt }) evaluated receipt.evaluated_at
                receipt.evaluation_hash)
              (if receipt.passed then completed else rejected) receipt.evaluated_at
              receipt.evaluation_hash)
  ]

  -- `envelopeHash !== prior.envelopeHash`, for a key that is known.
  unfoldable pub prior_job : Text → JobRecord → Outcome
  prior_job envelope_hash job =
      if text_eq job.envelope_hash envelope_hash then ok job else err key_reused

-- An outcome, with the object that is left: the job, or the one before.
unfoldable pub left_after : JobRecord → Outcome → Outcome × JobRecord
left_after job (ok job') = (ok job', job')
left_after job (err e) = (err e, job)

unfoldable pub in_place : (JobRecord → Outcome) → Step
in_place step job = left_after job (step job)

pub assign_provider_step-in_place :
    (name : Text) → assign_provider_step name ≡ in_place (assign_provider_to name)
unfolding assign_provider_step assign_provider_to in_place left_after
assign_provider_step-in_place name = fun_ext (λ job. ground arith)

pub assign_evaluator_step-in_place :
    (name : Text) → assign_evaluator_step name ≡ in_place (assign_evaluator_to name)
unfolding assign_evaluator_step assign_evaluator_to in_place left_after
assign_evaluator_step-in_place name = fun_ext (λ job. ground arith)

pub fund_step-in_place :
    (host : Host) (receipt : FundingReceipt)
    → fund_step host receipt ≡ in_place (fund_job host receipt)
unfolding fund_step fund_job in_place left_after
fund_step-in_place host receipt = fun_ext (λ job. ground arith)

pub submit_step-in_place :
    (host : Host) (manifest : DeliverableManifest)
    → submit_step host manifest ≡ in_place (submit_job host manifest)
unfolding submit_step submit_job in_place left_after
submit_step-in_place host manifest = fun_ext (λ job. ground arith)

pub evaluate_step-in_place :
    (host : Host) (receipt : EvaluationReceipt)
    → evaluate_step host receipt ≡ in_place (evaluate_job host receipt)
unfolding evaluate_step evaluate_job in_place left_after
evaluate_step-in_place host receipt = fun_ext (λ job. ground arith)

pub prior_step-in_place :
    (host : Host) (envelope_hash : Text)
    → prior_step host envelope_hash ≡ in_place (prior_job host envelope_hash)
unfolding prior_step prior_job in_place left_after
prior_step-in_place host envelope_hash = fun_ext (λ job. ground arith)

pub give-in_place : give ≡ in_place ok
unfolding in_place left_after
give-in_place = refl

pub prior_job-same :
    (host : Host) (envelope_hash : Text) (job : JobRecord) {job' : JobRecord}
    → prior_job host envelope_hash job ≡ ok job'
    → job' ≡ job
unfolding prior_job
prior_job-same host envelope_hash job e = ground arith
