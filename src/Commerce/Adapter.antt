-- ===== src/Commerce/Adapter.antt =====
-- src/commerce/memory-adapter.ts: the store of jobs and its operations. A method returns the store
-- with its result, and after a throw as well: a step mutates the object of a job in place, so it
-- returns that object with its result and with its error. The copies that the source hands out are
-- values.
use positioncrew.Prelude.{
  Bool, true, false, not, ◌||◌, Option, none, some, [], ◌∷◌, ◌++◌, ltb, if◌then◌else◌, Text, codes,
  text_eq, to_lower_case, trim, length, take, drop, Result, ok, err,
}
use positioncrew.Prelude.Dict.{Dict, lookup, insert}
use positioncrew.Contracts.{Timestamp}
use positioncrew.Commerce.{
  JobState, created, funded, assigned, submitted, evaluated, completed, rejected, JobEnvelope,
  FundingReceipt, DeliverableManifest, EvaluationBody, EvaluationReceipt, JobRecord, is_envelope,
  is_funding_receipt, is_manifest, is_evaluation_receipt,
}

-- `canonicalHash` at the values that it is called on, and zod's test of a URL.
pub record Host : Type 0 where
  pub hash_envelope : JobEnvelope → Text
  pub hash_job : Text → Text
  pub hash_funding : FundingReceipt → Text
  pub hash_manifest : DeliverableManifest → Text
  pub hash_body : EvaluationBody → Text
  pub hash_receipt : EvaluationReceipt → Text
  pub is_url : Text → Bool

-- What a throw says.
pub data CommerceError : Type 0 where
  invalid_input key_reused unknown_job wrong_state : CommerceError
  already_funded funding_mismatch provider_fixed provider_invalid : CommerceError
  evaluator_fixed evaluator_invalid deliverable_fixed late request_mismatch : CommerceError
  bad_commitment evaluation_fixed wrong_deliverable identity_mismatch : CommerceError

pub record Adapter : Type 0 where
  pub jobs : Dict JobRecord
  pub idempotency : Dict Text

abbrev pub empty_adapter : Adapter
empty_adapter = record { jobs = []; idempotency = [] }

abbrev pub Outcome : Type 0
Outcome = Result CommerceError JobRecord

abbrev pub Action : Type 0
Action = Adapter → Outcome × Adapter

-- A string or null as a condition: null and the empty string are false.
abbrev pub truthy : Option Text → Option Text
truthy none = none
truthy (some []) = none
truthy (some (c ∷ s)) = some (c ∷ s)

abbrev pub is_created : JobState → Bool
is_created created = true
is_created _ = false

abbrev pub is_funded : JobState → Bool
is_funded funded = true
is_funded _ = false

abbrev pub is_assigned : JobState → Bool
is_assigned assigned = true
is_assigned _ = false

abbrev pub is_submitted : JobState → Bool
is_submitted submitted = true
is_submitted _ = false

unfoldable pub transition : JobRecord → JobState → Timestamp → Text → JobRecord
transition job state at reference = record job {
  state = state;
  history = job.history ++ record { state = state; at = at; reference = reference } ∷ [];
}

-- `job.funding?.fundedAt ?? job.envelope.createdAt`
abbrev pub funded_at_or_created : JobRecord → Timestamp
funded_at_or_created job = elim job.funding [
  | none ↦ job.envelope.created_at
  | some r ↦ r.funded_at
]

abbrev mark_ready : JobRecord → Option Text → Option Text → JobRecord
mark_ready job (some p) (some e) =
    if is_funded job.state
    then transition job assigned (funded_at_or_created job) (p ++ codes ":" ++ e)
    else job
mark_ready job _ _ = job

unfoldable pub mark_assigned_when_ready : JobRecord → JobRecord
unfolding transition
mark_assigned_when_ready job = mark_ready job (truthy job.provider_id) (truthy job.evaluator_id)

-- `requireState` for the two states in which a provider or an evaluator is assigned.
abbrev pub can_assign : JobState → Bool
can_assign s = is_funded s || is_assigned s

-- A step on the object of a job gives a result or an error, and the object as it is left then.
abbrev pub Step : Type 0
Step = JobRecord → Outcome × JobRecord

-- `return copy(job)`
abbrev pub give : Step
give job = (ok job, job)

-- A throw, which leaves the object with what was assigned to it before.
abbrev pub throw : CommerceError → Step
throw e job = (err e, job)

unfoldable pub assign_provider_step : Text → Step
unfolding mark_assigned_when_ready
assign_provider_step provider job = elim (truthy job.provider_id) [
  | some p ↦ if text_eq p provider then give job else throw provider_fixed job
  | none ↦
      if not (can_assign job.state)
      then throw wrong_state job
      else if ltb (length (trim provider)) 3
      then throw provider_invalid job
      else give (mark_assigned_when_ready (record job { provider_id = some provider }))
]

unfoldable pub assign_evaluator_step : Text → Step
unfolding mark_assigned_when_ready
assign_evaluator_step evaluator job = elim (truthy job.evaluator_id) [
  | some e ↦ if text_eq e evaluator then give job else throw evaluator_fixed job
  | none ↦
      if not (can_assign job.state)
      then throw wrong_state job
      else if ltb (length (trim evaluator)) 3
      then throw evaluator_invalid job
      else give (mark_assigned_when_ready (record job { evaluator_id = some evaluator }))
]

module _ (host : Host) where
  unfoldable pub fund_step : FundingReceipt → Step
  unfolding transition
  fund_step receipt job = elim job.funding [
    | some r ↦
        if text_eq (host.hash_funding r) (host.hash_funding receipt)
        then give job
        else throw already_funded job
    | none ↦
        if not (is_created job.state)
        then throw wrong_state job
        else if not (
              text_eq (to_lower_case receipt.token_address)
                (to_lower_case job.envelope.budget.token.address))
            || not (text_eq receipt.amount job.envelope.budget.amount)
        then throw funding_mismatch job
        else give (
            transition (record job { funding = some receipt }) funded receipt.funded_at
              receipt.transaction_reference)
  ]

  unfoldable pub submit_step : DeliverableManifest → Step
  unfolding transition
  submit_step manifest job = elim job.deliverable [
    | some m ↦
        if text_eq (host.hash_manifest m) (host.hash_manifest manifest)
        then give job
        else throw deliverable_fixed job
    | none ↦
        if not (is_assigned job.state)
        then throw wrong_state job
        else if ltb job.envelope.deadline.ms manifest.created_at.ms
        then throw late job
        else if not (text_eq manifest.request_hash job.envelope.request_hash)
        then throw request_mismatch job
        else give (
            transition (record job { deliverable = some manifest }) submitted manifest.created_at
              manifest.deliverable_hash)
  ]

  -- `!job.deliverable || receipt.deliverableHash !== job.deliverable.deliverableHash`
  abbrev pub other_deliverable : EvaluationReceipt → Option DeliverableManifest → Bool
  other_deliverable receipt none = true
  other_deliverable receipt (some m) = not (text_eq receipt.deliverable_hash m.deliverable_hash)

  -- `receipt.evaluatorId !== job.evaluatorId`
  abbrev pub other_evaluator : EvaluationReceipt → Option Text → Bool
  other_evaluator receipt none = true
  other_evaluator receipt (some e) = not (text_eq receipt.evaluator_id e)

  unfoldable pub evaluate_step : EvaluationReceipt → Step
  unfolding transition
  evaluate_step receipt job = elim job.evaluation [
    | some r ↦
        if text_eq (host.hash_receipt r) (host.hash_receipt receipt)
        then give job
        else throw evaluation_fixed job
    | none ↦
        if not (is_submitted job.state)
        then throw wrong_state job
        else if other_deliverable receipt job.deliverable
        then throw wrong_deliverable job
        else if not (text_eq receipt.request_hash job.envelope.request_hash)
            || other_evaluator receipt job.evaluator_id
        then throw identity_mismatch job
        else give (
            transition
              (transition (record job { evaluation = some receipt }) evaluated receipt.evaluated_at
                receipt.evaluation_hash)
              (if receipt.passed then completed else rejected) receipt.evaluated_at
              receipt.evaluation_hash)
  ]

  -- `requireJob`, and a step on the stored object, which stays as the step leaves it, after a throw too.
  unfoldable pub on_job : Text → Step → Action
  on_job job_id step s = elim (lookup job_id s.jobs) [
    | none ↦ (err unknown_job, s)
    | some job ↦ ((step job).0, record s { jobs = insert job_id (step job).1 s.jobs })
  ]

  -- The known key's job, which must be of the same envelope.
  unfoldable pub prior_step : Text → Step
  prior_step envelope_hash job =
      if text_eq job.envelope_hash envelope_hash then give job else throw key_reused job

  abbrev pub job_id_of : Text → Text
  job_id_of envelope_hash = codes "job_" ++ take 24 (drop 7 (host.hash_job envelope_hash))

  abbrev pub new_job : JobEnvelope → JobRecord
  new_job envelope = record {
    job_id = job_id_of (host.hash_envelope envelope);
    envelope = envelope;
    envelope_hash = host.hash_envelope envelope;
    state = created;
    provider_id = none;
    evaluator_id = none;
    funding = none;
    deliverable = none;
    evaluation = none;
    history =
        record {
          state = created;
          at = envelope.created_at;
          reference = host.hash_envelope envelope;
        }
        ∷ [];
  }

  unfoldable pub create_job : JobEnvelope → Action
  create_job envelope s =
      if not (is_envelope envelope)
      then (err invalid_input, s)
      else elim (truthy (lookup envelope.idempotency_key s.idempotency)) [
        | some prior ↦ on_job prior (prior_step (host.hash_envelope envelope)) s
        | none ↦
            let job = new_job envelope in
            (
              ok job,
              record s {
                jobs = insert job.job_id job s.jobs;
                idempotency = insert envelope.idempotency_key job.job_id s.idempotency;
              },
            )
      ]

  unfoldable pub fund : Text → FundingReceipt → Action
  fund job_id receipt s =
      if is_funding_receipt receipt
      then on_job job_id (fund_step receipt) s
      else (err invalid_input, s)

  unfoldable pub assign_provider : Text → Text → Action
  assign_provider job_id provider = on_job job_id (assign_provider_step provider)

  unfoldable pub assign_evaluator : Text → Text → Action
  assign_evaluator job_id evaluator = on_job job_id (assign_evaluator_step evaluator)

  unfoldable pub submit_deliverable : Text → DeliverableManifest → Action
  submit_deliverable job_id manifest s =
      if is_manifest host.is_url manifest
      then on_job job_id (submit_step manifest) s
      else (err invalid_input, s)

  unfoldable pub evaluate : Text → EvaluationReceipt → Action
  evaluate job_id receipt s =
      if not (is_evaluation_receipt receipt)
      then (err invalid_input, s)
      else if text_eq (host.hash_body receipt.body) receipt.evaluation_hash
      then on_job job_id (evaluate_step receipt) s
      else (err bad_commitment, s)

  unfoldable pub reconcile : Text → Action
  reconcile job_id = on_job job_id give
