-- ===== src/Application/Accepts.antt =====
-- The calls of the adapter on a job that is in the state for them.
use positioncrew.Prelude.{
  ◌≤◌, ◌≡◌, refl, true, false, none, some, Text, text_eq_refl, to_lower_case, trim, length, arith,
  ok, codes, ◌++◌, ltb, if◌then◌else◌,
}
use positioncrew.Prelude.Dict.{lookup, insert, lookup-insert_self}
use positioncrew.Commerce.{
  created, funded, assigned, submitted, evaluated, completed, rejected, JobEnvelope, FundingReceipt,
  DeliverableManifest, EvaluationReceipt, JobRecord, is_envelope,
}
use positioncrew.Commerce.Adapter.{
  Host, Adapter, Outcome, truthy, transition, mark_assigned_when_ready, funded_at_or_created,
  on_job, new_job, create_job,
}
use positioncrew.Commerce.Reference.{
  assign_provider_to, assign_evaluator_to, fund_job, submit_job, evaluate_job, in_place, left_after,
}
use positioncrew.Commerce.Stage.{truthy_of_IsNamed}

abbrev pub Holds : Text → JobRecord → Adapter → Type 0
Holds id job s = lookup id s.jobs ≡ some job

module _ (host : Host) where
  pub create_job-accepts :
      (envelope : JobEnvelope) (s : Adapter)
      → is_envelope envelope ≡ true
      → lookup envelope.idempotency_key s.idempotency ≡ none
      → (s' : Adapter) × (create_job host envelope s ≡ (ok (new_job host envelope), s'))
        × Holds (new_job host envelope).job_id (new_job host envelope) s'
  unfolding create_job
  create_job-accepts envelope s valid new =
      let job = new_job host envelope in
      (
        record s {
          jobs = insert job.job_id job s.jobs;
          idempotency = insert envelope.idempotency_key job.job_id s.idempotency;
        },
        rw (valid, new) refl,
        lookup-insert_self job.job_id job s.jobs,
      )

  pub on_job-accepts :
      (id : Text) (step : JobRecord → Outcome) (s : Adapter) (job job' : JobRecord)
      → Holds id job s
      → step job ≡ ok job'
      → (s' : Adapter) × (on_job host id (in_place step) s ≡ (ok job', s')) × Holds id job' s'
  unfolding on_job in_place left_after
  on_job-accepts id step s job job' held made = (
    record s { jobs = insert id job' s.jobs },
    rw (on_job, held, in_place, made) refl,
    lookup-insert_self id job' s.jobs,
  )

  pub fund_job-accepts :
      (r : FundingReceipt) (job : JobRecord)
      → job.funding ≡ none
      → job.state ≡ created
      → r.token_address ≡ job.envelope.budget.token.address
      → r.amount ≡ job.envelope.budget.amount
      → fund_job host r job
        ≡ ok (
            transition (record job { funding = some r }) funded r.funded_at r.transaction_reference)
  unfolding fund_job
  fund_job-accepts r job none_yet at token amount =
      let t = text_eq_refl (to_lower_case job.envelope.budget.token.address) in
      let a = text_eq_refl job.envelope.budget.amount in rw (none_yet, at, token, amount, t, a) refl

  pub submit_job-accepts :
      (m : DeliverableManifest) (job : JobRecord)
      → job.deliverable ≡ none
      → job.state ≡ assigned
      → m.created_at.ms ≤ job.envelope.deadline.ms
      → m.request_hash ≡ job.envelope.request_hash
      → submit_job host m job
        ≡ ok (
            transition
              (record job { deliverable = some m })
              submitted
              m.created_at
              m.deliverable_hash)
  unfolding submit_job
  submit_job-accepts m job none_yet at in_time request =
      let same = text_eq_refl job.envelope.request_hash in
      let early : ltb job.envelope.deadline.ms m.created_at.ms ≡ false = ground arith in
      rw (none_yet, at, early, request, same) refl

  pub evaluate_job-accepts :
      (r : EvaluationReceipt) (m : DeliverableManifest) (evaluator : Text) (job : JobRecord)
      → job.evaluation ≡ none
      → job.state ≡ submitted
      → job.deliverable ≡ some m
      → job.evaluator_id ≡ some evaluator
      → r.deliverable_hash ≡ m.deliverable_hash
      → r.request_hash ≡ job.envelope.request_hash
      → r.evaluator_id ≡ evaluator
      → evaluate_job host r job
        ≡ ok (
            transition
              (transition
                (record job { evaluation = some r })
                evaluated
                r.evaluated_at
                r.evaluation_hash)
              (if r.passed then completed else rejected)
              r.evaluated_at
              r.evaluation_hash)
  unfolding evaluate_job
  evaluate_job-accepts r m evaluator job none_yet at delivered named same_d same_r same_e =
      let d = text_eq_refl m.deliverable_hash in
      let q = text_eq_refl job.envelope.request_hash in
      let e = text_eq_refl evaluator in
      rw (none_yet, at, delivered, named, same_d, d, same_r, q, same_e, e) refl

truthy_long : (name : Text) → 3 ≤ length (trim name) → truthy (some name) ≡ some name
truthy_long name long = truthy_of_IsNamed (record { set = refl; long = long })

pub assign_provider_to-accepts :
    (provider : Text) (job : JobRecord)
    → job.provider_id ≡ none
    → job.evaluator_id ≡ none
    → job.state ≡ funded
    → 3 ≤ length (trim provider)
    → assign_provider_to provider job ≡ ok (record job { provider_id = some provider })
unfolding assign_provider_to mark_assigned_when_ready
assign_provider_to-accepts provider job none_yet alone at long =
    let enough : ltb (length (trim provider)) 3 ≡ false = ground arith in
    let known = truthy_long provider long in rw (none_yet, at, enough, alone, known) refl

pub assign_evaluator_to-accepts :
    (evaluator provider : Text) (job : JobRecord)
    → job.evaluator_id ≡ none
    → job.provider_id ≡ some provider
    → job.state ≡ funded
    → 3 ≤ length (trim provider)
    → 3 ≤ length (trim evaluator)
    → assign_evaluator_to evaluator job
      ≡ ok (
          transition
            (record job { evaluator_id = some evaluator })
            assigned
            (funded_at_or_created job)
            (provider ++ codes ":" ++ evaluator))
unfolding assign_evaluator_to mark_assigned_when_ready
assign_evaluator_to-accepts evaluator provider job none_yet named at long long' =
    let enough : ltb (length (trim evaluator)) 3 ≡ false = ground arith in
    let known = truthy_long evaluator long' in
    let known' = truthy_long provider long in rw (none_yet, at, enough, named, known, known') refl
