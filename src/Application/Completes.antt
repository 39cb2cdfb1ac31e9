-- ===== src/Application/Completes.antt =====
-- A job that nothing stands against runs to its judgement.
use positioncrew.Prelude.{
  ℕ, ◌≤◌, ◌≡◌, refl, ◌∙◌, true, false, none, some, text_eq_refl, trim, length, arith, ok, codes,
  ◌++◌, if◌then◌else◌, not, ◌&&◌,
}
use positioncrew.Prelude.Dict.{lookup}
use positioncrew.Commerce.{
  JobEnvelope, funded, assigned, submitted, completed, rejected, EvaluationReceipt, JobRecord,
  is_envelope, is_funding_receipt, is_manifest, is_evaluation_receipt,
}
use positioncrew.Commerce.Adapter.{
  Host, Adapter, transition, funded_at_or_created, new_job, fund, assign_provider, assign_evaluator,
  submit_deliverable, evaluate,
}
use positioncrew.Commerce.Reference.{
  fund_job, submit_job, evaluate_job, assign_provider_to, assign_evaluator_to,
  assign_provider_step-in_place, assign_evaluator_step-in_place, fund_step-in_place,
  submit_step-in_place, evaluate_step-in_place,
}
use positioncrew.Application.{
  Service, Clock, RunProviderJobOptions, is_refused_expired, job_request_hash, job_provider,
  job_evaluator, persists_refusal, job_envelope, job_funding, job_manifest, deliverable_of,
  judge_deliverable, deliver_job, run_provider_job,
}
use positioncrew.Application.Accepts.{
  Holds, create_job-accepts, on_job-accepts, fund_job-accepts, submit_job-accepts,
  evaluate_job-accepts, assign_provider_to-accepts, assign_evaluator_to-accepts,
}

envelope-in_time : (e : JobEnvelope) → is_envelope e ≡ true → e.created_at.ms ≤ e.deadline.ms
unfolding is_envelope
envelope-in_time e h = ground arith

module _ {Request Deliverable : Type 0} (host : Host) (clock : Clock)
    (service : Service Request Deliverable) (request : Request) (now : ℕ)
    (options : RunProviderJobOptions Request Deliverable) where
  -- The request is valid and its key new, the provider has a deliverable, what is handed to the
  -- adapter passes its schemas, and the evaluator judges this deliverable in its own name.
  pub record IsRunnable (s : Adapter) : Type 0 where
    pub valid : service.is_request request ≡ true
    pub envelope : is_envelope (job_envelope host clock service request now options) ≡ true
    pub fresh :
        lookup (job_envelope host clock service request now options).idempotency_key s.idempotency
        ≡ none
    pub receipt :
        is_funding_receipt (
          job_funding host clock service request now options
            (new_job host (job_envelope host clock service request now options)).job_id)
        ≡ true
    pub provider : 3 ≤ length (trim (job_provider host clock service request now options))
    pub evaluator : 3 ≤ length (trim (job_evaluator host clock service request now options))
    pub deliverable : Deliverable
    pub delivered : deliverable_of host clock service request now options ≡ some deliverable
    pub deliverable_valid : service.is_deliverable deliverable ≡ true
    pub refusal :
        (persists_refusal host clock service request now options
          && not (is_refused_expired (service.status deliverable)))
        ≡ false
    pub manifest :
        is_manifest host.is_url (job_manifest host clock service request now options deliverable)
        ≡ true
    pub evaluation : EvaluationReceipt
    pub judged :
        options.evaluator request deliverable
          (job_evaluator host clock service request now options)
          now
          (job_request_hash host clock service request now options)
        ≡ some evaluation
    pub evaluation_valid : is_evaluation_receipt evaluation ≡ true
    pub committed : host.hash_body evaluation.body ≡ evaluation.evaluation_hash
    pub of_deliverable : evaluation.deliverable_hash ≡ service.hash_deliverable deliverable
    pub of_request :
        evaluation.request_hash ≡ job_request_hash host clock service request now options
    pub by_evaluator :
        evaluation.evaluator_id ≡ job_evaluator host clock service request now options

  -- A job that waits for its deliverable.
  record IsWaiting (job : JobRecord) (s : Adapter) : Type 0 where
    pub held : Holds job.job_id job s
    pub state : job.state ≡ assigned
    pub undelivered : job.deliverable ≡ none
    pub unjudged : job.evaluation ≡ none
    pub evaluator : job.evaluator_id ≡ some (job_evaluator host clock service request now options)
    pub envelope : job.envelope ≡ job_envelope host clock service request now options

  judge_deliverable-runs :
      (job : JobRecord) (s before : Adapter) (r : IsRunnable before)
      → Holds job.job_id job s
      → job.state ≡ submitted
      → job.evaluation ≡ none
      → job.deliverable ≡ some (job_manifest host clock service request now options r.deliverable)
      → job.evaluator_id ≡ some (job_evaluator host clock service request now options)
      → job.envelope ≡ job_envelope host clock service request now options
      → (job' : JobRecord) × (s' : Adapter) × (judge_deliverable host clock service request now
            options job.job_id r.deliverable s
          ≡ (
            ok (record {
              job = job';
              request = request;
              deliverable = r.deliverable;
              evaluation = r.evaluation;
            }),
            s',
          ))
        × (job'.state ≡ (if r.evaluation.passed then completed else rejected))
        × Holds job'.job_id job' s'
  unfolding judge_deliverable evaluate transition
  judge_deliverable-runs job s before r held at unjudged delivered named same =
      let same_request : r.evaluation.request_hash ≡ job.envelope.request_hash =
        rw same r.of_request in
      let step =
        evaluate_job-accepts host r.evaluation
          (job_manifest host clock service request now options r.deliverable)
          (job_evaluator host clock service request now options) job unjudged at delivered named
          r.of_deliverable same_request r.by_evaluator in
      let (s', made, held') =
        on_job-accepts host job.job_id (evaluate_job host r.evaluation) s job _ held step in
      let commitment = text_eq_refl r.evaluation.evaluation_hash in
      (
        _,
        s',
        rw
            (
              judge_deliverable,
              r.judged,
              evaluate,
              r.evaluation_valid,
              r.committed,
              commitment,
              evaluate_step-in_place host r.evaluation,
              made,
            )
            refl,
        refl,
        held',
      )

  deliver_job-runs :
      (job : JobRecord) (s before : Adapter) (r : IsRunnable before)
      → IsWaiting job s
      → (job' : JobRecord) × (s' : Adapter) × (deliver_job host clock service request now options
            job.job_id s
          ≡ (
            ok (record {
              job = job';
              request = request;
              deliverable = r.deliverable;
              evaluation = r.evaluation;
            }),
            s',
          ))
        × (job'.state ≡ (if r.evaluation.passed then completed else rejected))
        × Holds job'.job_id job' s'
  unfolding deliver_job submit_deliverable transition
  deliver_job-runs job s before r w =
      let manifest = job_manifest host clock service request now options r.deliverable in
      let in_time : manifest.created_at.ms ≤ job.envelope.deadline.ms =
        rw w.envelope
          (envelope-in_time (job_envelope host clock service request now options) r.envelope) in
      let same_request : manifest.request_hash ≡ job.envelope.request_hash = rw w.envelope refl in
      let step = submit_job-accepts host manifest job w.undelivered w.state in_time same_request in
      let (s', made, held) =
        on_job-accepts host job.job_id (submit_job host manifest) s job _ w.held step in
      let (job', s'', judged, state, held') =
        judge_deliverable-runs _ s' before r held refl w.unjudged refl w.evaluator w.envelope in
      (
        job',
        s'',
        rw
            (
              deliver_job,
              r.delivered,
              r.deliverable_valid,
              r.refusal,
              r.manifest,
              submit_step-in_place host manifest,
              made,
            )
            judged,
        state,
        held',
      )

  -- The job is created, funded and staffed.
  staffed-IsWaiting :
      (before : Adapter) (r : IsRunnable before)
      → (job : JobRecord) × (s : Adapter) × (run_provider_job host clock service request now options
            before
          ≡ deliver_job host clock service request now options job.job_id s)
        × IsWaiting job s
  unfolding run_provider_job fund assign_provider assign_evaluator transition
  staffed-IsWaiting before r =
      let envelope = job_envelope host clock service request now options in
      let job = new_job host envelope in
      let id = job.job_id in
      let receipt = job_funding host clock service request now options id in
      let provider = job_provider host clock service request now options in
      let evaluator = job_evaluator host clock service request now options in
      let (s₁, created_one, held₁) = create_job-accepts host envelope before r.envelope r.fresh in
      let (s₂, funded_one, held₂) =
        on_job-accepts host id (fund_job host receipt) s₁ job _ held₁
          (fund_job-accepts host receipt job refl refl refl refl) in
      let paid =
        transition (record job { funding = some receipt }) funded receipt.funded_at
          receipt.transaction_reference in
      let (s₃, provided, held₃) =
        on_job-accepts host id (assign_provider_to provider) s₂ paid _ held₂
          (assign_provider_to-accepts provider paid refl refl refl r.provider) in
      let offered = record paid { provider_id = some provider } in
      let (s₄, staffed, held₄) =
        on_job-accepts host id (assign_evaluator_to evaluator) s₃ offered _ held₃ (
          assign_evaluator_to-accepts evaluator provider offered refl refl refl r.provider
            r.evaluator) in
      (
        transition (record offered { evaluator_id = some evaluator }) assigned
            (funded_at_or_created offered) (provider ++ codes ":" ++ evaluator),
        s₄,
        rw
            (
              run_provider_job,
              r.valid,
              created_one,
              r.receipt,
              fund_step-in_place host receipt,
              funded_one,
              assign_provider_step-in_place provider,
              provided,
              assign_evaluator_step-in_place evaluator,
              staffed,
            )
            refl,
        record {
          held = held₄;
          state = refl;
          undelivered = refl;
          unjudged = refl;
          evaluator = refl;
          envelope = refl;
        },
      )

  -- A run that nothing stands against ends with the job in the store, completed if its evaluation
  -- passed and rejected otherwise.
  pub run_provider_job-completes :
      (s : Adapter) (r : IsRunnable s)
      → (job : JobRecord) × (s' : Adapter) × (run_provider_job host clock service request now
            options s
          ≡ (
            ok (record {
              job = job;
              request = request;
              deliverable = r.deliverable;
              evaluation = r.evaluation;
            }),
            s',
          ))
        × (job.state ≡ (if r.evaluation.passed then completed else rejected))
        × Holds job.job_id job s'
  run_provider_job-completes s r =
      let (job, s₁, staffed, waiting) = staffed-IsWaiting s r in
      let (job', s', delivered, state, held) = deliver_job-runs job s₁ s r waiting in
      (job', s', staffed ∙ delivered, state, held)
