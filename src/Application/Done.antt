-- ===== src/Application/Done.antt =====
-- What a run that returns has gone through.
use positioncrew.Prelude.{
  ℕ, ◌≡◌, refl, true, false, Bool, some, Text, Option-cases, Bool-cases, inl, inr, ok, err, not,
  ◌&&◌, text_eq, arith,
}
use positioncrew.Commerce.{EvaluationReceipt, JobRecord, is_evaluation_receipt}
use positioncrew.Commerce.Adapter.{
  Host, Adapter, Outcome, create_job, fund, assign_provider, assign_evaluator, submit_deliverable,
  evaluate,
}
use positioncrew.Application.{
  Service, Clock, RunProviderJobOptions, ProviderJobResult, Run, is_refused_expired,
  job_request_hash, job_evaluator, persists_refusal, job_envelope, job_manifest, deliverable_of,
  judge_deliverable, deliver_job, run_provider_job, then_job,
}

refused_of : (a b : Bool) → (a && not b) ≡ false → a ≡ true → b ≡ true
refused_of a b h k = ground arith

module _ {Request Deliverable : Type 0} (host : Host) (clock : Clock)
    (service : Service Request Deliverable) where
  then_job-ok :
      (outcome : Outcome × Adapter) (next : JobRecord → Adapter → Run host clock service)
      {r : ProviderJobResult Request Deliverable} {s' : Adapter}
      → then_job host clock service outcome next ≡ (ok r, s')
      → (job : JobRecord) × (s : Adapter) × (outcome ≡ (ok job, s)) × (next job s ≡ (ok r, s'))
  then_job-ok (ok job, s) next h = (job, s, refl, h)
  then_job-ok (err e, s) next h = absurd (ground arith)

  module _ (request : Request) (now : ℕ) (options : RunProviderJobOptions Request Deliverable) where
    -- The request and the deliverable pass their schemas, the deliverable is the given one or the
    -- provider's, an expired request is answered by a refusal, and the evaluation is the evaluator's
    -- and passes its schema and its commitment.
    pub record IsDone (r : ProviderJobResult Request Deliverable) : Type 0 where
      pub asked : r.request ≡ request
      pub valid : service.is_request request ≡ true
      pub delivered : deliverable_of host clock service request now options ≡ some r.deliverable
      pub deliverable_valid : service.is_deliverable r.deliverable ≡ true
      pub refusal :
          persists_refusal host clock service request now options ≡ true
          → is_refused_expired (service.status r.deliverable) ≡ true
      pub judged :
          options.evaluator request r.deliverable
            (job_evaluator host clock service request now options)
            now
            (job_request_hash host clock service request now options)
          ≡ some r.evaluation
      pub evaluation_valid : is_evaluation_receipt r.evaluation ≡ true
      pub committed : text_eq (host.hash_body r.evaluation.body) r.evaluation.evaluation_hash ≡ true

    evaluate-valid :
        (id : Text) (receipt : EvaluationReceipt) (s s' : Adapter) {job : JobRecord}
        → evaluate host id receipt s ≡ (ok job, s')
        → (is_evaluation_receipt receipt ≡ true)
          × (text_eq (host.hash_body receipt.body) receipt.evaluation_hash ≡ true)
    unfolding evaluate
    evaluate-valid id receipt s s' h = elim (Bool-cases (is_evaluation_receipt receipt)) [
      | inr bad ↦ absurd (ground arith)
      | inl valid ↦
          elim (Bool-cases (text_eq (host.hash_body receipt.body) receipt.evaluation_hash)) [
            | inr bad ↦ absurd (ground arith)
            | inl committed ↦ (valid, committed)
          ]
    ]

    judge_deliverable-done :
        (id : Text) (d : Deliverable) (s s' : Adapter) {r : ProviderJobResult Request Deliverable}
        → judge_deliverable host clock service request now options id d s ≡ (ok r, s')
        → (r.request ≡ request)
          × (r.deliverable ≡ d)
          × (options.evaluator request d
                (job_evaluator host clock service request now options)
                now
                (job_request_hash host clock service request now options)
              ≡ some r.evaluation)
          × (is_evaluation_receipt r.evaluation ≡ true)
          × (text_eq (host.hash_body r.evaluation.body) r.evaluation.evaluation_hash ≡ true)
    unfolding judge_deliverable
    judge_deliverable-done id d s s' {r} h =
        elim (Option-cases (
          options.evaluator request d (job_evaluator host clock service request now options) now
            (job_request_hash host clock service request now options))) [
              | inl missing ↦ let g = rw (judge_deliverable, missing) at h in absurd (ground arith)
              | inr (evaluation, found) ↦
                  let g = rw (judge_deliverable, found) at h in
                  let (job, s₁, judged, finished) =
                    then_job-ok (evaluate host id evaluation s) _ g in
                  let (valid, committed) = evaluate-valid id evaluation s s₁ judged in
                  let same : r.evaluation ≡ evaluation = ground arith in
                  let asked : r.request ≡ request = ground arith in
                  let given : r.deliverable ≡ d = ground arith in
                  rw same (asked, given, found, valid, committed)
            ]

    deliver_job-IsDone :
        (id : Text) (s s' : Adapter) {r : ProviderJobResult Request Deliverable}
        → service.is_request request ≡ true
        → deliver_job host clock service request now options id s ≡ (ok r, s')
        → IsDone r
    unfolding deliver_job
    deliver_job-IsDone id s s' {r} valid h =
        elim (Option-cases (deliverable_of host clock service request now options)) [
          | inl missing ↦ let g = rw (deliver_job, missing) at h in absurd (ground arith)
          | inr (d, found) ↦ elim (Bool-cases (service.is_deliverable d)) [
            | inr bad ↦ let g = rw (deliver_job, found, bad) at h in absurd (ground arith)
            | inl good ↦
                elim (Bool-cases (
                  persists_refusal host clock service request now options
                  && not (is_refused_expired (service.status d)))) [
                    | inl other ↦
                        let g = rw (deliver_job, found, good, other) at h in absurd (ground arith)
                    | inr refused ↦
                        let g = rw (deliver_job, found, good, refused) at h in
                        let (job, s₁, _, next) =
                          then_job-ok
                            (submit_deliverable host id
                              (job_manifest host clock service request now options d) s)
                            _ g in
                        let (asked, given, judged, evaluation_valid, committed) =
                          judge_deliverable-done job.job_id d s₁ s' next in
                        record {
                          asked = asked;
                          valid = valid;
                          delivered = rw given found;
                          deliverable_valid = rw given good;
                          refusal = λ e. rw given (refused_of _ _ refused e);
                          judged = rw given judged;
                          evaluation_valid = evaluation_valid;
                          committed = committed;
                        }
                  ]
          ]
        ]

    -- A run that returns had a valid request, and a valid deliverable that was given to it or that the
    -- provider made of the request; an expired request that it persisted was answered by an expired
    -- refusal; the evaluation is the evaluator's of this deliverable, passes its schema and is
    -- committed to.
    pub run_provider_job-IsDone :
        (s s' : Adapter) {r : ProviderJobResult Request Deliverable}
        → run_provider_job host clock service request now options s ≡ (ok r, s')
        → IsDone r
    unfolding run_provider_job
    run_provider_job-IsDone s s' {r} h = elim (Bool-cases (service.is_request request)) [
      | inr bad ↦ let g = rw (run_provider_job, bad) at h in absurd (ground arith)
      | inl valid ↦
          let g = rw (run_provider_job, valid) at h in
          let (created_job, s₁, _, h₁) =
            then_job-ok (create_job host (job_envelope host clock service request now options) s) _
              g in
          let (funded_job, s₂, _, h₂) = then_job-ok (fund host created_job.job_id _ s₁) _ h₁ in
          let (provided, s₃, _, h₃) =
            then_job-ok (assign_provider host funded_job.job_id _ s₂) _ h₂ in
          let (staffed, s₄, _, h₄) =
            then_job-ok (assign_evaluator host provided.job_id _ s₃) _ h₃ in
          deliver_job-IsDone staffed.job_id s₄ s' valid h₄
    ]
