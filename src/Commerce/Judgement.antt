-- ===== src/Commerce/Judgement.antt =====
-- The evaluation of a job moves it from its submission to its end.
use positioncrew.Prelude.{
  true, ◌≡◌, refl, none, some, [], ◌∷◌, ◌++◌, map, Text, text_eq_iff, arith, inl, inr, ok,
  if◌then◌else◌, Bool-cases,
}
use positioncrew.Commerce.{
  JobState, created, funded, assigned, submitted, evaluated, completed, rejected,
  DeliverableManifest, EvaluationReceipt, JobHistoryEntry, JobRecord, is_evaluation_receipt,
}
use positioncrew.Commerce.Adapter.{Host, transition}
use positioncrew.Commerce.Reference.{evaluate_job}
use positioncrew.Commerce.Stage.{
  visited, visited-append, IsDelivered, IsStaffed, Stage, at_created, at_funded, at_assigned,
  at_submitted, at_completed, at_rejected,
}

module _ (host : Host) where
  evaluate_job-fresh :
      (receipt : EvaluationReceipt) (m : DeliverableManifest) (evaluator : Text) (job : JobRecord)
      {job' : JobRecord}
      → job.evaluation ≡ none
      → job.deliverable ≡ some m
      → job.evaluator_id ≡ some evaluator
      → evaluate_job host receipt job ≡ ok job'
      → (job.state ≡ submitted)
        × (receipt.deliverable_hash ≡ m.deliverable_hash)
        × (receipt.request_hash ≡ job.envelope.request_hash)
        × (receipt.evaluator_id ≡ evaluator)
        × (job'
            ≡ transition
                (transition
                  (record job { evaluation = some receipt })
                  evaluated
                  receipt.evaluated_at
                  receipt.evaluation_hash)
                (if receipt.passed then completed else rejected)
                receipt.evaluated_at
                receipt.evaluation_hash)
  unfolding evaluate_job
  evaluate_job-fresh receipt m evaluator job none_yet made named e = ground (
    arith,
    text_eq_iff receipt.deliverable_hash m.deliverable_hash,
    text_eq_iff receipt.request_hash job.envelope.request_hash,
    text_eq_iff receipt.evaluator_id evaluator,
  )

  evaluate_job-state :
      (receipt : EvaluationReceipt) (job : JobRecord) {job' : JobRecord}
      → job.evaluation ≡ none
      → evaluate_job host receipt job ≡ ok job'
      → job.state ≡ submitted
  unfolding evaluate_job
  evaluate_job-state receipt job none_yet e = ground arith

  evaluate_job-kept :
      (receipt r : EvaluationReceipt) (job : JobRecord) {job' : JobRecord}
      → job.evaluation ≡ some r
      → Stage job
      → evaluate_job host receipt job ≡ ok job'
      → Stage job'
  unfolding evaluate_job
  evaluate_job-kept receipt r job {job'} done st e =
      let same : job' ≡ job = ground arith in rw same st

  judged-Stage :
      (receipt : EvaluationReceipt) (m : DeliverableManifest) (job : JobRecord) (t : IsStaffed job)
      → IsDelivered job m
      → visited job ≡ created ∷ funded ∷ assigned ∷ submitted ∷ []
      → receipt.deliverable_hash ≡ m.deliverable_hash
      → receipt.request_hash ≡ job.envelope.request_hash
      → receipt.evaluator_id ≡ t.evaluator
      → is_evaluation_receipt receipt ≡ true
      → Stage (
          transition
            (transition
              (record job { evaluation = some receipt })
              evaluated
              receipt.evaluated_at
              receipt.evaluation_hash)
            (if receipt.passed then completed else rejected)
            receipt.evaluated_at
            receipt.evaluation_hash)
  unfolding transition
  judged-Stage receipt m job t d h same_deliverable same_request judge valid =
      let end : JobState = if receipt.passed then completed else rejected in
      let history : map (λ (x : JobHistoryEntry). x.state)
            ((job.history
                ++ record {
                  state = evaluated;
                  at = receipt.evaluated_at;
                  reference = receipt.evaluation_hash;
                }
                  ∷ [])
              ++ record {
                state = end;
                at = receipt.evaluated_at;
                reference = receipt.evaluation_hash;
              }
                ∷ [])
          ≡ created ∷ funded ∷ assigned ∷ submitted ∷ evaluated ∷ end ∷ [] =
        rw (visited-append (job.history ++ _ ∷ []) _, visited-append job.history _, h) in
      let staffed : IsStaffed (
          transition
            (transition (record job { evaluation = some receipt }) evaluated receipt.evaluated_at
              receipt.evaluation_hash)
            end receipt.evaluated_at receipt.evaluation_hash) =
        record {
          receipt = t.receipt;
          provider = t.provider;
          evaluator = t.evaluator;
          is_funded = record {
            receipt = t.is_funded.receipt;
            token = t.is_funded.token;
            amount = t.is_funded.amount;
          };
          has_provider = t.has_provider;
          has_evaluator = t.has_evaluator;
        } in
      elim (Bool-cases receipt.passed) [
        | inl pass ↦
            let over : end ≡ completed = rw pass in
            at_completed m receipt staffed over
              (record { manifest = d.manifest; in_time = d.in_time; request = d.request })
              (record {
                receipt = refl;
                deliverable = same_deliverable;
                request = same_request;
                judge = judge;
                valid = valid;
              })
              pass (rw (history, over))
        | inr fail ↦
            let over : end ≡ rejected = rw fail in
            at_rejected m receipt staffed over
              (record { manifest = d.manifest; in_time = d.in_time; request = d.request })
              (record {
                receipt = refl;
                deliverable = same_deliverable;
                request = same_request;
                judge = judge;
                valid = valid;
              })
              fail (rw (history, over))
      ]

  pub evaluate_job-Stage :
      (receipt : EvaluationReceipt) (job : JobRecord) {job' : JobRecord}
      → is_evaluation_receipt receipt ≡ true
      → Stage job
      → evaluate_job host receipt job ≡ ok job'
      → Stage job'
  unfolding transition
  evaluate_job-Stage receipt job valid (at_submitted m t s d j h) e =
      let (_, same_deliverable, same_request, judge, made) =
        evaluate_job-fresh receipt m t.evaluator job j d.manifest t.has_evaluator.set e in
      rw made (judged-Stage receipt m job t d h same_deliverable same_request judge valid)
  evaluate_job-Stage receipt job valid (at_created s f p v d j h) e =
      let asked = evaluate_job-state receipt job j e in absurd (ground arith)
  evaluate_job-Stage receipt job valid (at_funded r s f p v n d j h) e =
      let asked = evaluate_job-state receipt job j e in absurd (ground arith)
  evaluate_job-Stage receipt job valid (at_assigned t s d j h) e =
      let asked = evaluate_job-state receipt job j e in absurd (ground arith)
  evaluate_job-Stage receipt job valid (at_completed m r t s d j k h) e =
      evaluate_job-kept receipt r job j.receipt (at_completed m r t s d j k h) e
  evaluate_job-Stage receipt job valid (at_rejected m r t s d j k h) e =
      evaluate_job-kept receipt r job j.receipt (at_rejected m r t s d j k h) e
