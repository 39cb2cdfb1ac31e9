-- ===== src/Commerce/Operations.antt =====
-- Funding a job and submitting its deliverable move it from stage to stage.
use positioncrew.Prelude.{◌≤◌, ◌≡◌, refl, none, some, text_eq_iff, to_lower_case, arith, inl, ok}
use positioncrew.Commerce.{
  created, funded, assigned, submitted, FundingReceipt, DeliverableManifest, JobRecord,
}
use positioncrew.Commerce.Adapter.{Host, transition}
use positioncrew.Commerce.Reference.{fund_job, submit_job}
use positioncrew.Commerce.Stage.{
  visited-append, Stage, at_created, at_funded, at_assigned, at_submitted, at_completed,
  at_rejected,
}

module _ (host : Host) where
  fund_job-fresh :
      (receipt : FundingReceipt) (job : JobRecord) {job' : JobRecord}
      → job.funding ≡ none
      → fund_job host receipt job ≡ ok job'
      → (job.state ≡ created)
        × (to_lower_case receipt.token_address ≡ to_lower_case job.envelope.budget.token.address)
        × (receipt.amount ≡ job.envelope.budget.amount)
        × (job'
            ≡ transition
                (record job { funding = some receipt })
                funded
                receipt.funded_at
                receipt.transaction_reference)
  unfolding fund_job
  fund_job-fresh receipt job none_yet e = ground (
    arith,
    text_eq_iff (to_lower_case receipt.token_address)
        (to_lower_case job.envelope.budget.token.address),
    text_eq_iff receipt.amount job.envelope.budget.amount,
  )

  fund_job-again :
      (receipt r : FundingReceipt) (job : JobRecord) {job' : JobRecord}
      → job.funding ≡ some r
      → fund_job host receipt job ≡ ok job'
      → job' ≡ job
  unfolding fund_job
  fund_job-again receipt r job done e = ground arith

  -- Only a job that waits for funding is changed by it.
  fund_job-kept :
      (receipt r : FundingReceipt) {job job' : JobRecord}
      → job.funding ≡ some r
      → Stage job
      → fund_job host receipt job ≡ ok job'
      → Stage job'
  fund_job-kept receipt r {job} done st e = rw (fund_job-again receipt r job done e) st

  pub fund_job-Stage :
      (receipt : FundingReceipt) (job : JobRecord) {job' : JobRecord}
      → Stage job
      → fund_job host receipt job ≡ ok job'
      → Stage job'
  unfolding transition
  fund_job-Stage receipt job (at_created s f p v d j h) e =
      let (_, token, amount, made) = fund_job-fresh receipt job f e in
      rw made (
        at_funded receipt refl (record { receipt = refl; token = token; amount = amount }) (rw p tt)
          (rw v tt) (inl p) d j (rw (visited-append job.history _, h)))
  fund_job-Stage receipt job (at_funded r s f p v n d j h) e =
      fund_job-kept receipt r f.receipt (at_funded r s f p v n d j h) e
  fund_job-Stage receipt job (at_assigned t s d j h) e =
      fund_job-kept receipt t.receipt t.is_funded.receipt (at_assigned t s d j h) e
  fund_job-Stage receipt job (at_submitted m t s d j h) e =
      fund_job-kept receipt t.receipt t.is_funded.receipt (at_submitted m t s d j h) e
  fund_job-Stage receipt job (at_completed m r t s d j k h) e =
      fund_job-kept receipt t.receipt t.is_funded.receipt (at_completed m r t s d j k h) e
  fund_job-Stage receipt job (at_rejected m r t s d j k h) e =
      fund_job-kept receipt t.receipt t.is_funded.receipt (at_rejected m r t s d j k h) e

  submit_job-fresh :
      (manifest : DeliverableManifest) (job : JobRecord) {job' : JobRecord}
      → job.deliverable ≡ none
      → submit_job host manifest job ≡ ok job'
      → (job.state ≡ assigned)
        × (manifest.created_at.ms ≤ job.envelope.deadline.ms)
        × (manifest.request_hash ≡ job.envelope.request_hash)
        × (job'
            ≡ transition
                (record job { deliverable = some manifest })
                submitted
                manifest.created_at
                manifest.deliverable_hash)
  unfolding submit_job
  submit_job-fresh manifest job none_yet e =
      ground (arith, text_eq_iff manifest.request_hash job.envelope.request_hash)

  submit_job-kept :
      (manifest m : DeliverableManifest) (job : JobRecord) {job' : JobRecord}
      → job.deliverable ≡ some m
      → Stage job
      → submit_job host manifest job ≡ ok job'
      → Stage job'
  unfolding submit_job
  submit_job-kept manifest m job {job'} done st e =
      let same : job' ≡ job = ground arith in rw same st

  pub submit_job-Stage :
      (manifest : DeliverableManifest) (job : JobRecord) {job' : JobRecord}
      → Stage job
      → submit_job host manifest job ≡ ok job'
      → Stage job'
  unfolding transition
  submit_job-Stage manifest job (at_assigned t s d j h) e =
      let (_, in_time, request, made) = submit_job-fresh manifest job d e in
      rw made (
        at_submitted manifest
          (record {
            receipt = t.receipt;
            provider = t.provider;
            evaluator = t.evaluator;
            is_funded = record {
              receipt = t.is_funded.receipt;
              token = t.is_funded.token;
              amount = t.is_funded.amount;
            };
            has_provider = t.has_provider;
            has_evaluator = t.has_evaluator;
          })
          refl (record { manifest = refl; in_time = in_time; request = request }) j
          (rw (visited-append job.history _, h)))
  submit_job-Stage manifest job (at_created s f p v d j h) e =
      let asked : job.state ≡ assigned = (submit_job-fresh manifest job d e).0 in
      absurd (ground arith)
  submit_job-Stage manifest job (at_funded r s f p v n d j h) e =
      let asked : job.state ≡ assigned = (submit_job-fresh manifest job d e).0 in
      absurd (ground arith)
  submit_job-Stage manifest job (at_submitted m t s d j h) e =
      submit_job-kept manifest m job d.manifest (at_submitted m t s d j h) e
  submit_job-Stage manifest job (at_completed m r t s d j k h) e =
      submit_job-kept manifest m job d.manifest (at_completed m r t s d j k h) e
  submit_job-Stage manifest job (at_rejected m r t s d j k h) e =
      submit_job-kept manifest m job d.manifest (at_rejected m r t s d j k h) e
