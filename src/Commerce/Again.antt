-- ===== src/Commerce/Again.antt =====
-- A call that is made twice, as by a client that retries.
use positioncrew.Prelude.{
  ◌≡◌, refl, sym, ap, ◌∙◌, true, false, none, some, Text, text_eq, text_eq_refl, text_eq_sound,
  arith, ok, err, inl, inr, Bool-cases, Option-cases,
}
use positioncrew.Prelude.Dict.{lookup, insert, lookup-insert_self, insert-lookup}
use positioncrew.Commerce.{
  FundingReceipt, DeliverableManifest, EvaluationReceipt, JobEnvelope, JobRecord, is_envelope,
  is_funding_receipt, is_manifest, is_evaluation_receipt,
}
use positioncrew.Commerce.Adapter.{
  Host, Adapter, Outcome, invalid_input, truthy, mark_assigned_when_ready, on_job, new_job,
  create_job, fund, assign_provider, assign_evaluator, submit_deliverable, evaluate, reconcile,
}
use positioncrew.Commerce.Reference.{
  fund_job, submit_job, evaluate_job, assign_provider_to, assign_evaluator_to, in_place, left_after,
  prior_job, prior_job-same, prior_step-in_place, give-in_place, assign_provider_step-in_place,
  assign_evaluator_step-in_place, fund_step-in_place, submit_step-in_place, evaluate_step-in_place,
}
use positioncrew.Commerce.Store.{
  Call, creating, funding, assigning_provider, assigning_evaluator, submitting, evaluating,
  reconciling, run, on_job-cases,
}
use positioncrew.Commerce.Stage.{truthy_of_long}

-- An operation that does nothing more to the job that it made.
abbrev Settles : (JobRecord → Outcome) → Type 0
Settles step = (job job' : JobRecord) → step job ≡ ok job' → step job' ≡ ok job'

module _ (host : Host) where
  fund_job-Settles : (r : FundingReceipt) → Settles (fund_job host r)
  unfolding fund_job
  fund_job-Settles r job job' e = let same = text_eq_refl (host.hash_funding r) in ground arith

  submit_job-Settles : (m : DeliverableManifest) → Settles (submit_job host m)
  unfolding submit_job
  submit_job-Settles m job job' e = let same = text_eq_refl (host.hash_manifest m) in ground arith

  evaluate_job-Settles : (r : EvaluationReceipt) → Settles (evaluate_job host r)
  unfolding evaluate_job
  evaluate_job-Settles r job job' e = let same = text_eq_refl (host.hash_receipt r) in ground arith

marked-names :
    (job : JobRecord)
    → ((mark_assigned_when_ready job).provider_id ≡ job.provider_id)
      × ((mark_assigned_when_ready job).evaluator_id ≡ job.evaluator_id)
unfolding mark_assigned_when_ready
marked-names job = (ground arith, ground arith)

assign_provider_to-named :
    (name : Text) (job job' : JobRecord)
    → assign_provider_to name job ≡ ok job'
    → truthy job'.provider_id ≡ some name
unfolding assign_provider_to
assign_provider_to-named name job job' e =
    let names = (marked-names (record job { provider_id = some name })).0 in
    let given = truthy job.provider_id in
    elim (Option-cases given) [
      | inr (old, set) ↦ let sound = text_eq_sound old name in ground arith
      | inl none_yet ↦ let full = truthy_of_long name in ground arith
    ]

assign_provider_to-Settles : (name : Text) → Settles (assign_provider_to name)
unfolding assign_provider_to
assign_provider_to-Settles name job job' e =
    let same = text_eq_refl name in
    let named = assign_provider_to-named name job job' e in ground arith

assign_evaluator_to-named :
    (name : Text) (job job' : JobRecord)
    → assign_evaluator_to name job ≡ ok job'
    → truthy job'.evaluator_id ≡ some name
unfolding assign_evaluator_to
assign_evaluator_to-named name job job' e =
    let names = (marked-names (record job { evaluator_id = some name })).1 in
    let given = truthy job.evaluator_id in
    elim (Option-cases given) [
      | inr (old, set) ↦ let sound = text_eq_sound old name in ground arith
      | inl none_yet ↦ let full = truthy_of_long name in ground arith
    ]

assign_evaluator_to-Settles : (name : Text) → Settles (assign_evaluator_to name)
unfolding assign_evaluator_to
assign_evaluator_to-Settles name job job' e =
    let same = text_eq_refl name in
    let named = assign_evaluator_to-named name job job' e in rw (assign_evaluator_to, named, same)

-- An operation on a stored job that changes nothing.
on_job-same :
    (host : Host) (id : Text) (step : JobRecord → Outcome) (s : Adapter) (job : JobRecord)
    → lookup id s.jobs ≡ some job
    → step job ≡ ok job
    → on_job host id (in_place step) s ≡ (ok job, s)
unfolding on_job in_place left_after
on_job-same host id step s job found made =
    let kept = insert-lookup id job s.jobs found in rw (on_job, found, in_place, made, kept) refl

on_job-again :
    (host : Host) (id : Text) (step : JobRecord → Outcome) (s : Adapter) {job : JobRecord}
    {s' : Adapter}
    → Settles step
    → on_job host id (in_place step) s ≡ (ok job, s')
    → on_job host id (in_place step) s' ≡ (ok job, s')
on_job-again host id step s {job} {s'} settles e = elim (on_job-cases host id step s) [
  | inl (failure, failed) ↦ absurd (ground arith)
  | inr (before, after, found, made, result) ↦
      let same_job : job ≡ after = ground arith in
      let same_store : s' ≡ record s { jobs = insert id after s.jobs } = ground arith in
      rw (same_job, same_store)
        (on_job-same host id step (record s { jobs = insert id after s.jobs }) after
          (lookup-insert_self id after s.jobs) (settles before after made))
]

-- A check of a stored job that returns it leaves the store as it was.
on_job-checked :
    (host : Host) (id : Text) (step : JobRecord → Outcome) (s : Adapter) {job : JobRecord}
    {s' : Adapter}
    → ((j j' : JobRecord) → step j ≡ ok j' → j' ≡ j)
    → on_job host id (in_place step) s ≡ (ok job, s')
    → s' ≡ s
on_job-checked host id step s {job} {s'} same e = elim (on_job-cases host id step s) [
  | inl (failure, failed) ↦ absurd (ground arith)
  | inr (before, after, found, made, result) ↦
      let kept = insert-lookup id before s.jobs found in
      let same_job = same before after made in
      let same_store : s' ≡ record s { jobs = insert id after s.jobs } = ground arith in
      rw (same_store, same_job, kept) refl
]

create_job-known :
    (host : Host) (envelope : JobEnvelope) (s : Adapter) (prior : Text)
    → is_envelope envelope ≡ true
    → truthy (lookup envelope.idempotency_key s.idempotency) ≡ some prior
    → create_job host envelope s
      ≡ on_job host prior (in_place (prior_job host (host.hash_envelope envelope))) s
unfolding create_job
create_job-known host envelope s prior valid known =
    rw (create_job, valid, known, prior_step-in_place host (host.hash_envelope envelope)) refl

create_job-invalid :
    (host : Host) (envelope : JobEnvelope) (s : Adapter)
    → is_envelope envelope ≡ false
    → create_job host envelope s ≡ (err invalid_input, s)
unfolding create_job
create_job-invalid host envelope s invalid = rw (create_job, invalid) refl

-- The store with a new job.
abbrev with_job : Host → JobEnvelope → Adapter → Adapter
with_job host envelope s = record {
  jobs = insert (new_job host envelope).job_id (new_job host envelope) s.jobs;
  idempotency = insert envelope.idempotency_key (new_job host envelope).job_id s.idempotency;
}

create_job-fresh :
    (host : Host) (envelope : JobEnvelope) (s : Adapter)
    → is_envelope envelope ≡ true
    → truthy (lookup envelope.idempotency_key s.idempotency) ≡ none
    → create_job host envelope s ≡ (ok (new_job host envelope), with_job host envelope s)
unfolding create_job
create_job-fresh host envelope s valid new = rw (create_job, valid, new) refl

create_job-fresh_again :
    (host : Host) (envelope : JobEnvelope) (s : Adapter)
    → is_envelope envelope ≡ true
    → create_job host envelope (with_job host envelope s)
      ≡ (ok (new_job host envelope), with_job host envelope s)
unfolding prior_job
create_job-fresh_again host envelope s valid =
    let fresh = new_job host envelope in
    let entry = lookup-insert_self envelope.idempotency_key fresh.job_id s.idempotency in
    let hash = text_eq_refl (host.hash_envelope envelope) in
    create_job-known host envelope (with_job host envelope s) fresh.job_id valid (rw entry refl)
    ∙ on_job-same host fresh.job_id (prior_job host (host.hash_envelope envelope))
        (with_job host envelope s) fresh (lookup-insert_self fresh.job_id fresh s.jobs)
        (rw (prior_job, hash) refl)

create_job-again :
    (host : Host) (envelope : JobEnvelope) (s : Adapter) {job : JobRecord} {s' : Adapter}
    → create_job host envelope s ≡ (ok job, s')
    → create_job host envelope s' ≡ (ok job, s')
create_job-again host envelope s {job} {s'} e = elim (Bool-cases (is_envelope envelope)) [
  | inr invalid ↦ let failed = create_job-invalid host envelope s invalid in absurd (ground arith)
  | inl valid ↦ elim (Option-cases (truthy (lookup envelope.idempotency_key s.idempotency))) [
    | inr (prior, known) ↦
        let checked = sym (create_job-known host envelope s prior valid known) ∙ e in
        let same : s' ≡ s =
          on_job-checked host prior (prior_job host (host.hash_envelope envelope)) s
            (λ j j' h. prior_job-same host (host.hash_envelope envelope) j h) checked in
        let e' : create_job host envelope s ≡ (ok job, s) =
          e ∙ ap (λ (t : Adapter). (ok job, t)) same in
        rw same e'
    | inl new ↦
        let made = create_job-fresh host envelope s valid new in
        let same_job : job ≡ new_job host envelope = ground arith in
        let same_store : s' ≡ with_job host envelope s = ground arith in
        rw (same_job, same_store) (create_job-fresh_again host envelope s valid)
  ]
]

-- A call that returned a job returns the same job when it is made again at once, and then leaves the
-- store as it is.
pub run-again :
    (host : Host) (c : Call) (s : Adapter) {job : JobRecord} {s' : Adapter}
    → run host c s ≡ (ok job, s')
    → run host c s' ≡ (ok job, s')
unfolding run fund assign_provider assign_evaluator submit_deliverable evaluate reconcile
run-again host (creating envelope) s e = create_job-again host envelope s e
run-again host (funding id receipt) s e = elim (Bool-cases (is_funding_receipt receipt)) [
  | inr invalid ↦ absurd (ground arith)
  | inl valid ↦
      let same = fund_step-in_place host receipt in
      rw (valid, same)
        (on_job-again host id (fund_job host receipt) s (fund_job-Settles host receipt)
          (rw (valid, same) at e))
]
run-again host (assigning_provider id name) s e =
    let same = assign_provider_step-in_place name in
    rw same (
      on_job-again host id (assign_provider_to name) s (assign_provider_to-Settles name)
        (rw same at e))
run-again host (assigning_evaluator id name) s e =
    let same = assign_evaluator_step-in_place name in
    rw same (
      on_job-again host id (assign_evaluator_to name) s (assign_evaluator_to-Settles name)
        (rw same at e))
run-again host (submitting id manifest) s e = elim (Bool-cases (is_manifest host.is_url manifest)) [
  | inr invalid ↦ absurd (ground arith)
  | inl valid ↦
      let same = submit_step-in_place host manifest in
      rw (valid, same)
        (on_job-again host id (submit_job host manifest) s (submit_job-Settles host manifest)
          (rw (valid, same) at e))
]
run-again host (evaluating id receipt) s e = elim (Bool-cases (is_evaluation_receipt receipt)) [
  | inr invalid ↦ absurd (ground arith)
  | inl valid ↦ elim (Bool-cases (text_eq (host.hash_body receipt.body) receipt.evaluation_hash)) [
    | inr broken ↦ absurd (ground arith)
    | inl committed ↦
        let same = evaluate_step-in_place host receipt in
        rw (valid, committed, same)
          (on_job-again host id (evaluate_job host receipt) s (evaluate_job-Settles host receipt)
            (rw (valid, committed, same) at e))
  ]
]
run-again host (reconciling id) s e =
    rw give-in_place (on_job-again host id ok s (λ job job' h. refl) (rw give-in_place at e))
