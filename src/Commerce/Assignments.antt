-- ===== src/Commerce/Assignments.antt =====
-- Assigning a provider or an evaluator moves a job from stage to stage.
use positioncrew.Prelude.{
  ◌≤◌, ◌≡◌, refl, none, some, [], ◌∷◌, Text, trim, length, arith, ◌⊎◌, inl, inr, ok,
}
use positioncrew.Commerce.{created, funded, assigned, FundingReceipt, JobRecord}
use positioncrew.Commerce.Adapter.{mark_assigned_when_ready}
use positioncrew.Commerce.Reference.{assign_provider_to, assign_evaluator_to}
use positioncrew.Commerce.Stage.{
  visited, visited-append, IsFunded, IsNamed, Stage, at_created, at_funded, at_assigned,
  at_submitted, at_completed, at_rejected, truthy_of_IsNamed, MayBeNamed-cases,
}

-- A funded job with both names is marked assigned.
mark_both :
    (job : JobRecord) (r : FundingReceipt) (p e : Text)
    → job.state ≡ funded
    → IsFunded job r
    → IsNamed job.provider_id p
    → IsNamed job.evaluator_id e
    → job.deliverable ≡ none
    → job.evaluation ≡ none
    → visited job ≡ created ∷ funded ∷ []
    → Stage (mark_assigned_when_ready job)
unfolding mark_assigned_when_ready
mark_both job r p e s f has_p has_e d j h =
    rw (truthy_of_IsNamed has_p, truthy_of_IsNamed has_e, s)
      (at_assigned
        (record {
          receipt = r;
          provider = p;
          evaluator = e;
          is_funded = record { receipt = f.receipt; token = f.token; amount = f.amount };
          has_provider = has_p;
          has_evaluator = has_e;
        })
        refl d j (rw (visited-append job.history _, h)))

-- A job without an evaluator is not.
mark_no_evaluator : (job : JobRecord) → job.evaluator_id ≡ none → mark_assigned_when_ready job ≡ job
unfolding mark_assigned_when_ready
mark_no_evaluator job none_yet = ground arith

mark_no_provider : (job : JobRecord) → job.provider_id ≡ none → mark_assigned_when_ready job ≡ job
unfolding mark_assigned_when_ready
mark_no_provider job none_yet = ground arith

provider-again :
    (provider p : Text) (job : JobRecord) {job' : JobRecord}
    → IsNamed job.provider_id p
    → Stage job
    → assign_provider_to provider job ≡ ok job'
    → Stage job'
unfolding assign_provider_to
provider-again provider p job {job'} named st e =
    let set = truthy_of_IsNamed named in let same : job' ≡ job = ground arith in rw same st

provider-fresh :
    (provider : Text) (job : JobRecord) {job' : JobRecord}
    → job.provider_id ≡ none
    → assign_provider_to provider job ≡ ok job'
    → ((job.state ≡ funded) ⊎ (job.state ≡ assigned))
      × (3 ≤ length (trim provider))
      × (job' ≡ mark_assigned_when_ready (record job { provider_id = some provider }))
unfolding assign_provider_to
provider-fresh provider job none_yet e = ground arith

pub assign_provider_to-Stage :
    (provider : Text) (job : JobRecord) {job' : JobRecord}
    → Stage job
    → assign_provider_to provider job ≡ ok job'
    → Stage job'
assign_provider_to-Stage provider job (at_created s f p v d j h) e =
    let (asked, _, _) = provider-fresh provider job p e in absurd (ground arith)
assign_provider_to-Stage provider job (at_funded r s f p v n d j h) e =
    elim (MayBeNamed-cases job.provider_id p) [
      | inr (name, named) ↦ provider-again provider name job named (at_funded r s f p v n d j h) e
      | inl blank ↦
          let (_, long, made) = provider-fresh provider job blank e in
          let f' : IsFunded (record job { provider_id = some provider }) r = record {
            receipt = f.receipt;
            token = f.token;
            amount = f.amount;
          } in
          elim (MayBeNamed-cases job.evaluator_id v) [
            | inl no_one ↦
                let same = mark_no_evaluator (record job { provider_id = some provider }) no_one in
                rw (made, same) (at_funded r s f' long v (inr no_one) d j h)
            | inr (name, named) ↦ rw made (
                mark_both (record job { provider_id = some provider }) r provider name s f'
                  (record { set = refl; long = long }) named d j h)
          ]
    ]
assign_provider_to-Stage provider job (at_assigned t s d j h) e =
    provider-again provider t.provider job t.has_provider (at_assigned t s d j h) e
assign_provider_to-Stage provider job (at_submitted m t s d j h) e =
    provider-again provider t.provider job t.has_provider (at_submitted m t s d j h) e
assign_provider_to-Stage provider job (at_completed m r t s d j k h) e =
    provider-again provider t.provider job t.has_provider (at_completed m r t s d j k h) e
assign_provider_to-Stage provider job (at_rejected m r t s d j k h) e =
    provider-again provider t.provider job t.has_provider (at_rejected m r t s d j k h) e

evaluator-again :
    (evaluator v : Text) (job : JobRecord) {job' : JobRecord}
    → IsNamed job.evaluator_id v
    → Stage job
    → assign_evaluator_to evaluator job ≡ ok job'
    → Stage job'
unfolding assign_evaluator_to
evaluator-again evaluator v job {job'} named st e =
    let set = truthy_of_IsNamed named in let same : job' ≡ job = ground arith in rw same st

evaluator-fresh :
    (evaluator : Text) (job : JobRecord) {job' : JobRecord}
    → job.evaluator_id ≡ none
    → assign_evaluator_to evaluator job ≡ ok job'
    → ((job.state ≡ funded) ⊎ (job.state ≡ assigned))
      × (3 ≤ length (trim evaluator))
      × (job' ≡ mark_assigned_when_ready (record job { evaluator_id = some evaluator }))
unfolding assign_evaluator_to
evaluator-fresh evaluator job none_yet e = ground arith

pub assign_evaluator_to-Stage :
    (evaluator : Text) (job : JobRecord) {job' : JobRecord}
    → Stage job
    → assign_evaluator_to evaluator job ≡ ok job'
    → Stage job'
assign_evaluator_to-Stage evaluator job (at_created s f p v d j h) e =
    let (asked, _, _) = evaluator-fresh evaluator job v e in absurd (ground arith)
assign_evaluator_to-Stage evaluator job (at_funded r s f p v n d j h) e =
    elim (MayBeNamed-cases job.evaluator_id v) [
      | inr (name, named) ↦ evaluator-again evaluator name job named (at_funded r s f p v n d j h) e
      | inl blank ↦
          let (_, long, made) = evaluator-fresh evaluator job blank e in
          let f' : IsFunded (record job { evaluator_id = some evaluator }) r = record {
            receipt = f.receipt;
            token = f.token;
            amount = f.amount;
          } in
          elim (MayBeNamed-cases job.provider_id p) [
            | inl no_one ↦
                let same = mark_no_provider (record job { evaluator_id = some evaluator }) no_one in
                rw (made, same) (at_funded r s f' p long (inl no_one) d j h)
            | inr (name, named) ↦ rw made (
                mark_both (record job { evaluator_id = some evaluator }) r name evaluator s f' named
                  (record { set = refl; long = long }) d j h)
          ]
    ]
assign_evaluator_to-Stage evaluator job (at_assigned t s d j h) e =
    evaluator-again evaluator t.evaluator job t.has_evaluator (at_assigned t s d j h) e
assign_evaluator_to-Stage evaluator job (at_submitted m t s d j h) e =
    evaluator-again evaluator t.evaluator job t.has_evaluator (at_submitted m t s d j h) e
assign_evaluator_to-Stage evaluator job (at_completed m r t s d j k h) e =
    evaluator-again evaluator t.evaluator job t.has_evaluator (at_completed m r t s d j k h) e
assign_evaluator_to-Stage evaluator job (at_rejected m r t s d j k h) e =
    evaluator-again evaluator t.evaluator job t.has_evaluator (at_rejected m r t s d j k h) e
