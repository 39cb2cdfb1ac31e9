-- ===== src/Commerce/Kept.antt =====
-- What later calls never change of a job, and calls that are made twice.
use positioncrew.Prelude.{
  ◌≡◌, refl, none, some, List, [], ◌∷◌, ◌++◌, Text, length, arith, ok, ◌⊎◌, inl, inr, Bool-cases,
  Option-cases, if◌then◌else◌, take, ap,
}
use positioncrew.Commerce.{
  JobState, funded, assigned, submitted, evaluated, completed, rejected, FundingReceipt,
  DeliverableManifest, EvaluationReceipt, JobRecord,
}
use positioncrew.Commerce.Adapter.{Host, truthy, is_funded, transition, mark_assigned_when_ready}
use positioncrew.Commerce.Reference.{
  fund_job, submit_job, evaluate_job, assign_provider_to, assign_evaluator_to,
}
use positioncrew.Contracts.{Timestamp}
use positioncrew.Commerce.Store.{
  JobStep, unchanged, by_funding, by_provider, by_evaluator, by_submission, by_evaluation,
}

take_all : {A : Type 0} (xs ys : List A) → take (length xs) (xs ++ ys) ≡ xs
take_all [] ys = refl
take_all (x ∷ xs) ys = ap (λ t. x ∷ t) (take_all xs ys)

take_self : {A : Type 0} (xs : List A) → take (length xs) xs ≡ xs
take_self [] = refl
take_self (x ∷ xs) = ap (λ t. x ∷ t) (take_self xs)

take_twice : {A : Type 0} (xs ys zs : List A) → take (length xs) ((xs ++ ys) ++ zs) ≡ xs
take_twice [] ys zs = refl
take_twice (x ∷ xs) ys zs = ap (λ t. x ∷ t) (take_twice xs ys zs)

-- The envelope of a job, and each receipt and name once it is set, stay; the history only grows.
pub record Keeps (job job' : JobRecord) : Type 0 where
  pub envelope : job'.envelope ≡ job.envelope
  pub envelope_hash : job'.envelope_hash ≡ job.envelope_hash
  pub funding : (r : FundingReceipt) → job.funding ≡ some r → job'.funding ≡ some r
  pub deliverable : (m : DeliverableManifest) → job.deliverable ≡ some m → job'.deliverable ≡ some m
  pub evaluation : (r : EvaluationReceipt) → job.evaluation ≡ some r → job'.evaluation ≡ some r
  pub provider : (p : Text) → truthy job.provider_id ≡ some p → truthy job'.provider_id ≡ some p
  pub evaluator : (e : Text) → truthy job.evaluator_id ≡ some e → truthy job'.evaluator_id ≡ some e
  pub history : take (length job.history) job'.history ≡ job.history

transition-history :
    (job : JobRecord) (state : JobState) (at : Timestamp) (reference : Text)
    → take (length job.history) (transition job state at reference).history ≡ job.history
unfolding transition
transition-history job state at reference = take_all job.history _

marked-history :
    (job : JobRecord)
    → take (length job.history) (mark_assigned_when_ready job).history ≡ job.history
unfolding mark_assigned_when_ready
marked-history job = elim (Option-cases (truthy job.provider_id)) [
  | inl no_one ↦ rw no_one (take_self job.history)
  | inr (p, has_p) ↦ elim (Option-cases (truthy job.evaluator_id)) [
    | inl no_one ↦ rw (has_p, no_one) (take_self job.history)
    | inr (e, has_e) ↦ elim (Bool-cases (is_funded job.state)) [
      | inl ready ↦ rw (has_p, has_e, ready) (transition-history job assigned _ _)
      | inr waits ↦ rw (has_p, has_e, waits) (take_self job.history)
    ]
  ]
]

marked-Keeps : (job : JobRecord) → Keeps job (mark_assigned_when_ready job)
unfolding mark_assigned_when_ready
marked-Keeps job = record {
  envelope = ground arith;
  envelope_hash = ground arith;
  funding = λ r h. ground arith;
  deliverable = λ r h. ground arith;
  evaluation = λ r h. ground arith;
  provider = λ r h. ground arith;
  evaluator = λ r h. ground arith;
  history = marked-history job;
}

pub Keeps-refl : (job : JobRecord) → Keeps job job
Keeps-refl job = record {
  envelope = refl;
  envelope_hash = refl;
  funding = λ r h. h;
  deliverable = λ m h. h;
  evaluation = λ r h. h;
  provider = λ p h. h;
  evaluator = λ e h. h;
  history = take_self job.history;
}

-- Only a job without a receipt takes one; the same receipt again changes nothing.
fund_job-Keeps :
    (host : Host) (r : FundingReceipt) (job job' : JobRecord)
    → fund_job host r job ≡ ok job'
    → Keeps job job'
unfolding fund_job
fund_job-Keeps host r job job' e = record {
  envelope = ground arith;
  envelope_hash = ground arith;
  funding = λ r h. ground arith;
  deliverable = λ r h. ground arith;
  evaluation = λ r h. ground arith;
  provider = λ r h. ground arith;
  evaluator = λ r h. ground arith;
  history = ground (
    arith,
    take_self job.history,
    take_all job.history
        (record { state = funded; at = r.funded_at; reference = r.transaction_reference } ∷ []),
  );
}

submit_job-Keeps :
    (host : Host) (m : DeliverableManifest) (job job' : JobRecord)
    → submit_job host m job ≡ ok job'
    → Keeps job job'
unfolding submit_job
submit_job-Keeps host m job job' e = record {
  envelope = ground arith;
  envelope_hash = ground arith;
  funding = λ r h. ground arith;
  deliverable = λ r h. ground arith;
  evaluation = λ r h. ground arith;
  provider = λ r h. ground arith;
  evaluator = λ r h. ground arith;
  history = ground (
    arith,
    take_self job.history,
    take_all job.history
        (record { state = submitted; at = m.created_at; reference = m.deliverable_hash } ∷ []),
  );
}

evaluate_job-Keeps :
    (host : Host) (r : EvaluationReceipt) (job job' : JobRecord)
    → evaluate_job host r job ≡ ok job'
    → Keeps job job'
unfolding evaluate_job
evaluate_job-Keeps host r job job' e = record {
  envelope = ground arith;
  envelope_hash = ground arith;
  funding = λ r h. ground arith;
  deliverable = λ r h. ground arith;
  evaluation = λ r h. ground arith;
  provider = λ r h. ground arith;
  evaluator = λ r h. ground arith;
  history = ground (
    arith,
    take_self job.history,
    take_twice job.history
        (record { state = evaluated; at = r.evaluated_at; reference = r.evaluation_hash } ∷ [])
        (record {
          state = if r.passed then completed else rejected;
          at = r.evaluated_at;
          reference = r.evaluation_hash;
        }
          ∷ []),
  );
}

assign_provider_to-cases :
    (name : Text) (job job' : JobRecord)
    → assign_provider_to name job ≡ ok job'
    → (job' ≡ job)
      ⊎ ((truthy job.provider_id ≡ none)
          × (job' ≡ mark_assigned_when_ready (record job { provider_id = some name })))
unfolding assign_provider_to
assign_provider_to-cases name job job' e = ground arith

assign_provider_to-Keeps :
    (name : Text) (job job' : JobRecord) → assign_provider_to name job ≡ ok job' → Keeps job job'
assign_provider_to-Keeps name job job' e = elim (assign_provider_to-cases name job job' e) [
  | inl same ↦ rw same (Keeps-refl job)
  | inr (none_yet, made) ↦
      let k = marked-Keeps (record job { provider_id = some name }) in
      rw made (record {
        envelope = k.envelope;
        envelope_hash = k.envelope_hash;
        funding = k.funding;
        deliverable = k.deliverable;
        evaluation = k.evaluation;
        provider = λ n h. absurd (ground arith);
        evaluator = k.evaluator;
        history = k.history;
      })
]

assign_evaluator_to-cases :
    (name : Text) (job job' : JobRecord)
    → assign_evaluator_to name job ≡ ok job'
    → (job' ≡ job)
      ⊎ ((truthy job.evaluator_id ≡ none)
          × (job' ≡ mark_assigned_when_ready (record job { evaluator_id = some name })))
unfolding assign_evaluator_to
assign_evaluator_to-cases name job job' e = ground arith

assign_evaluator_to-Keeps :
    (name : Text) (job job' : JobRecord) → assign_evaluator_to name job ≡ ok job' → Keeps job job'
assign_evaluator_to-Keeps name job job' e = elim (assign_evaluator_to-cases name job job' e) [
  | inl same ↦ rw same (Keeps-refl job)
  | inr (none_yet, made) ↦
      let k = marked-Keeps (record job { evaluator_id = some name }) in
      rw made (record {
        envelope = k.envelope;
        envelope_hash = k.envelope_hash;
        funding = k.funding;
        deliverable = k.deliverable;
        evaluation = k.evaluation;
        evaluator = λ n h. absurd (ground arith);
        provider = k.provider;
        history = k.history;
      })
]

pub JobStep-Keeps : {host : Host} (job job' : JobRecord) → JobStep host job job' → Keeps job job'
JobStep-Keeps job job' (unchanged same) = rw same (Keeps-refl job)
JobStep-Keeps {host} job job' (by_funding r e) = fund_job-Keeps host r job job' e
JobStep-Keeps job job' (by_provider name e) = assign_provider_to-Keeps name job job' e
JobStep-Keeps job job' (by_evaluator name e) = assign_evaluator_to-Keeps name job job' e
JobStep-Keeps {host} job job' (by_submission m e) = submit_job-Keeps host m job job' e
JobStep-Keeps {host} job job' (by_evaluation r valid e) = evaluate_job-Keeps host r job job' e
