-- ===== src/Commerce/Stage.antt =====
-- The stages of a stored job: what each state says of the rest of the record.
use positioncrew.Prelude.{
  ◌≤◌, ◌≡◌, refl, true, false, Option, none, some, List, [], ◌∷◌, ◌++◌, map, Text, to_lower_case,
  trim, length, arith, ap, ◌⊎◌, inl, inr,
}
use positioncrew.Commerce.{
  is_evaluation_receipt, JobState, created, funded, assigned, submitted, evaluated, completed,
  rejected, FundingReceipt, DeliverableManifest, EvaluationReceipt, JobHistoryEntry, JobRecord,
}
use positioncrew.Commerce.Adapter.{truthy}

-- The states that a job has been in.
abbrev pub visited : JobRecord → List JobState
visited job = map (λ (e : JobHistoryEntry). e.state) job.history

-- The funding is of the exact token and amount of the budget.
pub record IsFunded (job : JobRecord) (r : FundingReceipt) : Type 0 where
  pub receipt : job.funding ≡ some r
  pub token : to_lower_case r.token_address ≡ to_lower_case job.envelope.budget.token.address
  pub amount : r.amount ≡ job.envelope.budget.amount

-- A provider or an evaluator that was assigned.
pub record IsNamed (field : Option Text) (name : Text) : Type 0 where
  pub set : field ≡ some name
  pub long : 3 ≤ length (trim name)

-- No name yet, or a name.
abbrev pub MayBeNamed : Option Text → Type 0
MayBeNamed none = Unit
MayBeNamed (some name) = 3 ≤ length (trim name)

-- The deliverable came in time and answers the request of the job.
pub record IsDelivered (job : JobRecord) (m : DeliverableManifest) : Type 0 where
  pub manifest : job.deliverable ≡ some m
  pub in_time : m.created_at.ms ≤ job.envelope.deadline.ms
  pub request : m.request_hash ≡ job.envelope.request_hash

-- The evaluation is of that deliverable and request, by the job's evaluator, and passes its schema.
pub record IsJudged (job : JobRecord) (m : DeliverableManifest) (evaluator : Text)
    (r : EvaluationReceipt) : Type 0 where
  pub receipt : job.evaluation ≡ some r
  pub deliverable : r.deliverable_hash ≡ m.deliverable_hash
  pub request : r.request_hash ≡ job.envelope.request_hash
  pub judge : r.evaluator_id ≡ evaluator
  pub valid : is_evaluation_receipt r ≡ true

-- A job that was assigned: funded, with a provider and an evaluator.
pub record IsStaffed (job : JobRecord) : Type 0 where
  pub receipt : FundingReceipt
  pub provider : Text
  pub evaluator : Text
  pub is_funded : IsFunded job receipt
  pub has_provider : IsNamed job.provider_id provider
  pub has_evaluator : IsNamed job.evaluator_id evaluator

pub data Stage (job : JobRecord) : Type 0 where
  at_created :
      job.state ≡ created
      → job.funding ≡ none
      → job.provider_id ≡ none
      → job.evaluator_id ≡ none
      → job.deliverable ≡ none
      → job.evaluation ≡ none
      → visited job ≡ created ∷ []
      → Stage job
  at_funded :
      (r : FundingReceipt)
      → job.state ≡ funded
      → IsFunded job r
      → MayBeNamed job.provider_id
      → MayBeNamed job.evaluator_id
      → ((job.provider_id ≡ none) ⊎ (job.evaluator_id ≡ none))
      → job.deliverable ≡ none
      → job.evaluation ≡ none
      → visited job ≡ created ∷ funded ∷ []
      → Stage job
  at_assigned :
      IsStaffed job
      → job.state ≡ assigned
      → job.deliverable ≡ none
      → job.evaluation ≡ none
      → visited job ≡ created ∷ funded ∷ assigned ∷ []
      → Stage job
  at_submitted :
      (m : DeliverableManifest)
      → IsStaffed job
      → job.state ≡ submitted
      → IsDelivered job m
      → job.evaluation ≡ none
      → visited job ≡ created ∷ funded ∷ assigned ∷ submitted ∷ []
      → Stage job
  at_completed :
      (m : DeliverableManifest) (r : EvaluationReceipt) (s : IsStaffed job)
      → job.state ≡ completed
      → IsDelivered job m
      → IsJudged job m s.evaluator r
      → r.passed ≡ true
      → visited job ≡ created ∷ funded ∷ assigned ∷ submitted ∷ evaluated ∷ completed ∷ []
      → Stage job
  at_rejected :
      (m : DeliverableManifest) (r : EvaluationReceipt) (s : IsStaffed job)
      → job.state ≡ rejected
      → IsDelivered job m
      → IsJudged job m s.evaluator r
      → r.passed ≡ false
      → visited job ≡ created ∷ funded ∷ assigned ∷ submitted ∷ evaluated ∷ rejected ∷ []
      → Stage job

pub visited-append :
    (xs : List JobHistoryEntry) (e : JobHistoryEntry)
    → map (λ (x : JobHistoryEntry). x.state) (xs ++ e ∷ [])
      ≡ map (λ (x : JobHistoryEntry). x.state) xs ++ e.state ∷ []
visited-append [] e = refl
visited-append (x ∷ xs) e = ap (λ t. x.state ∷ t) (visited-append xs e)

-- A name of at least three characters is no empty string.
pub truthy_of_long : (name : Text) → 3 ≤ length (trim name) → truthy (some name) ≡ some name
truthy_of_long [] h = absurd (omega arith)
truthy_of_long (c ∷ s) h = refl

pub truthy_of_IsNamed :
    {field : Option Text} {name : Text} → IsNamed field name → truthy field ≡ some name
truthy_of_IsNamed {name} n = rw n.set (truthy_of_long name n.long)

-- A field that may be named is open or has a name.
pub MayBeNamed-cases :
    (field : Option Text) → MayBeNamed field → (field ≡ none) ⊎ ((name : Text) × IsNamed field name)
MayBeNamed-cases none n = inl refl
MayBeNamed-cases (some name) n = inr (name, record { set = refl; long = n })
