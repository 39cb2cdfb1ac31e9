-- ===== src/Commerce/Reached.antt =====
-- The stores that calls lead to from the empty one, and what holds of the jobs in them.
use positioncrew.Prelude.{
  length, all, Bool, not, ◌&&◌, ◌==◌, leb, false, ◌≤◌, ℕ, ◌≡◌, ◌≢◌, refl, ◌∙◌, true, some, [], ◌∷◌,
  Text, arith, ok, err,
}
use positioncrew.Prelude.Dict.{lookup, insert, lookup-insert_ne}
use positioncrew.Contracts.{has_length, is_hash}
use positioncrew.Commerce.{
  is_check, is_evaluation_receipt, computed_score, critical_failure, bool_eq, created, funded,
  assigned, submitted, evaluated, completed, DeliverableManifest, EvaluationReceipt, JobRecord,
}
use positioncrew.Commerce.Adapter.{Host, Adapter, empty_adapter, Outcome, CommerceError, new_job}
use positioncrew.Commerce.Stage.{
  visited, IsDelivered, IsJudged, IsStaffed, Stage, at_created, at_funded, at_assigned,
  at_submitted, at_completed, at_rejected,
}
use positioncrew.Commerce.Store.{
  Call, run, AllStored, Stored-at, put, new_job-Stored, JobStep-Stage, JobStep-id, Ran, ran_failed,
  ran_step, ran_new, run-Ran,
}

pub data Reached (host : Host) : Adapter → Type 0 where
  at_start : Reached host empty_adapter
  by_call : (c : Call) {s : Adapter} → Reached host s → Reached host (run host c s).1

Ran-AllStored :
    {host : Host} {c : Call} (s : Adapter) (result : Outcome × Adapter)
    → AllStored s
    → Ran host c s result
    → AllStored result.1
Ran-AllStored s result all (ran_failed e same) = rw same all
Ran-AllStored s result all (ran_step id job job' found step same) =
    let (same_id, st) = Stored-at id s all found in
    rw same
      (put id job' s.jobs (JobStep-id job job' step ∙ same_id, JobStep-Stage job job' step st) all)
Ran-AllStored {host} s result all (ran_new envelope asked valid new same) =
    rw same (put _ (new_job host envelope) s.jobs (new_job-Stored host envelope) all)

-- In every store that calls lead to, each job is stored under its own id and is in a stage.
pub reached-AllStored : {host : Host} {s : Adapter} → Reached host s → AllStored s
reached-AllStored at_start = tt
reached-AllStored {host} (by_call c {s} r) =
    Ran-AllStored s (run host c s) (reached-AllStored r) (run-Ran host c s)

-- What a completed job has behind it.
pub record IsFulfilled (job : JobRecord) : Type 0 where
  pub staff : IsStaffed job
  pub manifest : DeliverableManifest
  pub receipt : EvaluationReceipt
  pub delivered : IsDelivered job manifest
  pub judged : IsJudged job manifest staff.evaluator receipt
  pub passed : receipt.passed ≡ true
  pub score : 90 ≤ receipt.score
  pub weights : computed_score receipt.checks 0 ≡ receipt.score
  pub no_failure : critical_failure receipt.checks ≡ false
  pub path : visited job ≡ created ∷ funded ∷ assigned ∷ submitted ∷ evaluated ∷ completed ∷ []

last_tests :
    (a b c d e f g h x y : Bool)
    → (a && b && c && d && e && f && g && h && x && y) ≡ true
    → (x ≡ true) × (y ≡ true)
last_tests a b c d e f g h x y all = ground arith

passed_test :
    (passed : Bool) (score sum : ℕ) (failure : Bool)
    → passed ≡ true
    → (sum == score) ≡ true
    → bool_eq passed (leb 90 score && not failure) ≡ true
    → (90 ≤ score) × (sum ≡ score) × (failure ≡ false)
passed_test passed score sum failure pass same verdict = ground arith

-- A valid receipt that passes has at least 90 points, the weights of its passed checks, and no critical
-- check failed.
receipt_passed :
    (r : EvaluationReceipt)
    → is_evaluation_receipt r ≡ true
    → r.passed ≡ true
    → (90 ≤ r.score) × (computed_score r.checks 0 ≡ r.score) × (critical_failure r.checks ≡ false)
unfolding is_evaluation_receipt
receipt_passed r valid pass =
    let (sum, verdict) =
      last_tests (has_length 1 120 r.rubric_version) (is_hash r.request_hash)
        (is_hash r.deliverable_hash) (has_length 3 160 r.evaluator_id) (leb r.score 100)
        (leb 1 (length r.checks)) (all is_check r.checks) (is_hash r.evaluation_hash) _ _ valid in
    passed_test r.passed r.score (computed_score r.checks 0) (critical_failure r.checks) pass sum
      verdict

IsFulfilled-of_Stage : (job : JobRecord) → Stage job → job.state ≡ completed → IsFulfilled job
IsFulfilled-of_Stage job (at_completed m r t s d j k h) e =
    let (score, weights, no_failure) = receipt_passed r j.valid k in
    record {
      score = score;
      weights = weights;
      no_failure = no_failure;
      staff = t;
      manifest = m;
      receipt = r;
      delivered = d;
      judged = j;
      passed = k;
      path = h;
    }
IsFulfilled-of_Stage job (at_created s f p v d j h) e = absurd (ground arith)
IsFulfilled-of_Stage job (at_funded r s f p v n d j h) e = absurd (ground arith)
IsFulfilled-of_Stage job (at_assigned t s d j h) e = absurd (ground arith)
IsFulfilled-of_Stage job (at_submitted m t s d j h) e = absurd (ground arith)
IsFulfilled-of_Stage job (at_rejected m r t s d j k h) e = absurd (ground arith)

-- A job that calls lead to and that is completed was funded with the token and amount of its budget,
-- has a provider and an evaluator, was delivered by its deadline for its own request, was judged by
-- its own evaluator as passed, on that deliverable, with at least 90 points, which are the weights of
-- the passed checks, and no critical check failed, and went through the six states in order.
pub completed-IsFulfilled :
    {host : Host} {s : Adapter} (id : Text) {job : JobRecord}
    → Reached host s
    → lookup id s.jobs ≡ some job
    → job.state ≡ completed
    → IsFulfilled job
completed-IsFulfilled {s} id {job} r found done =
    IsFulfilled-of_Stage job (Stored-at id s (reached-AllStored r) found).1 done

-- A call that throws leaves the store as it was, although a step changes the stored job in place and
-- what it has changed stays after a throw.
pub failed_unchanged :
    (host : Host) (c : Call) (s : Adapter) {e : CommerceError} {s' : Adapter}
    → run host c s ≡ (err e, s')
    → s' ≡ s
failed_unchanged host c s {e} {s'} failed = go (run-Ran host c s)
  where
    go : Ran host c s (run host c s) → s' ≡ s
    go (ran_failed e' same) = ground arith
    go (ran_step id job job' found step same) = ground arith
    go (ran_new envelope asked valid new same) = ground arith

-- A call that returns a job changes no other job.
pub others_unchanged :
    (host : Host) (c : Call) (s : Adapter) {job : JobRecord} {s' : Adapter} (id : Text)
    → AllStored s
    → run host c s ≡ (ok job, s')
    → id ≢ job.job_id
    → lookup id s'.jobs ≡ lookup id s.jobs
others_unchanged host c s {job} {s'} id all made other = go (run-Ran host c s)
  where
    go : Ran host c s (run host c s) → lookup id s'.jobs ≡ lookup id s.jobs
    go (ran_failed e' same) = ground arith
    go (ran_step j before after found step same) =
        let made_job : job ≡ after = ground arith in
        let made_store : s'.jobs ≡ insert j after s.jobs = ground arith in
        let key : after.job_id ≡ j = JobStep-id before after step ∙ (Stored-at j s all found).0 in
        rw
          (made_store, lookup-insert_ne id j after s.jobs (λ h. other (rw (made_job, key, h) refl)))
          refl
    go (ran_new envelope asked valid new same) =
        let made_job : job ≡ new_job host envelope = ground arith in
        let made_store : s'.jobs
            ≡ insert (new_job host envelope).job_id (new_job host envelope) s.jobs =
          ground arith in
        rw
          (
            made_store,
            lookup-insert_ne id (new_job host envelope).job_id (new_job host envelope) s.jobs
                (λ h. other (rw (made_job, h) refl)),
          )
          refl
