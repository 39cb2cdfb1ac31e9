-- ===== src/Commerce/Permanent.antt =====
-- A stored job stays stored, with what it committed to.
use positioncrew.Prelude.{
  ◌≡◌, ◌≢◌, refl, sym, ap, ◌∙◌, false, Option, none, some, Text, text_eq, text_eq_sound,
  text_eq_iff, arith, inl, inr, Bool-cases, All, All-imp,
}
use positioncrew.Prelude.Dict.{
  Dict, lookup, insert, lookup-insert_self, lookup-insert_ne, All-insert, All-lookup,
}
use positioncrew.Commerce.{JobEnvelope, JobRecord}
use positioncrew.Commerce.Adapter.{Host, Adapter, Outcome, truthy, job_id_of, new_job}
use positioncrew.Commerce.Store.{Call, creating, run, Ran, ran_failed, ran_step, ran_new, run-Ran}
use positioncrew.Commerce.Reached.{Reached, at_start, by_call}
use positioncrew.Commerce.Kept.{Keeps, Keeps-refl, JobStep-Keeps}

module _ (host : Host) where
  -- The id of a job is made from its envelope, and the idempotency key of the envelope leads to it.
  pub record IsRooted (idempotency : Dict Text) (id : Text) (job : JobRecord) : Type 0 where
    pub hash : job.envelope_hash ≡ host.hash_envelope job.envelope
    pub key : id ≡ job_id_of host job.envelope_hash
    pub entry : lookup job.envelope.idempotency_key idempotency ≡ some id

  abbrev AllRooted : Adapter → Type 0
  AllRooted s = All (λ (e : Text × JobRecord). IsRooted s.idempotency e.0 e.1) s.jobs

  truthy_of_id :
      (envelope_hash : Text) (o : Option Text)
      → o ≡ some (job_id_of host envelope_hash)
      → truthy o ≡ o
  truthy_of_id envelope_hash o h = rw h refl

  -- A new idempotency key is not the key of a stored job.
  other_key :
      (idempotency : Dict Text) (id : Text) (job : JobRecord) (key : Text)
      → IsRooted idempotency id job
      → truthy (lookup key idempotency) ≡ none
      → job.envelope.idempotency_key ≢ key
  other_key idempotency id job key r new same =
      let known : lookup key idempotency ≡ some id = rw (sym same) r.entry in
      let full = truthy_of_id job.envelope_hash (lookup key idempotency) (known ∙ ap some r.key) in
      absurd (ground arith)

  IsRooted-at :
      (id : Text) {job : JobRecord} (s : Adapter)
      → AllRooted s
      → lookup id s.jobs ≡ some job
      → IsRooted s.idempotency id job
  IsRooted-at id s all found =
      All-lookup (IsRooted s.idempotency) id s.jobs (λ j same h. rw (text_eq_sound id j same) h) all
        found

  put-IsRooted :
      (idempotency : Dict Text) (id : Text) (job : JobRecord) (d : Dict JobRecord)
      → IsRooted idempotency id job
      → All (λ (e : Text × JobRecord). IsRooted idempotency e.0 e.1) d
      → All (λ (e : Text × JobRecord). IsRooted idempotency e.0 e.1) (insert id job d)
  put-IsRooted idempotency id job d r all =
      All-insert (IsRooted idempotency) id job d (λ j same. rw (sym (text_eq_sound id j same)) r) r
        all

  Ran-AllRooted :
      {c : Call} (s : Adapter) (result : Outcome × Adapter)
      → AllRooted s
      → Ran host c s result
      → AllRooted result.1
  Ran-AllRooted s result all (ran_failed e same) = rw same all
  Ran-AllRooted s result all (ran_step id job job' found step same) =
      let r = IsRooted-at id s all found in
      let k = JobStep-Keeps job job' step in
      let r' : IsRooted s.idempotency id job' = record {
        hash = rw (k.envelope, k.envelope_hash) r.hash;
        key = rw k.envelope_hash r.key;
        entry = rw k.envelope r.entry;
      } in
      rw same (put-IsRooted s.idempotency id job' s.jobs r' all)
  Ran-AllRooted s result all (ran_new envelope asked valid new same) =
      let job = new_job host envelope in
      let idempotency = insert envelope.idempotency_key job.job_id s.idempotency in
      let kept : All (λ (e : Text × JobRecord). IsRooted idempotency e.0 e.1) s.jobs =
        All-imp _ _ s.jobs
          (λ e r. record {
            hash = r.hash;
            key = r.key;
            entry =
                lookup-insert_ne e.1.envelope.idempotency_key envelope.idempotency_key job.job_id
                  s.idempotency (other_key s.idempotency e.0 e.1 envelope.idempotency_key r new)
                ∙ r.entry;
          })
          all in
      let r : IsRooted idempotency job.job_id job = record {
        hash = refl;
        key = refl;
        entry = lookup-insert_self envelope.idempotency_key job.job_id s.idempotency;
      } in
      rw same (put-IsRooted idempotency job.job_id job s.jobs r kept)

  reached-AllRooted : {s : Adapter} → Reached host s → AllRooted s
  reached-AllRooted at_start = tt
  reached-AllRooted (by_call c {s} r) =
      Ran-AllRooted s (run host c s) (reached-AllRooted r) (run-Ran host c s)

  -- After any call, a stored job is stored under the same id, with the same envelope, with every
  -- receipt and every name that it had, and with its history extended at most, if the call creates no
  -- job whose id, from the hash of another envelope, is the same.
  pub call-Keeps :
      (c : Call) {s : Adapter} (id : Text) {job : JobRecord}
      → Reached host s
      → lookup id s.jobs ≡ some job
      → ((envelope : JobEnvelope)
          → c ≡ creating envelope
          → job_id_of host (host.hash_envelope envelope) ≡ id
          → envelope ≡ job.envelope)
      → (job' : JobRecord) × (lookup id (run host c s).1.jobs ≡ some job') × Keeps job job'
  call-Keeps c {s} id {job} r found no_collision = go (run-Ran host c s)
    where
      unmoved :
          (j : Text) (after : JobRecord)
          → text_eq id j ≡ false
          → lookup id (insert j after s.jobs) ≡ some job
      unmoved j after other =
          lookup-insert_ne id j after s.jobs
            (λ h. let g = text_eq_iff id j in absurd (ground arith))
          ∙ found

      go :
          Ran host c s (run host c s)
          → (job' : JobRecord) × (lookup id (run host c s).1.jobs ≡ some job') × Keeps job job'
      go (ran_failed e same) = (job, rw same found, Keeps-refl job)
      go (ran_step j before after there step same) = elim (Bool-cases (text_eq id j)) [
        | inl same_id ↦
            let i = text_eq_sound id j same_id in
            let first : job ≡ before = ground arith in
            (
              after,
              rw (same, i) (lookup-insert_self j after s.jobs),
              rw first (JobStep-Keeps before after step),
            )
        | inr other ↦ (job, rw same (unmoved j after other), Keeps-refl job)
      ]
      go (ran_new envelope asked valid new same) =
          let fresh = new_job host envelope in
          elim (Bool-cases (text_eq id fresh.job_id)) [
            | inl same_id ↦
                let own =
                  no_collision envelope asked (sym (text_eq_sound id fresh.job_id same_id)) in
                let root = IsRooted-at id s (reached-AllRooted r) found in
                absurd
                  (other_key s.idempotency id job envelope.idempotency_key root new (rw own refl))
            | inr other ↦ (job, rw same (unmoved fresh.job_id fresh other), Keeps-refl job)
          ]
