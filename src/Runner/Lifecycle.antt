-- ===== src/Runner/Lifecycle.antt =====
-- What the operations of src/dfir_workbench/local_runner.py do to the jobs.
use mathlib.Core.Path.{subst}
use mathlib.Core.Option.{some-injective}
use dfir_evidence_workbench.Base.{
  ◌==◌, ◌≡◌, refl, sym, ap, ◌∙◌, String, Bool, true, false, ◌&&◌, Option, none, some, if◌then◌else◌,
  eq_iff,
}
use dfir_evidence_workbench.Base.Dict.{get, string_eq, get-put, IsDistinct, put-IsDistinct}
use dfir_evidence_workbench.Base.Result.{Result, ok, err}
use dfir_evidence_workbench.Runner.Jobs.{
  Status, processing, ready_for_review, error, approved, quarantined, Decision, approve, quarantine,
  Row, JobError, Job, Runner, finished, owned_job, own, save, is_ready, decided, status_after,
}

-- The status, the result, the error and the review of a job fit each other; between calls no job
-- is processing.
abbrev pub coherent : Status → Option String → Option JobError → Option Decision → Bool
coherent ready_for_review (some r) none none = true
coherent error none (some e) none = true
coherent approved (some r) none (some approve) = true
coherent quarantined (some r) none (some quarantine) = true
coherent _ _ _ _ = false

pub record IsSound (id : String) (job : Job) : Type 0 where
  pub coherence : coherent job.status job.result job.job_error job.job_review ≡ true
  pub key : job.job_id ≡ id
  pub owner : job.tenant_id ≡ job.provenance.tenant_id

-- Job ids are unique, and every job is found under its own id and is sound.
pub record IsConsistent (runner : Runner) : Type 0 where
  pub distinct : IsDistinct runner.jobs
  pub sound : (id : String) (job : Job) → get runner.jobs id ≡ some job → IsSound id job

pub finished-IsSound :
    (id : String) (row : Row) (r : Result JobError String) (job : Job)
    → job.job_id ≡ id
    → job.tenant_id ≡ job.provenance.tenant_id
    → job.result ≡ none
    → job.job_error ≡ none
    → job.job_review ≡ none
    → IsSound id (finished row r job)
unfolding finished
finished-IsSound id row (ok x) job k t r e v = record {
  coherence = rw (e, v) refl;
  key = k;
  owner = t;
}
finished-IsSound id row (err x) job k t r e v = record {
  coherence = rw (r, v) refl;
  key = k;
  owner = t;
}

pub finished-job_id :
    (row : Row) (r : Result JobError String) (job : Job) → (finished row r job).job_id ≡ job.job_id
unfolding finished
finished-job_id row (ok x) job = refl
finished-job_id row (err x) job = refl

pub decided-IsSound :
    (id : String) (d : Decision) (job : Job)
    → is_ready job.status ≡ true
    → IsSound id job
    → IsSound id (decided d job)
decided-IsSound id d job h s = record {
  coherence = fits job.status job.result job.job_error job.job_review d h s.coherence;
  key = s.key;
  owner = s.owner;
}
  where
    fits :
        (st : Status) (r : Option String) (e : Option JobError) (v : Option Decision) (d : Decision)
        → is_ready st ≡ true
        → coherent st r e v ≡ true
        → coherent (status_after d) r e (some d) ≡ true
    fits ready_for_review (some r) none none approve h c = refl
    fits ready_for_review (some r) none none quarantine h c = refl
    fits ready_for_review (some r) none (some v) d h c = cc
    fits ready_for_review (some r) (some e) v d h c = cc
    fits ready_for_review none e v d h c = cc
    fits processing r e v d h c = cc
    fits error r e v d h c = cc
    fits approved r e v d h c = cc
    fits quarantined r e v d h c = cc

pub save-IsConsistent :
    (runner : Runner) (job : Job)
    → IsSound job.job_id job
    → IsConsistent runner
    → IsConsistent (save runner job)
save-IsConsistent runner job s c = record {
  distinct = put-IsDistinct runner.jobs job.job_id job c.distinct;
  sound = λ id found e.
      at id found (job.job_id == id) refl (sym (get-put runner.jobs job.job_id id job) ∙ e);
}
  where
    at :
        (id : String) (found : Job) (b : Bool)
        → (job.job_id == id) ≡ b
        → (if b then some job else get runner.jobs id) ≡ some found
        → IsSound id found
    at id found true h e =
        subst (IsSound id) (some-injective job found e)
          (subst (λ i. IsSound i job) ((eq_iff job.job_id id).0 h) s)
    at id found false h e = c.sound id found e

-- The jobs that an operation on `job_id` for `tenant` may change, if it wants them in certain states.
abbrev pub touched : (job_id tenant : String) → (Status → Bool) → String → Job → Bool
touched job_id tenant from id job = job_id == id && (job.tenant_id == tenant && from job.status)

module _ (runner : Runner) (c : IsConsistent runner) where
  pub own-eq-some :
      (tenant job_id : String) (j : Job)
      → own runner tenant job_id ≡ some j
      → (get runner.jobs job_id ≡ some j) × ((j.tenant_id == tenant) ≡ true)
  unfolding owned_job
  own-eq-some tenant job_id j h = at (get runner.jobs job_id) refl h
    where
      found :
          (k : Job) (b : Bool)
          → (k.tenant_id == tenant) ≡ b
          → get runner.jobs job_id ≡ some k
          → (if b then some k else none) ≡ some j
          → (get runner.jobs job_id ≡ some j) × ((j.tenant_id == tenant) ≡ true)
      found k true t e h =
          let same = some-injective k j h in
          (e ∙ ap some same, subst (λ x. (x.tenant_id == tenant) ≡ true) same t)
      found k false t e h = cc

      at :
          (o : Option Job)
          → get runner.jobs job_id ≡ o
          → owned_job tenant o ≡ some j
          → (get runner.jobs job_id ≡ some j) × ((j.tenant_id == tenant) ≡ true)
      at none e h = cc
      at (some k) e h = found k (k.tenant_id == tenant) refl e h

  -- An operation on a job that it may change leaves each job it does not touch alone.
  pub untouched :
      (tenant job_id : String) (from : Status → Bool) (j : Job) (id : String) (job : Job)
      → own runner tenant job_id ≡ some j
      → from j.status ≡ true
      → get runner.jobs id ≡ some job
      → touched job_id tenant from id job ≡ false
      → (j.job_id == id) ≡ false
  untouched tenant job_id from j id job h f e t = at (job_id == id) refl
    where
      o : (get runner.jobs job_id ≡ some j) × ((j.tenant_id == tenant) ≡ true)
      o = own-eq-some tenant job_id j h

      key : j.job_id ≡ job_id
      key = (c.sound job_id j (o.0)).key

      clash :
          (a b d : Bool)
          → a ≡ true
          → b ≡ true
          → d ≡ true
          → (a && (b && d)) ≡ false
          → (j.job_id == id) ≡ false
      clash true true true p q r h = cc
      clash false b d p q r h = cc
      clash true false d p q r h = cc
      clash true true false p q r h = cc

      at : (b : Bool) → (job_id == id) ≡ b → (j.job_id == id) ≡ false
      at false n = rw key n
      at true n =
          let same =
            some-injective j job (sym (o.0) ∙ ap (get runner.jobs) ((eq_iff job_id id).0 n) ∙ e) in
          clash (job_id == id) (job.tenant_id == tenant) (from job.status) n
            (subst (λ x. (x.tenant_id == tenant) ≡ true) same (o.1))
            (subst (λ x. from x.status ≡ true) same f) t

pub save_frame :
    (runner : Runner) (job : Job) (id : String)
    → (job.job_id == id) ≡ false
    → get (save runner job).jobs id ≡ get runner.jobs id
save_frame runner job id h = rw (get-put, h) refl
