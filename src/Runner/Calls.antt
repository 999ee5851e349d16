-- ===== src/Runner/Calls.antt =====
-- Every call of src/dfir_workbench/local_runner.py keeps the jobs consistent and touches only the
-- jobs that it is about.
use mathlib.Core.Path.{subst}
use dfir_evidence_workbench.Base.{
  suc, ◌==◌, ◌≡◌, refl, sym, ap, ◌∙◌, String, Bool, true, false, Option, none, some, if◌then◌else◌,
}
use dfir_evidence_workbench.Base.Dict.{get, string_eq, IsDistinct}
use dfir_evidence_workbench.Runner.Jobs.{
  Status, Decision, Row, Job, Runner, Workflows, own, save, run_job, new_job, submitted, submit,
  decision_of, is_ready, decided, reviewed, review, can_retry, restarted, rerun, retried, retry,
  teardown, register, registered, Call, register_call, submit_call, review_call, retry_call,
  teardown_call, serve,
}
use dfir_evidence_workbench.Runner.Teardown.{get-teardown, teardown-IsDistinct, owner_is}
use dfir_evidence_workbench.Runner.Lifecycle.{
  IsSound, IsConsistent, finished-IsSound, finished-job_id, decided-IsSound, save-IsConsistent,
  touched, own-eq-some, untouched, save_frame,
}

-- The calls that may change a job: a submission that draws its id, a review of it while it is ready,
-- a retry of it after an error or a quarantine, and the teardown of its tenant.
abbrev pub affects : Call → String → Job → Bool
affects (register_call tenant fixture drawn) id job = false
affects (submit_call tenant fixture drawn) id job = drawn == id
affects (review_call tenant job_id d) id job = touched job_id tenant is_ready id job
affects (retry_call tenant job_id) id job = touched job_id tenant can_retry id job
affects (teardown_call tenant) id job = job.tenant_id == tenant

module _ (w : Workflows) (runner : Runner) (c : IsConsistent runner) where
  registered-jobs :
      (tenant fixture drawn : String) (o : Option Row)
      → (registered w runner tenant fixture drawn o).1.jobs ≡ runner.jobs
  unfolding registered
  registered-jobs tenant fixture drawn none = refl
  registered-jobs tenant fixture drawn (some row) = refl

  -- What an operation on an own job may do: nothing, or save a sound version of that job.
  data Effect (tenant job_id : String) (from : Status → Bool) : Runner → Type 0 where
    nothing : Effect tenant job_id from runner
    saved :
        (j j' : Job)
        → own runner tenant job_id ≡ some j
        → from j.status ≡ true
        → j'.job_id ≡ j.job_id
        → IsSound j'.job_id j'
        → Effect tenant job_id from (save runner j')

  Effect-IsConsistent :
      {tenant job_id : String} {from : Status → Bool} {r : Runner}
      → Effect tenant job_id from r
      → IsConsistent r
  Effect-IsConsistent nothing = c
  Effect-IsConsistent (saved j j' o f k s) = save-IsConsistent runner j' s c

  Effect-keeps :
      {tenant job_id : String} {from : Status → Bool} {r : Runner} (id : String) (job : Job)
      → Effect tenant job_id from r
      → get runner.jobs id ≡ some job
      → touched job_id tenant from id job ≡ false
      → get r.jobs id ≡ some job
  Effect-keeps id job nothing e t = e
  Effect-keeps {tenant} {job_id} {from} id job (saved j j' o f k s) e t =
      save_frame runner j' id (rw k (untouched runner c tenant job_id from j id job o f e t)) ∙ e

  own-IsSound :
      (tenant job_id : String) (j : Job) → own runner tenant job_id ≡ some j → IsSound j.job_id j
  own-IsSound tenant job_id j o =
      let s = c.sound job_id j ((own-eq-some runner c tenant job_id j o).0) in
      subst (λ i. IsSound i j) (sym s.key) s

  review-Effect :
      (tenant job_id d : String) → Effect tenant job_id is_ready (review runner tenant job_id d).1
  unfolding review reviewed
  review-Effect tenant job_id d = at (own runner tenant job_id) refl (decision_of d)
    where
      ready :
          (j : Job) (v : Decision) (b : Bool)
          → own runner tenant job_id ≡ some j
          → is_ready j.status ≡ b
          → Effect tenant job_id is_ready (reviewed runner (some j) (some v)).1
      ready j v true o h = rw h (
          saved j (decided v j) o h refl
            (decided-IsSound j.job_id v j h (own-IsSound tenant job_id j o)))
      ready j v false o h = rw h nothing

      at :
          (o : Option Job)
          → own runner tenant job_id ≡ o
          → (v : Option Decision) → Effect tenant job_id is_ready (reviewed runner o v).1
      at none e v = nothing
      at (some j) e none = nothing
      at (some j) e (some v) = ready j v (is_ready j.status) e refl

  retry-Effect :
      (tenant job_id : String) → Effect tenant job_id can_retry (retry w runner tenant job_id).1
  unfolding retry retried rerun
  retry-Effect tenant job_id = at (own runner tenant job_id) refl
    where
      counted : Job → Job
      counted j = record j { attempt = suc j.attempt }

      again :
          (j : Job) (o : Option Row)
          → own runner tenant job_id ≡ some j
          → can_retry j.status ≡ true
          → Effect tenant job_id can_retry (rerun w runner record j { attempt = suc j.attempt } o).1
      again j none o h =
          let s = own-IsSound tenant job_id j o in
          saved j record j { attempt = suc j.attempt } o h refl
            (record { coherence = s.coherence; key = refl; owner = s.owner })
      again j (some row) o h =
          let s = own-IsSound tenant job_id j o in
          let j' = restarted record j { attempt = suc j.attempt } in
          let key = finished-job_id row (w.process row) j' in
          saved j (run_job w row j') o h key
            (finished-IsSound _ row (w.process row) j' (sym key) s.owner refl refl refl)

      ready :
          (j : Job) (b : Bool)
          → own runner tenant job_id ≡ some j
          → can_retry j.status ≡ b
          → Effect tenant job_id can_retry (retried w runner (some j)).1
      ready j true o h = rw h (again j (w.manifest_row j.fixture_id) o h)
      ready j false o h = rw h nothing

      at :
          (o : Option Job)
          → own runner tenant job_id ≡ o
          → Effect tenant job_id can_retry (retried w runner o).1
      at none e = nothing
      at (some j) e = ready j (can_retry j.status) e refl

  submitted-IsConsistent :
      (tenant fixture drawn : String) (o : Option Row)
      → IsConsistent (submitted w runner tenant fixture drawn o).1
  unfolding submitted
  submitted-IsConsistent tenant fixture drawn none = c
  submitted-IsConsistent tenant fixture drawn (some row) =
      let j = new_job tenant fixture drawn row in
      let key = finished-job_id row (w.process row) j in
      save-IsConsistent runner (run_job w row j)
        (finished-IsSound _ row (w.process row) j (sym key) refl refl refl refl) c

  submitted_frame :
      (tenant fixture drawn : String) (o : Option Row) (id : String)
      → (drawn == id) ≡ false
      → get (submitted w runner tenant fixture drawn o).1.jobs id ≡ get runner.jobs id
  unfolding submitted
  submitted_frame tenant fixture drawn none id h = refl
  submitted_frame tenant fixture drawn (some row) id h =
      let j = new_job tenant fixture drawn row in
      save_frame runner (run_job w row j) id (rw (finished-job_id row (w.process row) j, h) refl)

  teardown-IsConsistent : (tenant : String) → IsConsistent (teardown runner tenant).1
  teardown-IsConsistent tenant = record {
    distinct = teardown-IsDistinct runner tenant c.distinct;
    sound = λ id job e.
        kept id job (owner_is tenant (get runner.jobs id))
          (sym (get-teardown runner tenant id c.distinct) ∙ e);
  }
    where
      kept :
          (id : String) (job : Job) (b : Bool)
          → (if b then none else get runner.jobs id) ≡ some job
          → IsSound id job
      kept id job true e = cc
      kept id job false e = c.sound id job e

  -- A call keeps the jobs consistent.
  pub serve-IsConsistent : (call : Call) → IsConsistent (serve w runner call)
  unfolding serve register submit
  serve-IsConsistent (register_call tenant fixture drawn) =
      let same = registered-jobs tenant fixture drawn (w.manifest_row fixture) in
      record {
        distinct = subst IsDistinct (sym same) c.distinct;
        sound = λ id job e. c.sound id job (sym (ap (λ d. get d id) same) ∙ e);
      }
  serve-IsConsistent (submit_call tenant fixture drawn) =
      submitted-IsConsistent tenant fixture drawn (w.manifest_row fixture)
  serve-IsConsistent (review_call tenant job_id d) =
      Effect-IsConsistent (review-Effect tenant job_id d)
  serve-IsConsistent (retry_call tenant job_id) = Effect-IsConsistent (retry-Effect tenant job_id)
  serve-IsConsistent (teardown_call tenant) = teardown-IsConsistent tenant

  pub serve_frame :
      (call : Call) (id : String) (job : Job)
      → get runner.jobs id ≡ some job
      → affects call id job ≡ false
      → get (serve w runner call).jobs id ≡ some job
  unfolding serve register submit
  serve_frame (register_call tenant fixture drawn) id job e h =
      ap (λ d. get d id) (registered-jobs tenant fixture drawn (w.manifest_row fixture)) ∙ e
  serve_frame (submit_call tenant fixture drawn) id job e h =
      submitted_frame tenant fixture drawn (w.manifest_row fixture) id h ∙ e
  serve_frame (review_call tenant job_id d) id job e h =
      Effect-keeps id job (review-Effect tenant job_id d) e h
  serve_frame (retry_call tenant job_id) id job e h =
      Effect-keeps id job (retry-Effect tenant job_id) e h
  serve_frame (teardown_call tenant) id job e h =
      get-teardown runner tenant id c.distinct ∙ rw (e, sym (c.sound id job e).owner, h) refl
