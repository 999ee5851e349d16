-- ===== src/Runner/History.antt =====
-- Jobs of src/dfir_workbench/local_runner.py over whole sequences of calls.
use dfir_evidence_workbench.Base.{
  ◌==◌, ◌≡◌, refl, sym, ap, ◌∙◌, String, Bool, true, false, not, ◌&&◌, Option, none, some, List, [],
  ◌∷◌, arith, if◌then◌else◌, all,
}
use dfir_evidence_workbench.Base.Dict.{get, string_eq}
use dfir_evidence_workbench.Base.Result.{err}
use dfir_evidence_workbench.Runner.Jobs.{
  approved, Job, Runner, key_error, Workflows, owned_job, fetch, fetched, teardown, Call,
  register_call, submit_call, review_call, retry_call, teardown_call, serve,
}
use dfir_evidence_workbench.Runner.Teardown.{get-teardown, owner_is}
use dfir_evidence_workbench.Runner.Lifecycle.{IsConsistent}
use dfir_evidence_workbench.Runner.Calls.{affects, serve-IsConsistent, serve_frame}

unfoldable pub serve_all : Workflows → Runner → List Call → Runner
serve_all w runner [] = runner
serve_all w runner (call ∷ calls) = serve_all w (serve w runner call) calls

-- Calls for other tenants, which draw other ids.
unfoldable pub is_foreign : String → String → Call → Bool
is_foreign tenant id (register_call t f drawn) = not (tenant == t)
is_foreign tenant id (submit_call t f drawn) = not (tenant == t) && not (drawn == id)
is_foreign tenant id (review_call t j d) = not (tenant == t)
is_foreign tenant id (retry_call t j) = not (tenant == t)
is_foreign tenant id (teardown_call t) = not (tenant == t)

-- Calls of anyone but a teardown of the tenant or a submission that draws the id.
unfoldable pub spares : String → String → Call → Bool
spares tenant id (register_call t f drawn) = true
spares tenant id (submit_call t f drawn) = not (drawn == id)
spares tenant id (review_call t j d) = true
spares tenant id (retry_call t j) = true
spares tenant id (teardown_call t) = not (tenant == t)

is_foreign-affects :
    (call : Call) (id : String) (job : Job)
    → is_foreign job.tenant_id id call ≡ true
    → affects call id job ≡ false
unfolding is_foreign
is_foreign-affects (register_call t f drawn) id job h = refl
is_foreign-affects (submit_call t f drawn) id job h = ground arith
is_foreign-affects (review_call t j d) id job h = ground arith
is_foreign-affects (retry_call t j) id job h = ground arith
is_foreign-affects (teardown_call t) id job h = ground arith

spares-affects :
    (call : Call) (id : String) (job : Job)
    → job.status ≡ approved
    → spares job.tenant_id id call ≡ true
    → affects call id job ≡ false
unfolding spares
spares-affects (register_call t f drawn) id job a h = refl
spares-affects (submit_call t f drawn) id job a h = ground arith
spares-affects (review_call t j d) id job a h = rw a (ground arith)
spares-affects (retry_call t j) id job a h = rw a (ground arith)
spares-affects (teardown_call t) id job a h = ground arith

module _ (w : Workflows) where
  -- Whatever the calls, job ids stay unique, every job is found under its own id, and its status,
  -- result, error and review fit each other: if this holds before, it holds after.
  pub serve_all-IsConsistent :
      (runner : Runner) (calls : List Call)
      → IsConsistent runner
      → IsConsistent (serve_all w runner calls)
  unfolding serve_all
  serve_all-IsConsistent runner [] c = c
  serve_all-IsConsistent runner (call ∷ calls) c =
      serve_all-IsConsistent (serve w runner call) calls (serve-IsConsistent w runner c call)

  serve_all_frame :
      (runner : Runner) (calls : List Call) (id : String) (job : Job) (test : Call → Bool)
      → ((call : Call) → test call ≡ true → affects call id job ≡ false)
      → IsConsistent runner
      → get runner.jobs id ≡ some job
      → all test calls ≡ true
      → get (serve_all w runner calls).jobs id ≡ some job
  unfolding serve_all
  serve_all_frame runner [] id job test safe c e h = e
  serve_all_frame runner (call ∷ calls) id job test safe c e h =
      let tests = both (test call) (all test calls) h in
      serve_all_frame (serve w runner call) calls id job test safe
        (serve-IsConsistent w runner c call)
        (serve_frame w runner c call id job e (safe call (tests.0))) (tests.1)
    where
      both : (a b : Bool) → (a && b) ≡ true → (a ≡ true) × (b ≡ true)
      both true b h = (refl, h)
      both false b h = cc

  -- In a consistent runner, calls for other tenants leave a job as it is, if none of them draws its
  -- id.
  pub foreign_calls_keep_jobs :
      (runner : Runner) (calls : List Call) (id : String) (job : Job)
      → IsConsistent runner
      → get runner.jobs id ≡ some job
      → all (is_foreign job.tenant_id id) calls ≡ true
      → get (serve_all w runner calls).jobs id ≡ some job
  foreign_calls_keep_jobs runner calls id job =
      serve_all_frame runner calls id job (is_foreign job.tenant_id id)
        (λ call. is_foreign-affects call id job)

  -- In a consistent runner, an approved job stays as it is, whoever calls for what, until its tenant
  -- is torn down or a submission draws its id.
  pub approval_is_final :
      (runner : Runner) (calls : List Call) (id : String) (job : Job)
      → IsConsistent runner
      → get runner.jobs id ≡ some job
      → job.status ≡ approved
      → all (spares job.tenant_id id) calls ≡ true
      → get (serve_all w runner calls).jobs id ≡ some job
  approval_is_final runner calls id job c e a =
      serve_all_frame runner calls id job (spares job.tenant_id id)
        (λ call. spares-affects call id job a) c e

-- After a teardown in a consistent runner, the tenant finds none of its jobs, under any id.
fetch-teardown :
    (runner : Runner) (tenant id : String)
    → IsConsistent runner
    → fetch (teardown runner tenant).1 tenant id ≡ err key_error
unfolding fetch owned_job fetched
fetch-teardown runner tenant id c =
    ap (λ o. fetched (owned_job tenant o)) (get-teardown runner tenant id c.distinct)
    ∙ at (get runner.jobs id) refl
  where
    found :
        (job : Job) (b : Bool)
        → (job.tenant_id == tenant) ≡ b
        → (job.provenance.tenant_id == tenant) ≡ b
        → fetched (owned_job tenant (if owner_is tenant (some job) then none else some job))
          ≡ err key_error
    found job true h p = rw p refl
    found job false h p = rw (p, h) refl

    at :
        (o : Option Job)
        → get runner.jobs id ≡ o
        → fetched (owned_job tenant (if owner_is tenant o then none else o)) ≡ err key_error
    at none e = refl
    at (some job) e =
        found job (job.tenant_id == tenant) refl
          (ap (λ t. t == tenant) (sym (c.sound id job e).owner))
