-- ===== src/Runner/Jobs.antt =====
-- `LocalRunner` of src/dfir_workbench/local_runner.py: its jobs and registrations, and every
-- operation on them. The corpus (`_manifest_row`) and the workflow that processes a fixture are
-- parameters, as are fresh ids. An operation answers with the runner as it is afterwards, also where
-- it raises. The directories of the jobs, which the workflows use alone, are left out.
use dfir_evidence_workbench.Base.{
  ℕ, suc, ◌==◌, String, Bool, true, false, Option, none, some, List, [], ◌∷◌, ◌++◌, length,
  if◌then◌else◌,
}
use dfir_evidence_workbench.Base.Dict.{Dict, get, put, remove, string_eq}
use dfir_evidence_workbench.Base.Result.{Result, ok, err}

pub data Status : Type 0 where
  processing ready_for_review error approved quarantined : Status

pub data Decision : Type 0 where
  approve quarantine : Decision

-- a row of the corpus manifest
pub record Row : Type 0 where
  pub class : String
  pub scenario : String
  pub sha256 : String
  pub relative_path : String

pub record JobError : Type 0 where
  pub code : String
  pub message : String
  pub retryable : Bool

pub record Provenance : Type 0 where
  pub tenant_id : String
  pub source_sha256 : String
  pub source_path : String

-- Below the job's directory, or below its `staging`.
pub data ManifestPath : Type 0 where
  in_work in_staging : ManifestPath

pub record Job : Type 0 where
  pub job_id : String
  pub tenant_id : String
  pub fixture_id : String
  pub status : Status
  pub progress : ℕ
  pub attempt : ℕ
  pub provenance : Provenance
  pub result : Option String
  pub manifest_path : Option ManifestPath
  pub job_error : Option JobError
  pub job_review : Option Decision

pub record Registration : Type 0 where
  pub registration_id : String
  pub fixture : String
  pub row_class : String
  pub row_scenario : String
  pub row_sha256 : String

pub record Runner : Type 0 where
  pub jobs : Dict String Job
  pub registrations : Dict String (List Registration)

pub data RunnerError : Type 0 where
  key_error bad_decision not_ready corpus_error : RunnerError

-- The corpus, and what the workflow of a row answers or raises.
pub record Workflows : Type 0 where
  pub manifest_row : String → Option Row
  pub process : Row → Result JobError String

abbrev pub Outcome : Type 0 → Type 0
Outcome A = Result RunnerError A × Runner

-- What `_run_job` updates in the job.
unfoldable pub finished : Row → Result JobError String → Job → Job
finished row (ok r) job = record job {
  status = ready_for_review;
  progress = 100;
  result = some r;
  manifest_path = some (if row.class == "disk" then in_work else in_staging);
}
finished row (err e) job = record job { status = error; progress = 100; job_error = some e }

abbrev pub run_job : Workflows → Row → Job → Job
run_job w row job = finished row (w.process row) job

-- `public`: the job without its tenant and directory
pub record PublicJob : Type 0 where
  pub id : String
  pub fixture : String
  pub status : Status
  pub progress : ℕ
  pub attempt : ℕ
  pub provenance : Provenance
  pub result : Option String
  pub manifest_path : Option ManifestPath
  pub failure : Option JobError
  pub decision : Option Decision

unfoldable pub public : Job → PublicJob
public job = record {
  id = job.job_id;
  fixture = job.fixture_id;
  status = job.status;
  progress = job.progress;
  attempt = job.attempt;
  provenance = job.provenance;
  result = job.result;
  manifest_path = job.manifest_path;
  failure = job.job_error;
  decision = job.job_review;
}

abbrev pub save : Runner → Job → Runner
save runner job = record runner { jobs = put runner.jobs job.job_id job }

abbrev or_empty : Option (List Registration) → List Registration
or_empty none = []
or_empty (some rs) = rs

-- `self.jobs.get(job_id)`, if it is the tenant's
unfoldable pub owned_job : String → Option Job → Option Job
owned_job tenant none = none
owned_job tenant (some job) = if job.tenant_id == tenant then some job else none

abbrev pub own : Runner → String → String → Option Job
own runner tenant job_id = owned_job tenant (get runner.jobs job_id)

unfoldable pub fetched : Option Job → Result RunnerError PublicJob
fetched none = err key_error
fetched (some job) = ok (public job)

unfoldable pub fetch : Runner → (tenant job_id : String) → Result RunnerError PublicJob
fetch runner tenant job_id = fetched (own runner tenant job_id)

unfoldable pub decision_of : String → Option Decision
decision_of d =
    if d == "approve" then some approve else if d == "quarantine" then some quarantine else none

abbrev pub is_ready : Status → Bool
is_ready ready_for_review = true
is_ready _ = false

abbrev pub status_after : Decision → Status
status_after approve = approved
status_after quarantine = quarantined

abbrev pub decided : Decision → Job → Job
decided d job = record job { status = status_after d; job_review = some d }

unfoldable pub reviewed : Runner → Option Job → Option Decision → Outcome PublicJob
reviewed runner none d = (err key_error, runner)
reviewed runner (some job) none = (err bad_decision, runner)
reviewed runner (some job) (some d) =
    if is_ready job.status
    then (ok (public (decided d job)), save runner (decided d job))
    else (err not_ready, runner)

unfoldable pub review : Runner → (tenant job_id decision : String) → Outcome PublicJob
review runner tenant job_id decision =
    reviewed runner (own runner tenant job_id) (decision_of decision)

abbrev pub can_retry : Status → Bool
can_retry error = true
can_retry quarantined = true
can_retry _ = false

abbrev pub restarted : Job → Job
restarted job = record job {
  result = none;
  job_error = none;
  job_review = none;
  status = processing;
  progress = 10;
}

abbrev pub new_job : (tenant fixture drawn : String) → Row → Job
new_job tenant fixture drawn row = record {
  job_id = drawn;
  tenant_id = tenant;
  fixture_id = fixture;
  status = processing;
  progress = 10;
  attempt = 1;
  provenance = record {
    tenant_id = tenant;
    source_sha256 = row.sha256;
    source_path = row.relative_path;
  };
  result = none;
  manifest_path = none;
  job_error = none;
  job_review = none;
}

module _ (w : Workflows) where
  unfoldable pub registered :
      Runner → (tenant fixture drawn : String) → Option Row → Outcome Registration
  registered runner tenant fixture drawn none = (err corpus_error, runner)
  registered runner tenant fixture drawn (some row) =
      let item : Registration = record {
        registration_id = drawn;
        fixture = fixture;
        row_class = row.class;
        row_scenario = row.scenario;
        row_sha256 = row.sha256;
      } in
      (
        ok item,
        record runner {
          registrations =
              put runner.registrations tenant
                (or_empty (get runner.registrations tenant) ++ (item ∷ []));
        },
      )

  unfoldable pub register : Runner → (tenant fixture drawn : String) → Outcome Registration
  register runner tenant fixture drawn =
      registered runner tenant fixture drawn (w.manifest_row fixture)

  unfoldable pub submitted :
      Runner → (tenant fixture drawn : String) → Option Row → Outcome PublicJob
  submitted runner tenant fixture drawn none = (err corpus_error, runner)
  submitted runner tenant fixture drawn (some row) =
      let job = run_job w row (new_job tenant fixture drawn row) in
      (ok (public job), save runner job)

  unfoldable pub submit : Runner → (tenant fixture drawn : String) → Outcome PublicJob
  submit runner tenant fixture drawn =
      submitted runner tenant fixture drawn (w.manifest_row fixture)

  -- After the attempt was counted. Without a row the job keeps its status.
  unfoldable pub rerun : Runner → Job → Option Row → Outcome PublicJob
  rerun runner job none = (err corpus_error, save runner job)
  rerun runner job (some row) =
      let job' = run_job w row (restarted job) in (ok (public job'), save runner job')

  unfoldable pub retried : Runner → Option Job → Outcome PublicJob
  retried runner none = (err key_error, runner)
  retried runner (some job) =
      if can_retry job.status
      then rerun runner record job { attempt = suc job.attempt } (w.manifest_row job.fixture_id)
      else (err key_error, runner)

  unfoldable pub retry : Runner → (tenant job_id : String) → Outcome PublicJob
  retry runner tenant job_id = retried runner (own runner tenant job_id)

-- `teardown` collects the ids of the tenant's jobs and then removes them one by one.
unfoldable pub tenant_jobs : String → Dict String Job → List String
tenant_jobs tenant [] = []
tenant_jobs tenant ((id, job) ∷ jobs) =
    let rest = tenant_jobs tenant jobs in
    if job.provenance.tenant_id == tenant then id ∷ rest else rest

unfoldable pub remove_all : List String → Dict String Job → Dict String Job
remove_all [] jobs = jobs
remove_all (id ∷ ids) jobs = remove_all ids (remove jobs id)

-- the number of jobs removed, and the runner without them
unfoldable pub teardown : Runner → String → ℕ × Runner
unfolding tenant_jobs remove_all
teardown runner tenant =
    let ids = tenant_jobs tenant runner.jobs in
    (
      length ids,
      record {
        jobs = remove_all ids runner.jobs;
        registrations = remove runner.registrations tenant;
      },
    )

pub data Call : Type 0 where
  register_call submit_call : (tenant fixture drawn : String) → Call
  review_call : (tenant job_id decision : String) → Call
  retry_call : (tenant job_id : String) → Call
  teardown_call : (tenant : String) → Call

-- The runner after a call.
unfoldable pub serve : Workflows → Runner → Call → Runner
serve w runner (register_call tenant fixture drawn) = (register w runner tenant fixture drawn).1
serve w runner (submit_call tenant fixture drawn) = (submit w runner tenant fixture drawn).1
serve w runner (review_call tenant job_id decision) = (review runner tenant job_id decision).1
serve w runner (retry_call tenant job_id) = (retry w runner tenant job_id).1
serve w runner (teardown_call tenant) = (teardown runner tenant).1
