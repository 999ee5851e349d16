-- ===== src/Runner/Tests.antt =====
-- The local runner on concrete calls: a disk fixture, and one whose workflow fails.
use dfir_evidence_workbench.Base.{
  ◌==◌, ◌≡◌, refl, Bool, true, false, Option, none, some, List, [], ◌∷◌, if◌then◌else◌,
}
use dfir_evidence_workbench.Base.Dict.{get, put, string_eq}
use dfir_evidence_workbench.Base.Result.{ok, err}
use dfir_evidence_workbench.Runner.Jobs.{
  approved, error, Row, Job, Runner, Workflows, fetch, submit, review, retry, teardown, finished,
  public, submitted, reviewed, retried, rerun, owned_job, decision_of, register, registered,
  tenant_jobs, remove_all, Call, submit_call, review_call, retry_call, teardown_call, serve,
  fetched, approve, in_work,
}
use dfir_evidence_workbench.Runner.Lifecycle.{IsConsistent}
use dfir_evidence_workbench.Runner.History.{
  serve_all, serve_all-IsConsistent, foreign_calls_keep_jobs, approval_is_final, is_foreign, spares,
}

abbrev row : Row
row = record { class = "disk"; scenario = "usb"; sha256 = "aa"; relative_path = "disk/usb.raw" }

abbrev workflows : Workflows
workflows = record {
  manifest_row = λ fixture. if fixture == "usb" then some row else none;
  process = λ r. ok "listing";
}

abbrev broken : Workflows
broken = record {
  manifest_row = λ fixture. some row;
  process = λ r. err (record { code = "ValueError"; message = "bad image"; retryable = true });
}

abbrev empty : Runner
empty = record { jobs = []; registrations = [] }

abbrev calls : List Call
calls =
    submit_call "a" "usb" "job-1"
    ∷ submit_call "b" "usb" "job-2"
    ∷ review_call "a" "job-1" "approve"
    ∷ []

abbrev job : Job
job = record {
  job_id = "job-1";
  tenant_id = "a";
  fixture_id = "usb";
  status = approved;
  progress = 100;
  attempt = 1;
  provenance = record { tenant_id = "a"; source_sha256 = "aa"; source_path = "disk/usb.raw" };
  result = some "listing";
  manifest_path = some in_work;
  job_error = none;
  job_review = some approve;
}

runs : Unit {0}
unfolding serve serve_all submit submitted review reviewed retry retried rerun register registered
    teardown tenant_jobs remove_all finished owned_job decision_of get put is_foreign spares fetch
    fetched public
runs = tt

approves : get (serve_all workflows empty calls).jobs "job-1" ≡ some job
unfolding runs
approves = refl

-- A retry of a job that failed counts another attempt.
failed_status : Option Job → Bool
failed_status none = false
failed_status (some j) = elim j.status [ error ↦ true | _ ↦ false ]

fails_again :
    failed_status (
      get
        (serve_all broken empty (submit_call "a" "usb" "job-1" ∷ retry_call "a" "job-1" ∷ [])).jobs
        "job-1")
    ≡ true
unfolding runs failed_status
fails_again = refl

empty-IsConsistent : IsConsistent empty
unfolding get
empty-IsConsistent = record { distinct = tt; sound = λ id job e. cc }

reached-IsConsistent : IsConsistent (serve_all workflows empty calls)
reached-IsConsistent = serve_all-IsConsistent workflows empty calls empty-IsConsistent

serve_all-IsConsistent_example : IsConsistent (serve_all workflows empty calls)
serve_all-IsConsistent_example = serve_all-IsConsistent workflows empty calls empty-IsConsistent

abbrev foreign : List Call
foreign =
    submit_call "b" "usb" "job-3" ∷ review_call "b" "job-1" "quarantine" ∷ teardown_call "b" ∷ []

foreign_calls_keep_jobs_example :
    get (serve_all workflows (serve_all workflows empty calls) foreign).jobs "job-1" ≡ some job
unfolding runs
foreign_calls_keep_jobs_example =
    foreign_calls_keep_jobs workflows (serve_all workflows empty calls) foreign "job-1" job
      reached-IsConsistent approves refl

abbrev later : List Call
later = review_call "a" "job-1" "quarantine" ∷ retry_call "a" "job-1" ∷ teardown_call "b" ∷ []

approval_is_final_example :
    get (serve_all workflows (serve_all workflows empty calls) later).jobs "job-1" ≡ some job
unfolding runs
approval_is_final_example =
    approval_is_final workflows (serve_all workflows empty calls) later "job-1" job
      reached-IsConsistent approves refl refl
