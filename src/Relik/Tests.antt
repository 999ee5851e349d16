-- ===== src/Relik/Tests.antt =====
-- A job that the transport has accepted, and the calls after it (openrelik_adapter.py).
use dfir_evidence_workbench.Base.{◌≡◌, refl, true, any, none, some, List, [], ◌∷◌}
use dfir_evidence_workbench.Base.Strings.{strip}
use dfir_evidence_workbench.Base.Dict.{get, put, string_eq}
use dfir_evidence_workbench.Relik.{
  Request, JobRecord, Store, Principal, Contract, text_id, submit_raises, accepted, reported, Call,
  submit_call, poll_call, retry_call, approve_call, collect_call, build_idempotency_key, create,
  by_key, first_reply, scope, submit, serve, perform,
}
use dfir_evidence_workbench.Relik.Keeps.{Holds, times}
use dfir_evidence_workbench.Relik.Own.{new_store}
use dfir_evidence_workbench.Relik.Dispatched.{ends_collection, dispatched_is_kept}

abbrev request : Request
request = record {
  request_id = "job-1";
  tenant_id = "t1";
  case_id = "c1";
  asset_id = "a1";
  evidence_id = "e1";
  evidence_sha256 = "aa";
  tool_profile = "plaso";
  key = "v1:t1|c1|e1|aa|plaso";
  body = "{}";
}

abbrev contract : Contract
contract = record { accepts = λ r. true; digest = λ s. s }

abbrev ann : Principal
ann = record { tenant_id = "t1"; analyst_id = "ann" }

abbrev job : JobRecord
job = record {
  job_id = "job-1";
  tenant_id = "t1";
  case_id = "c1";
  analyst_id = "ann";
  evidence_id = "e1";
  asset_id = "a1";
  idempotency_key = "v1:t1|c1|e1|aa|plaso";
  workflow_id = some "wf-1";
  task_id = some "task-1";
  external_status = "queued";
  review_state = "unreviewed";
  attempts = 1;
  error_code = none;
  outputs = [];
  request = request;
}

abbrev busy : Store
busy = record { jobs = ("job-1", job) ∷ []; sent = "job-1" ∷ [] }

submitted :
    (submit contract ann request (accepted (text_id "wf-1") (some "task-1") none) new_store).1
    ≡ busy
unfolding submit scope strip build_idempotency_key create by_key get put first_reply
submitted = refl

-- A submission that fails leaves no trace in the attempts, so that it may be repeated for ever.
failures_are_not_counted :
    times "job-1"
      ((submit contract ann request submit_raises (
          (submit contract ann request submit_raises
            ((submit contract ann request submit_raises new_store).1)).1)).1
        ).sent
    ≡ 3
unfolding submit scope strip build_idempotency_key create by_key get put first_reply
failures_are_not_counted = refl

abbrev calls : List Call
calls =
    poll_call ann "job-1" "c1" (reported "succeeded" ("report" ∷ []) none)
    ∷ submit_call ann request (accepted (text_id "wf-2") none none)
    ∷ retry_call ann "job-1" "c1" (accepted (text_id "wf-3") none none)
    ∷ approve_call ann "job-1" "c1"
    ∷ collect_call "job-1" "t1" "c1" ("timeline" ∷ [])
    ∷ []

abbrev first_call : List Call
first_call = submit_call ann request (accepted (text_id "wf-1") (some "task-1") none) ∷ []

job_is_found : get (serve contract 3 new_store first_call).jobs "job-1" ≡ some job
unfolding serve perform submit scope strip build_idempotency_key create by_key get put first_reply
job_is_found = refl

dispatched_is_kept_example :
    Holds
      (any ends_collection calls)
      job
      (times "job-1" (serve contract 3 new_store first_call).sent)
      (serve contract 3 (serve contract 3 new_store first_call) calls)
dispatched_is_kept_example = dispatched_is_kept contract 3 first_call calls job job_is_found refl
