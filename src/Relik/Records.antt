-- ===== src/Relik/Records.antt =====
-- `SQLiteJobStore` of src/dfir_workbench/openrelik_adapter.py: a table of jobs by their ids.
use dfir_evidence_workbench.Base.{
  ℕ, ◌==◌, String, Bool, not, ◌||◌, ◌&&◌, Option, none, some, List, [], ◌∷◌, is_some, if◌then◌else◌,
}
use dfir_evidence_workbench.Base.Text.{or_text}
use dfir_evidence_workbench.Base.Strings.{◌<>◌}
use dfir_evidence_workbench.Base.Dict.{Dict, get, put, string_eq}
use dfir_evidence_workbench.Base.Result.{Result, ok, err}

pub record Request : Type 0 where
  pub request_id : String
  pub tenant_id : String
  pub case_id : String
  pub asset_id : String
  pub evidence_id : String
  pub evidence_sha256 : String
  pub tool_profile : String
  pub key : String
  -- the whole request as JSON
  pub body : String

pub record JobRecord : Type 0 where
  pub job_id : String
  pub tenant_id : String
  pub case_id : String
  pub analyst_id : String
  pub evidence_id : String
  pub asset_id : String
  pub idempotency_key : String
  pub workflow_id : Option String
  pub task_id : Option String
  pub external_status : String
  pub review_state : String
  pub attempts : ℕ
  pub error_code : Option String
  pub outputs : List String
  pub request : Request

pub record Store : Type 0 where
  pub jobs : Dict String JobRecord
  -- the job ids of the submissions, the last first
  pub sent : List String

pub data RelikError : Type 0 where
  permission_error value_error key_error runtime_error integrity_error transport_error : RelikError

pub record Principal : Type 0 where
  pub tenant_id : String
  pub analyst_id : String

-- The digest of the contract's key: the first 43 hexadecimal digits of the SHA-256 of a text.
pub record Contract : Type 0 where
  pub accepts : Request → Bool
  pub digest : String → String

-- The `workflow_id` of a response: no such key, a null, or a text.
pub data WorkflowId : Type 0 where
  missing null_id : WorkflowId
  text_id : String → WorkflowId

pub data SubmitReply : Type 0 where
  submit_raises : SubmitReply
  accepted : (workflow : WorkflowId) (task : Option String) (status : Option String) → SubmitReply

-- The result of a poll, validated: its state, its artifacts and the code of its failure.
pub data StatusReply : Type 0 where
  status_raises : StatusReply
  reported : (state : String) (artifacts : List String) (failure : Option String) → StatusReply

abbrev pub is_terminal : String → Bool
is_terminal s = s == "succeeded" || s == "failed" || s == "quarantined"

abbrev pub has_workflow : JobRecord → Bool
has_workflow job = not (or_text job.workflow_id "" == "")

-- the id of the job that has a key
abbrev pub key_owner : String → Dict String JobRecord → Option String
key_owner key [] = none
key_owner key ((id, job) ∷ jobs) =
    let rest = key_owner key jobs in if job.idempotency_key == key then some id else rest

abbrev pub lookup : Dict String JobRecord → Option String → Option JobRecord
lookup jobs none = none
lookup jobs (some id) = get jobs id

unfoldable pub by_key : String → Dict String JobRecord → Option JobRecord
by_key key jobs = lookup jobs (key_owner key jobs)

abbrev bar : String → String → String
bar a b = a <> ("|" <> b)

unfoldable pub build_idempotency_key : Contract → Request → String
build_idempotency_key contract r =
    "v1:"
    <> contract.digest
        (bar r.tenant_id (bar r.case_id (bar r.evidence_id (bar r.evidence_sha256 r.tool_profile))))

abbrev pub new_job : Request → String → String → JobRecord
new_job r tenant analyst = record {
  job_id = r.request_id;
  tenant_id = tenant;
  case_id = r.case_id;
  analyst_id = analyst;
  evidence_id = r.evidence_id;
  asset_id = r.asset_id;
  idempotency_key = r.key;
  workflow_id = none;
  task_id = none;
  external_status = "queued";
  review_state = "unreviewed";
  attempts = 0;
  error_code = none;
  outputs = [];
  request = r;
}

-- The handler of the IntegrityError: the job of the same key, if it was for the same request.
abbrev pub same_request : Request → Option JobRecord → Result RelikError JobRecord
same_request r none = err integrity_error
same_request r (some existing) =
    if existing.request.body == r.body then ok existing else err value_error

-- `create`, for a request whose key is the one that was built
unfoldable pub create : Request → String → String → Store → Result RelikError JobRecord × Store
create r tenant analyst s =
    let job = new_job r tenant analyst in
    if is_some (get s.jobs r.request_id) || is_some (by_key r.key s.jobs)
    then (same_request r (by_key r.key s.jobs), s)
    else (ok job, record s { jobs = put s.jobs r.request_id job })

abbrev pub in_scope : String → String → JobRecord → Bool
in_scope tenant case_id job = job.tenant_id == tenant && job.case_id == case_id

abbrev pub scoped : String → String → Option JobRecord → Result RelikError JobRecord
scoped tenant case_id none = err key_error
scoped tenant case_id (some job) = if in_scope tenant case_id job then ok job else err key_error

unfoldable pub scoped_get : String → String → String → Store → Result RelikError JobRecord
scoped_get id tenant case_id s = scoped tenant case_id (get s.jobs id)

-- `update` of a job that was found
abbrev pub store : JobRecord → Store → Result RelikError JobRecord × Store
store job s = (ok job, record s { jobs = put s.jobs job.job_id job })

abbrev pub with_outputs :
    List String → Store → Result RelikError JobRecord → Result RelikError JobRecord × Store
with_outputs outputs s (err e) = (err e, s)
with_outputs outputs s (ok job) =
    store (record job { external_status = "succeeded"; outputs = outputs }) s

unfoldable pub add_outputs :
    String → String → String → List String → Store → Result RelikError JobRecord × Store
add_outputs id tenant case_id outputs s = with_outputs outputs s (scoped_get id tenant case_id s)
