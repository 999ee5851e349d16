-- ===== src/Relik.antt =====
-- `SQLiteJobStore` and `OpenRelikAdapter` of src/dfir_workbench/openrelik_adapter.py. The transport's
-- reply is an argument of the call that asks for it, and `sent` notes each submission to it. Audit
-- events and the times of updates are left out. A request is what the contract's validator returned.
pub mod Records
pub mod Keeps
pub mod Operations
pub mod Own
pub mod Dispatched
mod Tests
use dfir_evidence_workbench.Base.{
  ℕ, suc, ◌==◌, String, Bool, true, false, not, ◌||◌, ◌&&◌, Option, none, some, List, [], ◌∷◌,
  is_some, leb, if◌then◌else◌,
}
use dfir_evidence_workbench.Base.Text.{or_text}
use dfir_evidence_workbench.Base.Strings.{◌<>◌, strip}
use dfir_evidence_workbench.Base.Dict.{Dict, get, put, string_eq}
use dfir_evidence_workbench.Base.Result.{Result, ok, err, ◌>>=◌, ◌>>◌, raise_if}
use dfir_evidence_workbench.Relik.Records.{
  Request, JobRecord, Store, RelikError, permission_error, value_error, key_error, runtime_error,
  integrity_error, transport_error, Principal, Contract, WorkflowId, missing, null_id, text_id,
  SubmitReply, submit_raises, accepted, StatusReply, status_raises, reported, is_terminal,
  has_workflow, build_idempotency_key, create, scoped_get, store, add_outputs,
}
unfoldable pub use Records.*

abbrev blank : String → Bool
blank s = strip s == ""

-- `_scope`
unfoldable pub scope : Principal → Result RelikError (Unit {0})
scope p = raise_if (blank p.tenant_id || blank p.analyst_id) permission_error

abbrev or_queued : Option String → String
or_queued none = "queued"
or_queued (some status) = status

-- The update after an accepted submission.
abbrev pub dispatched : JobRecord → Option String → Option String → Option String → JobRecord
dispatched job workflow task status = record job {
  workflow_id = workflow;
  task_id = task;
  external_status = or_queued status;
  attempts = suc job.attempts;
}

-- The store once the transport was called for a job.
abbrev pub noted : JobRecord → Store → Store
noted job s = record s { sent = job.job_id ∷ s.sent }

unfoldable pub first_reply : JobRecord → Store → SubmitReply → Result RelikError JobRecord × Store
first_reply job s submit_raises = (err transport_error, s)
first_reply job s (accepted missing task status) = (err runtime_error, s)
first_reply job s (accepted null_id task status) = (err runtime_error, s)
first_reply job s (accepted (text_id w) task status) =
    if w == "" then (err runtime_error, s) else store (dispatched job (some w) task status) s

abbrev pub dispatch : SubmitReply → Store → JobRecord → Result RelikError JobRecord × Store
dispatch reply s job = if has_workflow job then (ok job, s) else first_reply job (noted job s) reply

abbrev pub with_job :
    Result RelikError JobRecord
    → Store
    → (JobRecord → Result RelikError JobRecord × Store)
    → Result RelikError JobRecord × Store
with_job (err e) s next = (err e, s)
with_job (ok job) s next = next job

-- The checks of `submit` on its request.
abbrev pub checked : Contract → Principal → Request → Result RelikError (Unit {0})
checked contract p r = do
  scope p
  raise_if (not (contract.accepts r)) value_error
  raise_if (not (r.tenant_id == p.tenant_id)) permission_error
  raise_if (not (r.key == build_idempotency_key contract r)) value_error

abbrev pub if_ok :
    Result RelikError (Unit {0})
    → Store
    → Result RelikError JobRecord × Store
    → Result RelikError JobRecord × Store
if_ok (err e) s next = (err e, s)
if_ok (ok done) s next = next

unfoldable pub submit :
    Contract → Principal → Request → SubmitReply → Store → Result RelikError JobRecord × Store
submit contract p r reply s =
    let made = create r p.tenant_id p.analyst_id s in
    if_ok (checked contract p r) s (with_job (made.0) (made.1) (dispatch reply (made.1)))

abbrev pub denied : Result RelikError JobRecord → Result RelikError JobRecord
denied (err e) = err permission_error
denied (ok job) = ok job

-- `_get`
unfoldable pub owned : Principal → String → String → Store → Result RelikError JobRecord
owned p id case_id s = scope p >> denied (scoped_get id p.tenant_id case_id s)

unfoldable pub status_reply : JobRecord → Store → StatusReply → Result RelikError JobRecord × Store
status_reply job s status_raises = (err transport_error, s)
status_reply job s (reported state artifacts failure) =
    store (record job { external_status = state; outputs = artifacts; error_code = failure }) s

unfoldable pub poll :
    Principal → String → String → StatusReply → Store → Result RelikError JobRecord × Store
poll p id case_id reply s = with_job (owned p id case_id s) s λ job.
    if not (has_workflow job) || is_terminal job.external_status
    then (ok job, s)
    else status_reply job s reply

unfoldable pub next_reply : JobRecord → Store → SubmitReply → Result RelikError JobRecord × Store
next_reply job s submit_raises = (err transport_error, s)
next_reply job s (accepted missing task status) = (err key_error, s)
next_reply job s (accepted null_id task status) = store (dispatched job none task status) s
next_reply job s (accepted (text_id w) task status) = store (dispatched job (some w) task status) s

unfoldable pub retry :
    (max_attempts : ℕ)
    → Principal
    → String
    → String
    → SubmitReply
    → Store
    → Result RelikError JobRecord × Store
retry max_attempts p id case_id reply s = with_job (owned p id case_id s) s λ job.
    if has_workflow job || (is_terminal job.external_status || leb max_attempts job.attempts)
    then (ok job, s)
    else next_reply job (noted job s) reply

unfoldable pub approve : Principal → String → String → Store → Result RelikError JobRecord × Store
approve p id case_id s =
    with_job (owned p id case_id s) s λ job. store (record job { review_state = "approved" }) s

-- What `velociraptor_openrelik.py` makes of a job when a collection has ended.
unfoldable pub collected :
    (id tenant case_id : String) (outputs : List String)
    → Store
    → Result RelikError JobRecord × Store
collected id tenant case_id outputs s =
    let added = add_outputs id tenant case_id outputs s in
    with_job (added.0) (added.1) λ job. store (record job { attempts = suc job.attempts }) (added.1)

pub data Call : Type 0 where
  submit_call : Principal → Request → SubmitReply → Call
  poll_call : Principal → (id case_id : String) → StatusReply → Call
  retry_call : Principal → (id case_id : String) → SubmitReply → Call
  approve_call : Principal → (id case_id : String) → Call
  collect_call : (id tenant case_id : String) (outputs : List String) → Call

module _ (contract : Contract) (max_attempts : ℕ) where
  unfoldable pub perform : Store → Call → Store
  perform s (submit_call p r reply) = (submit contract p r reply s).1
  perform s (poll_call p id case_id reply) = (poll p id case_id reply s).1
  perform s (retry_call p id case_id reply) = (retry max_attempts p id case_id reply s).1
  perform s (approve_call p id case_id) = (approve p id case_id s).1
  perform s (collect_call id tenant case_id outputs) = (collected id tenant case_id outputs s).1

  unfoldable pub serve : Store → List Call → Store
  serve s [] = s
  serve s (call ∷ calls) = serve (perform s call) calls
