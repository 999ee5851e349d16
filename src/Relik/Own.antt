-- ===== src/Relik/Own.antt =====
-- Every operation of src/dfir_workbench/openrelik_adapter.py leaves each job under its own id.
use dfir_evidence_workbench.Base.{
  ℕ, suc, ◌==◌, String, Bool, true, false, not, ◌||◌, none, some, List, [], ◌∷◌, is_some, leb,
  if◌then◌else◌,
}
use dfir_evidence_workbench.Base.Dict.{get, string_eq}
use dfir_evidence_workbench.Base.Result.{Result, ok, err}
use dfir_evidence_workbench.Relik.{
  Request, JobRecord, Store, RelikError, runtime_error, Principal, Contract, missing, null_id,
  text_id, SubmitReply, submit_raises, accepted, StatusReply, status_raises, reported, is_terminal,
  has_workflow, by_key, same_request, new_job, create, checked, store, dispatched, noted,
  first_reply, dispatch, with_job, if_ok, submit, owned, status_reply, poll, next_reply, retry,
  approve, Call, submit_call, poll_call, retry_call, approve_call, collect_call, collected,
  add_outputs, with_outputs, scoped_get, perform, serve,
}
use dfir_evidence_workbench.Relik.Keeps.{IsOwn, put-IsOwn}

-- The store that an operation leaves.
abbrev LeavesOwn : Result RelikError JobRecord × Store → Type 0
LeavesOwn done = IsOwn (done.1)

with_job-IsOwn :
    (m : Result RelikError JobRecord) (s : Store)
    (next : JobRecord → Result RelikError JobRecord × Store)
    → IsOwn s
    → ((job : JobRecord) → LeavesOwn (next job))
    → LeavesOwn (with_job m s next)
with_job-IsOwn (err e) s next own f = own
with_job-IsOwn (ok job) s next own f = f job

if-IsOwn :
    (b : Bool) (x y : Result RelikError JobRecord × Store)
    → LeavesOwn x
    → LeavesOwn y
    → LeavesOwn (if b then x else y)
if-IsOwn true x y hx hy = hx
if-IsOwn false x y hx hy = hy

first_reply-IsOwn :
    (job : JobRecord) (s : Store) (reply : SubmitReply)
    → IsOwn s
    → LeavesOwn (first_reply job s reply)
unfolding first_reply
first_reply-IsOwn job s submit_raises own = own
first_reply-IsOwn job s (accepted missing task status) own = own
first_reply-IsOwn job s (accepted null_id task status) own = own
first_reply-IsOwn job s (accepted (text_id w) task status) own =
    if-IsOwn (w == "") (err runtime_error, s) (store (dispatched job (some w) task status) s) own
      (put-IsOwn s (dispatched job (some w) task status) own)

next_reply-IsOwn :
    (job : JobRecord) (s : Store) (reply : SubmitReply)
    → IsOwn s
    → LeavesOwn (next_reply job s reply)
unfolding next_reply
next_reply-IsOwn job s submit_raises own = own
next_reply-IsOwn job s (accepted missing task status) own = own
next_reply-IsOwn job s (accepted null_id task status) own =
    put-IsOwn s (dispatched job none task status) own
next_reply-IsOwn job s (accepted (text_id w) task status) own =
    put-IsOwn s (dispatched job (some w) task status) own

status_reply-IsOwn :
    (job : JobRecord) (s : Store) (reply : StatusReply)
    → IsOwn s
    → LeavesOwn (status_reply job s reply)
unfolding status_reply
status_reply-IsOwn job s status_raises own = own
status_reply-IsOwn job s (reported state artifacts failure) own =
    put-IsOwn s (record job { external_status = state; outputs = artifacts; error_code = failure })
      own

create-IsOwn :
    (r : Request) (tenant analyst : String) (s : Store)
    → IsOwn s
    → LeavesOwn (create r tenant analyst s)
unfolding create
create-IsOwn r tenant analyst s own =
    if-IsOwn (is_some (get s.jobs r.request_id) || is_some (by_key r.key s.jobs))
      (same_request r (by_key r.key s.jobs), s) (store (new_job r tenant analyst) s) own
      (put-IsOwn s (new_job r tenant analyst) own)

module _ (contract : Contract) (max_attempts : ℕ) where
  submit-IsOwn :
      (p : Principal) (r : Request) (reply : SubmitReply) (s : Store)
      → IsOwn s
      → LeavesOwn (submit contract p r reply s)
  unfolding submit
  submit-IsOwn p r reply s own = at (checked contract p r)
    where
      at :
          (m : Result RelikError (Unit {0}))
          → LeavesOwn (
              if_ok m s (
                with_job
                  ((create r p.tenant_id p.analyst_id s).0)
                  ((create r p.tenant_id p.analyst_id s).1)
                  (dispatch reply ((create r p.tenant_id p.analyst_id s).1))))
      at (err e) = own
      at (ok done) =
          let made = create-IsOwn r p.tenant_id p.analyst_id s own in
          with_job-IsOwn ((create r p.tenant_id p.analyst_id s).0)
            ((create r p.tenant_id p.analyst_id s).1)
            (dispatch reply ((create r p.tenant_id p.analyst_id s).1)) made
            λ job.
              if-IsOwn (has_workflow job) (ok job, (create r p.tenant_id p.analyst_id s).1)
                (first_reply job (noted job ((create r p.tenant_id p.analyst_id s).1)) reply) made
                (first_reply-IsOwn job (noted job ((create r p.tenant_id p.analyst_id s).1)) reply
                  made)

  collected-IsOwn :
      (id tenant case_id : String) (outputs : List String) (s : Store)
      → IsOwn s
      → LeavesOwn (collected id tenant case_id outputs s)
  unfolding collected add_outputs
  collected-IsOwn id tenant case_id outputs s own = at (scoped_get id tenant case_id s)
    where
      at :
          (m : Result RelikError JobRecord)
          → LeavesOwn (
              with_job ((with_outputs outputs s m).0) ((with_outputs outputs s m).1) (λ job.
                store (record job { attempts = suc job.attempts }) ((with_outputs outputs s m).1)))
      at (err e) = own
      at (ok job) =
          let done : JobRecord = record job { external_status = "succeeded"; outputs = outputs } in
          put-IsOwn ((store done s).1) (record done { attempts = suc job.attempts })
            (put-IsOwn s done own)

  perform-IsOwn : (s : Store) (call : Call) → IsOwn s → IsOwn (perform contract max_attempts s call)
  unfolding perform poll retry approve
  perform-IsOwn s (submit_call p r reply) own = submit-IsOwn p r reply s own
  perform-IsOwn s (poll_call p id case_id reply) own =
      with_job-IsOwn (owned p id case_id s) s _ own λ job.
        if-IsOwn (not (has_workflow job) || is_terminal job.external_status) (ok job, s)
          (status_reply job s reply) own (status_reply-IsOwn job s reply own)
  perform-IsOwn s (retry_call p id case_id reply) own =
      with_job-IsOwn (owned p id case_id s) s _ own λ job.
        if-IsOwn
          (has_workflow job || (is_terminal job.external_status || leb max_attempts job.attempts))
          (ok job, s) (next_reply job (noted job s) reply) own
          (next_reply-IsOwn job (noted job s) reply own)
  perform-IsOwn s (approve_call p id case_id) own =
      with_job-IsOwn (owned p id case_id s) s _ own
        λ job. put-IsOwn s (record job { review_state = "approved" }) own
  perform-IsOwn s (collect_call id tenant case_id outputs) own =
      collected-IsOwn id tenant case_id outputs s own

  -- Whatever is called for, each job stays under its own id.
  pub serve-IsOwn :
      (calls : List Call) (s : Store) → IsOwn s → IsOwn (serve contract max_attempts s calls)
  unfolding serve
  serve-IsOwn [] s own = own
  serve-IsOwn (call ∷ calls) s own =
      serve-IsOwn calls (perform contract max_attempts s call) (perform-IsOwn s call own)

-- The store of a new database.
abbrev pub new_store : Store
new_store = record { jobs = []; sent = [] }

pub new_store-IsOwn : IsOwn new_store
unfolding get
new_store-IsOwn k job h = cc
