-- ===== src/Relik/Dispatched.antt =====
-- Jobs of src/dfir_workbench/openrelik_adapter.py that the transport has accepted.
use dfir_evidence_workbench.Base.{
  ℕ, ◌≡◌, refl, Bool, true, false, any, arith, inr, some, List, [], ◌∷◌,
}
use dfir_evidence_workbench.Base.Dict.{get, string_eq}
use dfir_evidence_workbench.Base.Result.{Result, ok, err, OnOk-ok}
use dfir_evidence_workbench.Relik.{
  Request, JobRecord, Store, RelikError, Principal, Contract, SubmitReply, has_workflow, create,
  checked, dispatch, with_job, if_ok, submit, Call, submit_call, poll_call, retry_call,
  approve_call, collect_call, perform, serve,
}
use dfir_evidence_workbench.Relik.Keeps.{Holds, Keeps, times, with_job-Keeps}
use dfir_evidence_workbench.Relik.Own.{new_store, serve-IsOwn, new_store-IsOwn}
use dfir_evidence_workbench.Relik.Operations.{
  approve-Keeps, retry-Keeps, poll-Keeps, dispatch-Keeps, create-Keeps, collected-Keeps,
}

abbrev pub ends_collection : Call → Bool
ends_collection (collect_call id tenant case_id outputs) = true
ends_collection c = false

module _ (contract : Contract) (max_attempts : ℕ) (collects : Bool) (old : JobRecord) (n : ℕ)
    (accepted_once : has_workflow old ≡ true) where
  submit-Keeps :
      (p : Principal) (r : Request) (reply : SubmitReply) (s : Store)
      → Keeps collects old n accepted_once s
      → Keeps collects old n accepted_once ((submit contract p r reply s).1)
  unfolding submit
  submit-Keeps p r reply s h = at (checked contract p r)
    where
      made : Result RelikError JobRecord × Store
      made = create r p.tenant_id p.analyst_id s

      at :
          (m : Result RelikError (Unit {0}))
          → Keeps collects old n accepted_once (
              (if_ok m s (
                with_job
                  ((create r p.tenant_id p.analyst_id s).0)
                  ((create r p.tenant_id p.analyst_id s).1)
                  (dispatch reply ((create r p.tenant_id p.analyst_id s).1)))).1)
      at (err e) = h
      at (ok done) =
          let made = create-Keeps collects old n accepted_once r p.tenant_id p.analyst_id s h in
          with_job-Keeps collects old n accepted_once ((create r p.tenant_id p.analyst_id s).0)
            ((create r p.tenant_id p.analyst_id s).1)
            (dispatch reply ((create r p.tenant_id p.analyst_id s).1)) (made.0)
            λ job e.
              dispatch-Keeps collects old n accepted_once reply
                ((create r p.tenant_id p.analyst_id s).1) job (made.0)
                (OnOk-ok (λ j. get ((create r p.tenant_id p.analyst_id s).1).jobs j.job_id ≡ some j)
                  _ (made.1) e)

  serve-Keeps :
      (calls : List Call) (s : Store)
      → (any ends_collection calls ≡ true → collects ≡ true)
      → Keeps collects old n accepted_once s
      → Keeps collects old n accepted_once (serve contract max_attempts s calls)
  unfolding serve perform
  serve-Keeps [] s only h = h
  serve-Keeps (submit_call p r reply ∷ calls) s only h =
      serve-Keeps calls _ only (submit-Keeps p r reply s h)
  serve-Keeps (poll_call p id case_id reply ∷ calls) s only h =
      serve-Keeps calls _ only (poll-Keeps collects old n accepted_once p id case_id reply s h)
  serve-Keeps (retry_call p id case_id reply ∷ calls) s only h =
      serve-Keeps calls _ only
        (retry-Keeps collects old n accepted_once max_attempts p id case_id reply s h)
  serve-Keeps (approve_call p id case_id ∷ calls) s only h =
      serve-Keeps calls _ only (approve-Keeps collects old n accepted_once p id case_id s h)
  serve-Keeps (collect_call id tenant case_id outputs ∷ calls) s only h =
      serve-Keeps calls _ (λ e. only refl)
        (collected-Keeps collects old n accepted_once (only refl) id tenant case_id outputs s h)

-- Once a job of a store that calls made from an empty one has a workflow, it keeps its workflow and task
-- and all that it was submitted with, its attempts never fall, and it is never submitted to the transport
-- again, whoever calls the adapter for what and whatever collections end. Unless one ends, its attempts
-- stay as they are, and once its external status is terminal, only its review state changes.
pub dispatched_is_kept :
    (contract : Contract) (max_attempts : ℕ) (calls later : List Call) (old : JobRecord)
    → get (serve contract max_attempts new_store calls).jobs old.job_id ≡ some old
    → has_workflow old ≡ true
    → Holds
        (any ends_collection later)
        old
        (times old.job_id (serve contract max_attempts new_store calls).sent)
        (serve contract max_attempts (serve contract max_attempts new_store calls) later)
dispatched_is_kept contract max_attempts calls later old there accepted_once =
    let s = serve contract max_attempts new_store calls in
    let own = serve-IsOwn contract max_attempts calls new_store new_store-IsOwn in
    (serve-Keeps contract max_attempts (any ends_collection later) old (times old.job_id s.sent)
      accepted_once later s (λ e. e)
      (own, (old, there, (refl, omega arith, inr (refl, inr (refl, refl, refl))), refl))).1
