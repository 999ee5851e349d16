-- ===== src/Relik/Operations.antt =====
-- The operations of src/dfir_workbench/openrelik_adapter.py keep a job that the transport has accepted.
use dfir_evidence_workbench.Base.{
  ℕ, suc, List, arith, ◌==◌, ◌≡◌, ◌⊎◌, refl, sym, ap, ◌∙◌, String, Bool, true, false, not, ◌||◌,
  inl, inr, Option, none, some, is_some, leb, if◌then◌else◌,
}
use mathlib.Core.Path.{subst}
use dfir_evidence_workbench.Base.Dict.{get, get-put_self, string_eq}
use dfir_evidence_workbench.Base.Result.{Result, ok, err, OnOk}
use dfir_evidence_workbench.Relik.{
  Request, JobRecord, Store, value_error, runtime_error, Principal, missing, null_id, text_id,
  SubmitReply, submit_raises, accepted, StatusReply, status_raises, reported, is_terminal,
  has_workflow, by_key, key_owner, same_request, create, new_job, lookup, store, dispatched, noted,
  first_reply, dispatch, owned, status_reply, poll, next_reply, retry, approve, scoped_get,
  with_outputs, add_outputs, collected, with_job, RelikError,
}
use dfir_evidence_workbench.Relik.Keeps.{
  IsKept, IsOwn, Keeps, owned-stored, found-IsKept, waiting-other, store-Keeps, noted-Keeps,
  waiting-Keeps, with_job-Keeps, scoped_get-stored,
}

module _ (collects : Bool) (old : JobRecord) (n : ℕ) (accepted_once : has_workflow old ≡ true) where
  abbrev Stays : Store → Type 0
  Stays = Keeps collects old n accepted_once

  first_reply-Keeps :
      (job : JobRecord) (s : Store) (reply : SubmitReply)
      → Stays s
      → (job.job_id == old.job_id) ≡ false
      → Stays ((first_reply job s reply).1)
  unfolding first_reply
  first_reply-Keeps job s submit_raises h other = h
  first_reply-Keeps job s (accepted missing task status) h other = h
  first_reply-Keeps job s (accepted null_id task status) h other = h
  first_reply-Keeps job s (accepted (text_id w) task status) h other = at (w == "")
    where
      at :
          (b : Bool)
          → Stays (
              (if b
                then (err runtime_error, s)
                else store (dispatched job (some w) task status) s).1)
      at true = h
      at false =
          waiting-Keeps collects old n accepted_once s (dispatched job (some w) task status) h other

  next_reply-Keeps :
      (job : JobRecord) (s : Store) (reply : SubmitReply)
      → Stays s
      → (job.job_id == old.job_id) ≡ false
      → Stays ((next_reply job s reply).1)
  unfolding next_reply
  next_reply-Keeps job s submit_raises h other = h
  next_reply-Keeps job s (accepted missing task status) h other = h
  next_reply-Keeps job s (accepted null_id task status) h other =
      waiting-Keeps collects old n accepted_once s (dispatched job none task status) h other
  next_reply-Keeps job s (accepted (text_id w) task status) h other =
      waiting-Keeps collects old n accepted_once s (dispatched job (some w) task status) h other

  pub dispatch-Keeps :
      (reply : SubmitReply) (s : Store) (job : JobRecord)
      → Stays s
      → get s.jobs job.job_id ≡ some job
      → Stays ((dispatch reply s job).1)
  dispatch-Keeps reply s job h g =
      at (has_workflow job) (λ w. waiting-other collects old n accepted_once s job.job_id job h g w)
    where
      at :
          (b : Bool)
          → (b ≡ false → (job.job_id == old.job_id) ≡ false)
          → Stays ((if b then (ok job, s) else first_reply job (noted job s) reply).1)
      at true other = h
      at false other =
          first_reply-Keeps job (noted job s) reply
            (noted-Keeps collects old n accepted_once s job h (other refl)) (other refl)

  pub approve-Keeps :
      (p : Principal) (id case_id : String) (s : Store)
      → Stays s
      → Stays ((approve p id case_id s).1)
  unfolding approve
  approve-Keeps p id case_id s h =
      with_job-Keeps collects old n accepted_once (owned p id case_id s) s _ h λ job e.
        store-Keeps collects old n accepted_once s (record job { review_state = "approved" }) h
          λ same.
            let kept =
              found-IsKept collects old n accepted_once s job.job_id job h
                (owned-stored p id case_id s job (h.0) e) same in
            (
              ap {A = JobRecord} (λ j. record j { review_state = "approved" }) (kept.0),
              kept.1,
              kept.2,
            )

  pub retry-Keeps :
      (max_attempts : ℕ) (p : Principal) (id case_id : String) (reply : SubmitReply) (s : Store)
      → Stays s
      → Stays ((retry max_attempts p id case_id reply s).1)
  unfolding retry
  retry-Keeps max_attempts p id case_id reply s h =
      with_job-Keeps collects old n accepted_once (owned p id case_id s) s _ h λ job e.
        at job (is_terminal job.external_status || leb max_attempts job.attempts) (has_workflow job)
          (waiting-other collects old n accepted_once s job.job_id job h
            (owned-stored p id case_id s job (h.0) e))
    where
      at :
          (job : JobRecord) (b w : Bool)
          → (w ≡ false → (job.job_id == old.job_id) ≡ false)
          → Stays ((if w || b then (ok job, s) else next_reply job (noted job s) reply).1)
      at job b true other = h
      at job true false other = h
      at job false false other =
          next_reply-Keeps job (noted job s) reply
            (noted-Keeps collects old n accepted_once s job h (other refl)) (other refl)

  status_reply-Keeps :
      (s : Store) (job : JobRecord) (reply : StatusReply)
      → Stays s
      → (job.job_id ≡ old.job_id → IsKept collects old job)
      → is_terminal job.external_status ≡ false
      → Stays ((status_reply job s reply).1)
  unfolding status_reply
  status_reply-Keeps s job status_raises h f open_ = h
  status_reply-Keeps s job (reported state artifacts failure) h f open_ =
      store-Keeps collects old n accepted_once s
        (record job { external_status = state; outputs = artifacts; error_code = failure }) h
        λ same. (
          ap {A = JobRecord}
              (λ j. record j { external_status = state; outputs = artifacts; error_code = failure })
              ((f same).0),
          (f same).1,
          kept_apart ((f same).2),
        )
    where
      at :
          (is_terminal old.external_status ≡ false)
            ⊎ ((job.external_status ≡ old.external_status)
                × (job.error_code ≡ old.error_code)
                × (job.outputs ≡ old.outputs))
          → (is_terminal old.external_status ≡ false)
            ⊎ ((state ≡ old.external_status)
                × (failure ≡ old.error_code)
                × (artifacts ≡ old.outputs))
      at (inl o) = inl o
      at (inr (same_state, code, outs)) = inl (ap is_terminal (sym same_state) ∙ open_)

      kept_apart :
          (collects ≡ true)
            ⊎ ((job.attempts ≡ old.attempts)
                × ((is_terminal old.external_status ≡ false)
                    ⊎ ((job.external_status ≡ old.external_status)
                        × (job.error_code ≡ old.error_code)
                        × (job.outputs ≡ old.outputs))))
          → (collects ≡ true)
            ⊎ ((job.attempts ≡ old.attempts)
                × ((is_terminal old.external_status ≡ false)
                    ⊎ ((state ≡ old.external_status)
                        × (failure ≡ old.error_code)
                        × (artifacts ≡ old.outputs))))
      kept_apart (inl ended) = inl ended
      kept_apart (inr (tried, rest)) = inr (tried, at rest)

  pub poll-Keeps :
      (p : Principal) (id case_id : String) (reply : StatusReply) (s : Store)
      → Stays s
      → Stays ((poll p id case_id reply s).1)
  unfolding poll
  poll-Keeps p id case_id reply s h =
      with_job-Keeps collects old n accepted_once (owned p id case_id s) s _ h λ job e.
        at job (not (has_workflow job)) (is_terminal job.external_status) refl (
          found-IsKept collects old n accepted_once s job.job_id job h
            (owned-stored p id case_id s job (h.0) e))
    where
      at :
          (job : JobRecord) (b t : Bool)
          → is_terminal job.external_status ≡ t
          → (job.job_id ≡ old.job_id → IsKept collects old job)
          → Stays ((if b || t then (ok job, s) else status_reply job s reply).1)
      at job true t e f = h
      at job false true e f = h
      at job false false e f = status_reply-Keeps s job reply h f e

  -- A collection that ended leaves the job with its workflow.
  pub collected-Keeps :
      collects ≡ true
      → (id tenant case_id : String) (outputs : List String) (s : Store) → Stays s
      → Stays ((collected id tenant case_id outputs s).1)
  unfolding collected add_outputs
  collected-Keeps ended id tenant case_id outputs s h =
      at (scoped_get id tenant case_id s) (scoped_get-stored id tenant case_id s (h.0))
    where
      at :
          (m : Result RelikError JobRecord)
          → OnOk (λ job. get s.jobs job.job_id ≡ some job) m
          → Stays (
              (with_job ((with_outputs outputs s m).0) ((with_outputs outputs s m).1) (λ job.
                store
                  (record job { attempts = suc job.attempts })
                  ((with_outputs outputs s m).1))).1)
      at (err e) there = h
      at (ok job) there =
          let done : JobRecord = record job { external_status = "succeeded"; outputs = outputs } in
          let kept = found-IsKept collects old n accepted_once s job.job_id job h there in
          let first = store-Keeps collects old n accepted_once s done h λ same. (
            ap {A = JobRecord} (λ j. record j { external_status = "succeeded"; outputs = outputs })
                ((kept same).0),
            (kept same).1,
            inl ended,
          ) in
          store-Keeps collects old n accepted_once ((store done s).1)
            (record done { attempts = suc job.attempts }) first
            λ same. (
              ap {A = JobRecord}
                  (λ j. record j {
                    external_status = "succeeded";
                    outputs = outputs;
                    attempts = suc job.attempts;
                  })
                  ((kept same).0),
              omega (arith, (kept same).1),
              inl ended,
            )

  same_request-stored :
      (r : Request) (s : Store) (o : Option String)
      → IsOwn s
      → OnOk (λ job. get s.jobs job.job_id ≡ some job) (same_request r (lookup s.jobs o))
  same_request-stored r s none own = tt
  same_request-stored r s (some k) own = at (get s.jobs k) refl
    where
      at :
          (found : Option JobRecord)
          → get s.jobs k ≡ found
          → OnOk (λ job. get s.jobs job.job_id ≡ some job) (same_request r found)
      at none e = tt
      at (some job) e = same_body (job.request.body == r.body)
        where
          same_body :
              (b : Bool)
              → OnOk (λ j. get s.jobs j.job_id ≡ some j) (if b then ok job else err value_error)
          same_body true = subst (λ i. get s.jobs i ≡ some job) (sym (own k job e)) e
          same_body false = tt

  -- After `create` the job of the request is stored, and the one that is kept stays.
  pub create-Keeps :
      (r : Request) (tenant analyst : String) (s : Store)
      → Stays s
      → Stays ((create r tenant analyst s).1)
        × OnOk
            (λ job. get ((create r tenant analyst s).1).jobs job.job_id ≡ some job)
            ((create r tenant analyst s).0)
  unfolding create by_key
  create-Keeps r tenant analyst s h =
      at (is_some (get s.jobs r.request_id)) (is_some (by_key r.key s.jobs)) refl
    where
      made : JobRecord
      made = new_job r tenant analyst

      new_other :
          is_some (get s.jobs r.request_id) ≡ false
          → made.job_id ≡ old.job_id
          → IsKept collects old made
      new_other e same =
          let there = subst (λ k. get s.jobs k ≡ some (h.1.0)) (sym same) (h.1.1) in
          let yes = ap is_some there in cc

      at :
          (a b : Bool)
          → is_some (get s.jobs r.request_id) ≡ a
          → Stays ((if a || b then (same_request r (by_key r.key s.jobs), s) else store made s).1)
            × OnOk
                (λ job.
                  get
                    ((if a || b then (same_request r (by_key r.key s.jobs), s) else store made s).1
                      ).jobs
                    job.job_id
                  ≡ some job)
                ((if a || b then (same_request r (by_key r.key s.jobs), s) else store made s).0)
      at true b e = (h, same_request-stored r s (key_owner r.key s.jobs) (h.0))
      at false true e = (h, same_request-stored r s (key_owner r.key s.jobs) (h.0))
      at false false e = (
        store-Keeps collects old n accepted_once s made h (new_other e),
        get-put_self s.jobs made.job_id made,
      )
