-- ===== src/Relik/Keeps.antt =====
-- What keeps a job of src/dfir_workbench/openrelik_adapter.py that the transport has accepted.
use dfir_evidence_workbench.Base.{
  ℕ, suc, ◌≤◌, ◌==◌, ◌≡◌, ◌⊎◌, refl, sym, ap, ◌∙◌, eq_iff, String, Bool, true, false, Bool-cases,
  inl, inr, Option, none, some, List, [], ◌∷◌, if◌then◌else◌,
}
use mathlib.Core.Path.{subst}
use dfir_evidence_workbench.Base.Dict.{get, put, get-put, string_eq}
use dfir_evidence_workbench.Base.Result.{Result, ok, err, OnOk, >>=-OnOk, OnOk-ok}
use dfir_evidence_workbench.Relik.{
  JobRecord, Store, RelikError, key_error, Principal, is_terminal, has_workflow, scoped, scoped_get,
  scope, in_scope, denied, store, noted, with_job, owned,
}

-- How often a job was submitted to the transport.
abbrev pub times : String → List String → ℕ
times id [] = 0
times id (j ∷ js) = let rest = times id js in if j == id then suc rest else rest

-- The same job, but for its review state and, if it was not in a terminal state, for what a poll
-- reports; where collections may have ended, for its attempts, which never fall, and what they report.
abbrev pub IsKept : (collects : Bool) (old job : JobRecord) → Type 0
IsKept collects old job =
    (job ≡ record old {
      external_status = job.external_status;
      review_state = job.review_state;
      attempts = job.attempts;
      error_code = job.error_code;
      outputs = job.outputs;
    })
    × (old.attempts ≤ job.attempts)
    × ((collects ≡ true)
        ⊎ ((job.attempts ≡ old.attempts)
            × ((is_terminal old.external_status ≡ false)
                ⊎ ((job.external_status ≡ old.external_status)
                    × (job.error_code ≡ old.error_code)
                    × (job.outputs ≡ old.outputs)))))

-- Every job is stored under its own id.
abbrev pub IsOwn : Store → Type 0
IsOwn s = (k : String) (job : JobRecord) → get s.jobs k ≡ some job → job.job_id ≡ k

-- The job is there, and was submitted so often.
abbrev pub Holds : (collects : Bool) → JobRecord → ℕ → Store → Type 0
Holds collects old n s =
    (job : JobRecord) × (get s.jobs old.job_id ≡ some job)
    × IsKept collects old job
    × (times old.job_id s.sent ≡ n)

scoped-found :
    (tenant case_id : String) (o : Option JobRecord)
    → OnOk (λ job. o ≡ some job) (denied (scoped tenant case_id o))
scoped-found tenant case_id none = tt
scoped-found tenant case_id (some job) = at (in_scope tenant case_id job)
  where
    at : (b : Bool) → OnOk (λ j. some job ≡ some j) (denied (if b then ok job else err key_error))
    at true = refl
    at false = tt

-- A job that is found in its scope is stored under its own id.
pub scoped_get-stored :
    (id tenant case_id : String) (s : Store)
    → IsOwn s
    → OnOk (λ job. get s.jobs job.job_id ≡ some job) (scoped_get id tenant case_id s)
unfolding scoped_get
scoped_get-stored id tenant case_id s own = at (get s.jobs id) refl
  where
    at :
        (o : Option JobRecord)
        → get s.jobs id ≡ o
        → OnOk (λ job. get s.jobs job.job_id ≡ some job) (scoped tenant case_id o)
    at none e = tt
    at (some job) e = in_it (in_scope tenant case_id job)
      where
        in_it :
            (b : Bool)
            → OnOk (λ j. get s.jobs j.job_id ≡ some j) (if b then ok job else err key_error)
        in_it true = subst (λ k. get s.jobs k ≡ some job) (sym (own id job e)) e
        in_it false = tt

-- What a scoped look-up finds is stored under its own id.
pub owned-stored :
    (p : Principal) (id case_id : String) (s : Store) (job : JobRecord)
    → IsOwn s
    → owned p id case_id s ≡ ok job
    → get s.jobs job.job_id ≡ some job
unfolding owned scoped_get
owned-stored p id case_id s job own e =
    let found : get s.jobs id ≡ some job =
      OnOk-ok (λ j. get s.jobs id ≡ some j) _
        (>>=-OnOk _ (scope p) _ (λ _ _. scoped-found p.tenant_id case_id (get s.jobs id))) e in
    subst (λ k. get s.jobs k ≡ some job) (sym (own id job found)) found

pub put-IsOwn : (s : Store) (job : JobRecord) → IsOwn s → IsOwn ((store job s).1)
put-IsOwn s job own k j g =
    at (job.job_id == k) (eq_iff job.job_id k).0 (sym (get-put s.jobs job.job_id k job) ∙ g)
  where
    at :
        (b : Bool)
        → (b ≡ true → job.job_id ≡ k)
        → (if b then some job else get s.jobs k) ≡ some j
        → j.job_id ≡ k
    at true same e = let one : job ≡ j = cc in ap (λ x. x.job_id) (sym one) ∙ same refl
    at false same e = own k j e

module _ (collects : Bool) (old : JobRecord) (n : ℕ) (accepted_once : has_workflow old ≡ true) where
  abbrev pub Keeps : Store → Type 0
  Keeps s = IsOwn s × Holds collects old n s

  -- A job of the store that has the id is the one that is kept.
  pub found-IsKept :
      (s : Store) (k : String) (job : JobRecord)
      → Keeps s
      → get s.jobs k ≡ some job
      → k ≡ old.job_id
      → IsKept collects old job
  found-IsKept s k job (own, (there, g, kept, t)) h same =
      let one : there ≡ job = cc in subst (IsKept collects old) one kept

  IsKept-has_workflow : (job : JobRecord) → IsKept collects old job → has_workflow job ≡ true
  IsKept-has_workflow job kept = ap has_workflow (kept.0) ∙ accepted_once

  -- A job that still waits for a workflow is another one.
  pub waiting-other :
      (s : Store) (k : String) (job : JobRecord)
      → Keeps s
      → get s.jobs k ≡ some job
      → has_workflow job ≡ false
      → (k == old.job_id) ≡ false
  waiting-other s k job h g w = elim (Bool-cases (k == old.job_id)) [
    | inl same ↦
        (let busy =
            IsKept-has_workflow job (found-IsKept s k job h g ((eq_iff k old.job_id).0 same)) in
          cc)
    | inr other ↦ other
  ]

  pub store-Keeps :
      (s : Store) (job : JobRecord)
      → Keeps s
      → (job.job_id ≡ old.job_id → IsKept collects old job)
      → Keeps ((store job s).1)
  store-Keeps s job (own, (there, g, kept, t)) f = (
    put-IsOwn s job own,
    at (job.job_id == old.job_id) (eq_iff job.job_id old.job_id).0
        (get-put s.jobs job.job_id old.job_id job),
  )
    where
      at :
          (b : Bool)
          → (b ≡ true → job.job_id ≡ old.job_id)
          → get (put s.jobs job.job_id job) old.job_id
            ≡ (if b then some job else get s.jobs old.job_id)
          → Holds collects old n ((store job s).1)
      at true same e = (job, e, f (same refl), t)
      at false same e = (there, e ∙ g, kept, t)

  pub noted-Keeps :
      (s : Store) (job : JobRecord)
      → Keeps s
      → (job.job_id == old.job_id) ≡ false
      → Keeps (noted job s)
  noted-Keeps s job (own, (there, g, kept, t)) other = (own, (there, g, kept, rw other t))

  -- The update of a job that waited for a workflow.
  pub waiting-Keeps :
      (s : Store) (job : JobRecord)
      → Keeps s
      → (job.job_id == old.job_id) ≡ false
      → Keeps ((store job s).1)
  waiting-Keeps s job h other =
      store-Keeps s job h λ same. (let yes = (eq_iff job.job_id old.job_id).1 same in cc)

  pub with_job-Keeps :
      (m : Result RelikError JobRecord) (s : Store)
      (next : JobRecord → Result RelikError JobRecord × Store)
      → Keeps s
      → ((job : JobRecord) → m ≡ ok job → Keeps ((next job).1))
      → Keeps ((with_job m s next).1)
  with_job-Keeps (err e) s next h f = h
  with_job-Keeps (ok job) s next h f = f job refl
