-- ===== src/Runner/Teardown.antt =====
-- Which jobs `teardown` of src/dfir_workbench/local_runner.py removes.
use dfir_evidence_workbench.Base.{
  ◌==◌, ◌≡◌, refl, String, Bool, false, Option, none, some, List, [], ◌∷◌, arith, if◌then◌else◌,
  eq_iff, any,
}
use dfir_evidence_workbench.Base.Dict.{
  Dict, get, remove, string_eq, get-remove, IsDistinct, remove-IsDistinct,
}
use dfir_evidence_workbench.Runner.Jobs.{Job, Runner, teardown, tenant_jobs, remove_all}

abbrev pub owner_is : String → Option Job → Bool
owner_is tenant none = false
owner_is tenant (some job) = job.provenance.tenant_id == tenant

abbrev member : List String → String → Bool
member ids id = any (λ i. i == id) ids

member-tenant_jobs :
    (tenant : String) (d : Dict String Job) (id : String)
    → IsDistinct d
    → member (tenant_jobs tenant d) id ≡ owner_is tenant (get d id)
unfolding tenant_jobs get
member-tenant_jobs tenant [] id u = refl
member-tenant_jobs tenant ((i, job) ∷ d) id u =
    ground (arith, eq_iff i id, member-tenant_jobs tenant d id (u.1), u.0)

get-remove_all :
    (ids : List String) (d : Dict String Job) (id : String)
    → get (remove_all ids d) id ≡ (if member ids id then none else get d id)
unfolding remove_all
get-remove_all [] d id = refl
get-remove_all (i ∷ ids) d id =
    ground (arith, get-remove_all ids (remove d i) id, get-remove d i id)

-- A teardown removes the jobs of its tenant and no others.
pub get-teardown :
    (runner : Runner) (tenant id : String)
    → IsDistinct runner.jobs
    → get (teardown runner tenant).1.jobs id
      ≡ (if owner_is tenant (get runner.jobs id) then none else get runner.jobs id)
unfolding teardown
get-teardown runner tenant id u =
    rw (get-remove_all, member-tenant_jobs tenant runner.jobs id u) refl

remove_all-IsDistinct :
    (ids : List String) (d : Dict String Job) → IsDistinct d → IsDistinct (remove_all ids d)
unfolding remove_all
remove_all-IsDistinct [] d u = u
remove_all-IsDistinct (i ∷ ids) d u =
    remove_all-IsDistinct ids (remove d i) (remove-IsDistinct d i u)

pub teardown-IsDistinct :
    (runner : Runner) (tenant : String)
    → IsDistinct runner.jobs
    → IsDistinct (teardown runner tenant).1.jobs
unfolding teardown
teardown-IsDistinct runner tenant =
    remove_all-IsDistinct (tenant_jobs tenant runner.jobs) runner.jobs
