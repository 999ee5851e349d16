-- ===== src/Artifacts/Submission.antt =====
-- `OpenRelikFastPath.submit` of src/dfir_workbench/artifact_timeline.py: results of Velociraptor as jobs.
mod Tests
use text.Mathlib.TextEquality.{eq_iff}
use dfir_evidence_workbench.Base.{
  ℕ, suc, ◌≡◌, refl, String, ◌==◌, Bool, true, false, not, Option, none, some, List, [], ◌∷◌, arith,
  if◌then◌else◌,
}
use dfir_evidence_workbench.Base.Dict.{Dict, get, put, string_eq, get-put, get-put_self, dict_laws}
use dfir_evidence_workbench.Base.Strings.{◌<>◌}
use dfir_evidence_workbench.Base.Json.{Json, null, str, array, object, Items, nil, cons, end, field}
use dfir_evidence_workbench.Artifacts.Records.{Libs}

-- What is read of a result: the digest of its source, null where there is none, and its records.
pub record Submitted : Type 0 where
  pub case_id : String
  pub source_sha256 : Json
  pub records : Items

pub record Job : Type 0 where
  pub idempotency_key : String
  pub payload_sha256 : String
  pub case_id : String
  pub input_hash : Json
  pub records : ℕ

pub data Answer : Type 0 where
  accepted duplicate : Job → Answer
  conflict : (idempotency_key : String) → Answer

swapped :
    {A : Type 0} (s t : String) (x y : A)
    → (if not (s == t) then x else y) ≡ (if t == s then y else x)
swapped s t x y = ground (arith, eq_iff s t, eq_iff t s)

abbrev pub count : Items → ℕ
count nil = 0
count (cons v vs) = suc (count vs)

module _ (libs : Libs) where
  abbrev pub key_of : Submitted → String
  key_of r =
      "vr-"
      <> libs.sha256 (
          libs.canonical_json
            (object (field "case_id" (str r.case_id) (field "source_sha256" r.source_sha256 end))))

  abbrev pub payload_hash : Submitted → String
  payload_hash r = libs.sha256 (
      libs.canonical_json (
        object (
          field "case_id" (str r.case_id) (
            field "source_sha256" r.source_sha256 (
              field "workflow" (str "artifact-timeline/v1")
                (field "records" (array r.records) end))))))

  abbrev pub job_of : Submitted → Job
  job_of r = record {
    idempotency_key = key_of r;
    payload_sha256 = payload_hash r;
    case_id = r.case_id;
    input_hash = r.source_sha256;
    records = count r.records;
  }

  abbrev pub with_existing : Submitted → Dict String Job → Option Job → Answer × Dict String Job
  with_existing r jobs (some job) = (
    if not (job.payload_sha256 == payload_hash r) then conflict (key_of r) else duplicate job,
    jobs,
  )
  with_existing r jobs none = (accepted (job_of r), put jobs (key_of r) (job_of r))

  unfoldable pub submit : Submitted → Dict String Job → Answer × Dict String Job
  submit r jobs = with_existing r jobs (get jobs (key_of r))

  abbrev pub submit_all : List Submitted → Dict String Job → Dict String Job
  submit_all [] jobs = jobs
  submit_all (r ∷ rs) jobs = submit_all rs ((submit r jobs).1)

  submit_keeps :
      (r : Submitted) (jobs : Dict String Job) (k : String) {job : Job}
      → get jobs k ≡ some job
      → get ((submit r jobs).1) k ≡ some job
  unfolding submit
  submit_keeps r jobs k {job} held = at (get jobs (key_of r)) refl
    where
      at :
          (o : Option Job) → get jobs (key_of r) ≡ o → get ((with_existing r jobs o).1) k ≡ some job
      at (some j) e = held
      at none e =
          ground (arith, get-put jobs (key_of r) k (job_of r), string_eq.beq_iff (key_of r) k)

  submit_all_keeps :
      (rs : List Submitted) (jobs : Dict String Job) (k : String) {job : Job}
      → get jobs k ≡ some job
      → get (submit_all rs jobs) k ≡ some job
  submit_all_keeps [] jobs k held = held
  submit_all_keeps (r ∷ rs) jobs k held =
      submit_all_keeps rs ((submit r jobs).1) k (submit_keeps r jobs k held)

  -- An accepted job is stored under its key, with the hash of its payload.
  submit-accepted :
      (r : Submitted) (jobs : Dict String Job) {job : Job} {later : Dict String Job}
      → submit r jobs ≡ (accepted job, later)
      → (get later (key_of r) ≡ some job) × (job.payload_sha256 ≡ payload_hash r)
  unfolding submit
  submit-accepted r jobs {job} {later} = at (get jobs (key_of r))
    where
      at :
          (o : Option Job)
          → with_existing r jobs o ≡ (accepted job, later)
          → (get later (key_of r) ≡ some job) × (job.payload_sha256 ≡ payload_hash r)
      at (some j) e = never (not (j.payload_sha256 == payload_hash r)) e
        where
          never :
              (b : Bool)
              → ◌≡◌ {A = Answer × Dict String Job}
                  (if b then conflict (key_of r) else duplicate j, jobs)
                  (accepted job, later)
              → (get later (key_of r) ≡ some job) × (job.payload_sha256 ≡ payload_hash r)
          never true e = cc
          never false e = cc
      at none e =
          let stored = get-put_self jobs (key_of r) (job_of r) in
          let same : job_of r ≡ job = cc in
          let after : put jobs (key_of r) (job_of r) ≡ later = cc in (cc, cc)

  -- Once a result was accepted as a job, whatever is submitted afterwards, submitting a result of the same
  -- case and the same source changes no job: it is answered as a duplicate with that job if its payload has
  -- the same hash, and otherwise as a conflict under the key of the job.
  pub submit_again :
      (r : Submitted) (jobs : Dict String Job) {job : Job} {later : Dict String Job}
      → submit r jobs ≡ (accepted job, later)
      → (rs : List Submitted) (q : Submitted) → q.case_id ≡ r.case_id
      → q.source_sha256 ≡ r.source_sha256
      → submit q (submit_all rs later) ≡ (
        if payload_hash q == payload_hash r then duplicate job else conflict (key_of r),
        submit_all rs later,
      )
  unfolding submit
  submit_again r jobs {job} {later} e rs q same_case same_source =
      let (stored, hashed) = submit-accepted r jobs e in
      let kept = submit_all_keeps rs later (key_of r) stored in
      let same_key : key_of q ≡ key_of r = cc in
      let found : get (submit_all rs later) (key_of q) ≡ some job = cc in
      at (submit_all rs later) hashed same_key (get (submit_all rs later) (key_of q)) found
    where
      at :
          (jobs : Dict String Job)
          → job.payload_sha256 ≡ payload_hash r
          → key_of q ≡ key_of r
          → (o : Option Job) → o ≡ some job
          → with_existing q jobs o ≡ (
            if payload_hash q == payload_hash r then duplicate job else conflict (key_of r),
            jobs,
          )
      at jobs hashed k (some j) e =
          let same : j ≡ job = cc in
          let tested =
            swapped j.payload_sha256 (payload_hash q) (conflict (key_of q)) (duplicate j) in
          cc
      at jobs hashed k none e = cc
