-- ===== src/Artifacts/Submission/Tests.antt =====
-- A result, the same result of another case, and one of the same source that lost its record.
use dfir_evidence_workbench.Base.{◌≡◌, refl, String, [], ◌∷◌}
use dfir_evidence_workbench.Base.Json.{Json, null, str, array, object, nil, cons, value}
use dfir_evidence_workbench.Base.Strings.{◌<>◌}
use dfir_evidence_workbench.Base.Dict.{get, put}
use dfir_evidence_workbench.Artifacts.Records.{Libs, malformed}
use dfir_evidence_workbench.Artifacts.Submission.{
  Submitted, accepted, conflict, job_of, key_of, submit, submit_all, submit_again,
}

abbrev text_of : Json → String
text_of (str s) = s
text_of (array nil) = "none"
text_of v = "some"

abbrev libs : Libs
libs = record {
  repr = λ v. "?";
  from_epoch = λ digits d. digits;
  from_iso = λ s. malformed;
  canonical_json = λ v. elim v [
    | object fs ↦ text_of (value fs "case_id") <> text_of (value fs "records")
    | _ ↦ "?"
  ];
  sha256 = λ s. s;
}

abbrev full : Submitted
full = record { case_id = "c1"; source_sha256 = str "d1"; records = cons null nil }

abbrev lost : Submitted
lost = record { case_id = "c1"; source_sha256 = str "d1"; records = nil }

abbrev other : Submitted
other = record { case_id = "c2"; source_sha256 = str "d1"; records = cons null nil }

runs : Unit {0}
unfolding submit get put value
runs = tt

first_of_case : (submit libs full []).0 ≡ accepted (job_of libs full)
unfolding runs
first_of_case = refl

submit_again_example :
    submit libs lost (submit_all libs (other ∷ full ∷ []) ((submit libs full []).1))
    ≡ (conflict (key_of libs full), submit_all libs (other ∷ full ∷ []) ((submit libs full []).1))
unfolding runs
submit_again_example = submit_again libs full [] refl (other ∷ full ∷ []) lost refl refl
