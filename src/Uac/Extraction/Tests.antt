-- ===== src/Uac/Extraction/Tests.antt =====
-- An archive with a file, a name that leads out, a file that is too large, and one that comes twice.
use dfir_evidence_workbench.Base.{ℕ, ◌≡◌, refl, String, true, false, some, List, [], ◌∷◌}
use dfir_evidence_workbench.Base.Text.{starts_with}
use dfir_evidence_workbench.Base.Strings.{split_first}
use dfir_evidence_workbench.Base.Dict.{get, put}
use dfir_evidence_workbench.Staging.Archives.{joined}
use dfir_evidence_workbench.Uac.Names.{
  path_traversal_rejected, total_limit_exceeded, archive_member_invalid, slashed, normpath,
  safe_member,
}
use dfir_evidence_workbench.Uac.Copies.{
  SafetyLimits, blocks, adapter_error, Progress, parents, read_blocks, copy_stream,
}
use dfir_evidence_workbench.Uac.Copies.Contained.{Files, IsContained}
use dfir_evidence_workbench.Uac.Extraction.{
  ZipMember, Source, zip, wanted, refusals, extract, status, partial,
}
use dfir_evidence_workbench.Uac.Extraction.Contained.{is_allowed, extract-IsContained}

abbrev limits : SafetyLimits
limits = record { max_file_bytes = 3; max_total_bytes = 5 }

abbrev member : String → List (List ℕ) → ZipMember
member name bs = record {
  filename = name;
  is_dir = false;
  is_encrypted = false;
  content = blocks bs false;
}

abbrev source : Source
source = zip (
    member "logs/./a.txt" ((1 ∷ 2 ∷ []) ∷ (3 ∷ []) ∷ [])
    ∷ member "logs\\..\\..\\b" ((1 ∷ []) ∷ [])
    ∷ member "c" ((1 ∷ 2 ∷ 3 ∷ []) ∷ [])
    ∷ member "d" ((1 ∷ []) ∷ [])
    ∷ [])

abbrev allowlist : List String
allowlist = "logs/a.txt" ∷ "c" ∷ "../d" ∷ []

abbrev before : Files
before = ("old", 9 ∷ []) ∷ []

runs : Unit {0}
unfolding starts_with split_first joined get put slashed normpath safe_member parents read_blocks
    copy_stream wanted refusals extract
runs = tt

abbrev result : Progress
result = extract limits true source allowlist before []

result_files : result.files ≡ ("old", 9 ∷ []) ∷ ("logs/a.txt", 1 ∷ 2 ∷ 3 ∷ []) ∷ []
unfolding runs
result_files = refl

result_errors :
    result.errors
    ≡ path_traversal_rejected "../d"
      ∷ path_traversal_rejected "logs\\..\\..\\b"
      ∷ total_limit_exceeded "c"
      ∷ []
unfolding runs
result_errors = refl

result_status : status allowlist result ≡ partial
unfolding runs
result_status = refl

-- A second extraction of the same name raises and is not reported as an error of the result.
repeated :
    (extract limits true source allowlist result.files []).raised
    ≡ some (adapter_error (archive_member_invalid "logs/a.txt"))
unfolding runs
repeated = refl

-- A read that raises leaves the temporary file.
broken : (copy_stream limits "a" (blocks [] true) result).left_over ≡ ("a", []) ∷ []
unfolding runs
broken = refl

extract-IsContained_example : IsContained limits (is_allowed allowlist) before result
extract-IsContained_example = extract-IsContained limits true source allowlist before []
