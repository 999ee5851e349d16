-- ===== src/Artifacts/Process/Tests.antt =====
-- An archive of two texts, a directory and a member with a name that leads out, a database, and a text
-- that is not UTF-8.
use dfir_evidence_workbench.Base.{
  ℕ, ◌≡◌, refl, String, ◌==◌, Bool, true, false, none, List, [], ◌∷◌, if◌then◌else◌,
}
use dfir_evidence_workbench.Base.Json.{integer, str, object, end, field, value, assign, show}
use dfir_evidence_workbench.Base.Text.{starts_with, is_blank}
use dfir_evidence_workbench.Base.Strings.{pos, split_first, strip, all_digits, ends, drop_last}
use dfir_evidence_workbench.Staging.Archives.{kept_parts, joined}
use dfir_evidence_workbench.Base.Result.{Result, ok, err}
use dfir_evidence_workbench.Artifacts.Records.{
  Crash, Libs, malformed, beyond, zoned, overflow, timestamp, record_of, records_of, Record,
}
use dfir_evidence_workbench.Artifacts.Rows.{
  Readers, path_traversal_rejected, non_object_row, split_lines, splitlines, json_lines, rows_of,
  parse_text,
}
use dfir_evidence_workbench.Artifacts.Process.{
  Content, bytes, Member, Source, sorted, as_posix, parse_members, parse_tables, complete, partial,
  Outcome, process_artifact,
}
use dfir_evidence_workbench.Artifacts.Process.Complete.{IsWhollyRead, process_artifact-complete}

abbrev libs : Libs
libs = record {
  repr = λ v. "?";
  from_epoch = λ digits d. "2023-11-14T22:13:20Z";
  from_iso = λ s.
      if s == "2024-01-01T00:00:00+00:00"
      then zoned "2024-01-01T00:00:00Z"
      else if s == "0001-01-01T00:00:00+01:00"
      then beyond
      else malformed;
  canonical_json = λ v. "{}";
  sha256 = λ s. "44136fa355b3678a1146ad16f7e8649e94fb4fc21fe77e8310c060f61caaff8a";
}

abbrev readers : Readers
readers = record {
  loads = λ s.
      if s == "7"
      then ok (integer (pos 7))
      else ok (object (field "ts" (str "2024-01-01T00:00:00Z") end));
  csv_rows = λ tabs s. ok none;
}

abbrev content : String → String → Content
content digest text = record { size = 10; digest = digest; decoded = ok text }

abbrev member : String → Bool → String → Member
member name is_dir suffix = record {
  filename = name;
  is_dir = is_dir;
  file_size = 10;
  suffix = suffix;
  read = bytes (content "d1" "{}\n\n7\n");
}

abbrev zip : List Member → Source
zip ms = record {
  path = "/case/a.zip";
  is_plain_file = true;
  suffix = ".zip";
  content = record { size = 99; digest = "d0"; decoded = err "invalid start byte" };
  tables = [];
  table_error = [];
  is_zipfile = true;
  members = ok ms;
}

abbrev escaping : Source
escaping = zip (
    member "logs/b.jsonl" false ".jsonl"
    ∷ member "../x.txt" false ".txt"
    ∷ member "logs/" true ""
    ∷ [])

abbrev harmless : Source
harmless = zip (member "logs/" true "" ∷ member "./a.txt" false ".txt" ∷ [])

runs : Unit {0}
unfolding timestamp record_of records_of splitlines split_lines json_lines rows_of parse_text sorted
    as_posix parse_members parse_tables process_artifact starts_with kept_parts split_first is_blank
    value assign strip all_digits show ends drop_last joined
runs = tt

abbrev paths : List Record → List (String × ℕ)
paths [] = []
paths (r ∷ rs) = (r.source_path, r.source_row) ∷ paths rs

abbrev shown : Result Crash Outcome → List (String × ℕ)
shown (ok out) = paths out.records
shown (err e) = []

escaping_shown :
    shown (process_artifact libs readers "UTC" escaping)
    ≡ ("/case/a.zip!/logs/b.jsonl", 1) ∷ ("/case/a.zip!/logs/b.jsonl", 2) ∷ []
unfolding runs
escaping_shown = refl

abbrev nothing : Outcome
nothing = record { status = partial; records = []; errors = []; unresolved = [] }

abbrev result : Result Crash Outcome → Outcome
result (ok out) = out
result (err e) = nothing

-- What the source is parsed into.
abbrev outcome_of : Source → Outcome
outcome_of f = result (process_artifact libs readers "UTC" f)

harmless_status : (outcome_of harmless).status ≡ complete
unfolding runs
harmless_status = refl

escaping_status : (outcome_of escaping).status ≡ partial
unfolding runs
escaping_status = refl

escaping_errors :
    (outcome_of escaping).errors
    ≡ path_traversal_rejected "../x.txt" ∷ non_object_row 3 "/case/a.zip!/logs/b.jsonl" ∷ []
unfolding runs
escaping_errors = refl

-- the first year, at an offset to the east
overflowing : timestamp libs (str "0001-01-01T00:00:00+01:00") "UTC" ≡ err overflow
unfolding runs
overflowing = refl

process_artifact-complete_example : IsWhollyRead harmless
unfolding runs
process_artifact-complete_example =
    process_artifact-complete libs readers "UTC" harmless (outcome_of harmless) refl refl
