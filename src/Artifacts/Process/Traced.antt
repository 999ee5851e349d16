-- ===== src/Artifacts/Process/Traced.antt =====
-- Where the records of src/dfir_workbench/artifact_timeline.py come from.
use dfir_evidence_workbench.Base.{◌≡◌, String, true, false, List, []}
use dfir_evidence_workbench.Base.Strings.{◌<>◌}
use dfir_evidence_workbench.Base.Json.{Fields}
use dfir_evidence_workbench.Base.Result.{Result, ok, err}
use dfir_evidence_workbench.Artifacts.Records.{Libs, Record}
use dfir_evidence_workbench.Artifacts.Rows.{Readers, Parsed}
use dfir_evidence_workbench.Artifacts.Process.{Member, Source, is_binary, is_database}
use dfir_evidence_workbench.Artifacts.Rows.Located.{AreRows, AreParts}
use dfir_evidence_workbench.Artifacts.Process.Members.{Among, IsOfMember}

-- The path and the digest of one of the tables.
pub data IsOfTable (f : Source) (ts : List (String × List Fields)) (at_path digest : String)
    : Type 0 where
  of_table :
      (table : String) (rows : List Fields)
      → Among (table, rows) ts
      → at_path ≡ f.path <> ("#" <> table)
      → digest ≡ f.content.digest
      → IsOfTable f ts at_path digest

-- The records that a source of each kind has.
pub data IsTraced (f : Source) (rs : List Record) : Type 0 where
  of_no_file : f.is_plain_file ≡ false → rs ≡ [] → IsTraced f rs
  of_binary : is_binary f.suffix ≡ true → rs ≡ [] → IsTraced f rs
  of_bad_archive : (message : String) → f.members ≡ err message → rs ≡ [] → IsTraced f rs
  of_database : is_database f.suffix ≡ true → AreParts (IsOfTable f f.tables) rs → IsTraced f rs
  of_archive :
      is_database f.suffix ≡ false
      → f.is_zipfile ≡ true
      → (ms : List Member) → f.members ≡ ok ms
      → AreParts (IsOfMember f.path ms) rs
      → IsTraced f rs
  of_text :
      is_database f.suffix ≡ false
      → f.is_zipfile ≡ false
      → AreRows f.path f.content.digest 0 rs
      → IsTraced f rs

module _ (libs : Libs) (readers : Readers) (timezone : String) (f : Source) where
  abbrev HasTraced : Parsed → Type 0
  HasTraced p = IsTraced f (p.0)
