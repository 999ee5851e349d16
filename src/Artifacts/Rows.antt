-- ===== src/Artifacts/Rows.antt =====
-- `_parse_text` of src/dfir_workbench/artifact_timeline.py. json.loads and csv are parameters.
use dfir_evidence_workbench.Base.{
  ℕ, suc, ◌==◌, String, Bool, false, ◌||◌, ◌&&◌, Option, none, some, List, [], ◌∷◌, ◌++◌, leb, eqb,
  if◌then◌else◌,
}
pub mod Located
use Prim.Native.Char.{code}
use dfir_evidence_workbench.Base.Text.{codes, is_blank}
use dfir_evidence_workbench.Base.Json.{
  Json, str, array, object, Items, nil, cons, Fields, end, field,
}
use dfir_evidence_workbench.Base.Result.{Result, ok, err, ◌>>=◌}
use dfir_evidence_workbench.Artifacts.Records.{Crash, Libs, Origin, Record, records_of}

pub record Readers : Type 0 where
  pub loads : String → Result String Json
  -- the rows of a table, whose separator is the tab or the comma; `none` where there is no header
  pub csv_rows : (tabs : Bool) → String → Result String (Option (List Fields))

pub data Problem : Type 0 where
  invalid_utf8 malformed_input archive_invalid browser_db_unreadable :
      (message path : String) → Problem
  non_object_row : ℕ → (path : String) → Problem
  path_traversal_rejected archive_member_limit_exceeded source_not_found : (path : String) → Problem

abbrev is_boundary : ℕ → Bool
is_boundary c =
    (leb 10 c && leb c 13) || (leb 28 c && leb c 30) || eqb c 0x85 || eqb c 0x2028 || eqb c 0x2029

abbrev starts_lf : String → Bool
starts_lf String.[] = false
starts_lf (String.◌∷◌ c s) = eqb (code c) 10

unfoldable pub split_lines : String → String × List String
split_lines String.[] = ("", [])
split_lines (String.◌∷◌ c s) =
    let (line, others) = split_lines s in
    if eqb (code c) 13 && starts_lf s
    then (line, others)
    else if is_boundary (code c)
    then ("", line ∷ others)
    else (String.◌∷◌ c line, others)

abbrev without_last_empty : List String → List String
without_last_empty [] = []
without_last_empty (l ∷ []) = if l == "" then [] else l ∷ []
without_last_empty (l ∷ m ∷ ls) = l ∷ without_last_empty (m ∷ ls)

-- `text.splitlines()`
unfoldable pub splitlines : String → List String
unfolding split_lines
splitlines s = let (line, others) = split_lines s in without_last_empty (line ∷ others)

abbrev pub as_row : Json → Fields
as_row (object fs) = fs
as_row v = field "value" v end

abbrev pub non_object : ℕ → String → Json → List Problem
non_object number path (object fs) = []
non_object number path v = non_object_row number path ∷ []

-- The lines from the one with the number `suc n` on.
unfoldable pub json_lines :
    Readers → String → ℕ → List String → Result String (List Fields × List Problem)
json_lines readers path n [] = ok ([], [])
json_lines readers path n (l ∷ ls) =
    let others = json_lines readers path (suc n) ls in
    let read = readers.loads l >>= λ v.
    others >>= λ (rows, problems). ok (as_row v ∷ rows, non_object (suc n) path v ++ problems) in
    if is_blank (codes l) then others else read

abbrev rows_of_items : Items → List Fields
rows_of_items nil = []
rows_of_items (cons v vs) = as_row v ∷ rows_of_items vs

abbrev rows_of_json : Json → List Fields
rows_of_json (array vs) = rows_of_items vs
rows_of_json v = as_row v ∷ []

abbrev with_header : Option (List Fields) → Result String (List Fields × List Problem)
with_header none = err "missing header"
with_header (some rows) = ok (rows, [])

abbrev pub line_rows : List String → List Fields
line_rows [] = []
line_rows (l ∷ ls) =
    let rest = line_rows ls in if is_blank (codes l) then rest else field "line" (str l) end ∷ rest

unfoldable pub rows_of :
    Readers → (suffix path text : String) → Result String (List Fields × List Problem)
rows_of readers suffix path text =
    if suffix == ".jsonl" || suffix == ".ndjson"
    then json_lines readers path 0 (splitlines text)
    else if suffix == ".json"
    then (readers.loads text >>= λ v. ok (rows_of_json v, []))
    else if suffix == ".csv" || suffix == ".tsv"
    then (readers.csv_rows (suffix == ".tsv") text >>= with_header)
    else ok (line_rows (splitlines text), [])

abbrev pub Parsed : Type 0
Parsed = List Record × List Problem

abbrev pub recorded :
    Libs → Origin → Result String (List Fields × List Problem) → Result Crash Parsed
recorded libs o (err message) = ok ([], malformed_input message o.path ∷ [])
recorded libs o (ok (rows, problems)) = records_of libs o 0 rows >>= λ rs. ok (rs, problems)

-- `_parse_text`, with the text or the message of its UnicodeDecodeError
unfoldable pub parse_text :
    Libs → Readers → Origin → (suffix : String) → Result String String → Result Crash Parsed
parse_text libs readers o suffix (err message) = ok ([], invalid_utf8 message o.path ∷ [])
parse_text libs readers o suffix (ok text) = recorded libs o (rows_of readers suffix o.path text)
