-- ===== src/Artifacts/Process.antt =====
-- `process_artifact` of src/dfir_workbench/artifact_timeline.py. What pathlib, sqlite3 and zipfile read
-- of the source is a `Source`.
pub mod Members
pub mod Traced
pub mod Complete
mod Tests
use Prim.Native.Nat.{Ordering}
use Prim.Native.String.{compare}
use dfir_evidence_workbench.Base.{
  ℕ, ◌+◌, ◌*◌, String, ◌==◌, Bool, true, false, ◌||◌, ◌&&◌, List, [], ◌∷◌, ◌++◌, any, ltb, eqb,
  if◌then◌else◌,
}
use dfir_evidence_workbench.Base.Strings.{◌<>◌, split, starts}
use dfir_evidence_workbench.Base.Json.{Fields}
use dfir_evidence_workbench.Base.Result.{Result, ok, err, ◌>>=◌}
use dfir_evidence_workbench.Staging.Archives.{kept_parts, joined}
use dfir_evidence_workbench.Artifacts.Records.{
  Crash, unreadable_member, Libs, Origin, Record, records_of,
}
use dfir_evidence_workbench.Artifacts.Rows.{
  Readers, Problem, invalid_utf8, malformed_input, archive_invalid, browser_db_unreadable,
  non_object_row, path_traversal_rejected, archive_member_limit_exceeded, source_not_found, Parsed,
  parse_text,
}

-- Bytes: how many, their digest, and the text or the message of the UnicodeDecodeError.
pub record Content : Type 0 where
  pub size : ℕ
  pub digest : String
  pub decoded : Result String String

-- `archive.read`: the bytes, a BadZipFile or OSError, or another exception, as of an encrypted member.
pub data Read : Type 0 where
  bytes : Content → Read
  bad : String → Read
  raises : Read

pub record Member : Type 0 where
  pub filename : String
  pub is_dir : Bool
  pub file_size : ℕ
  -- of the path of the member, in lower case
  pub suffix : String
  pub read : Read

pub record Source : Type 0 where
  pub path : String
  pub is_plain_file : Bool
  pub suffix : String
  pub content : Content
  pub tables : List (String × List Fields)
  -- the message of the exception that ended the reading, if one did
  pub table_error : List String
  pub is_zipfile : Bool
  pub members : Result String (List Member)

abbrev pub precedes : Member → Member → Bool
precedes a b = elim (compare a.filename b.filename) [ Ordering.lt ↦ true | _ ↦ false ]

abbrev pub insert : Member → List Member → List Member
insert m [] = m ∷ []
insert m (n ∷ ns) = let rest = insert m ns in if precedes n m then n ∷ rest else m ∷ n ∷ ns

-- by the names, members of one name in their order
unfoldable pub sorted : List Member → List Member
sorted [] = []
sorted (m ∷ ms) = insert m (sorted ms)

abbrev is_slash : ℕ → Bool
is_slash c = eqb c b'/'

abbrev pub posix_parts : String → List String
posix_parts name = kept_parts (split is_slash name)

abbrev root_of : String → String
root_of name = if starts "//" name && (if starts "///" name then false else true) then "//" else "/"

abbrev after_root : List String → String
after_root [] = ""
after_root (p ∷ ps) = joined (p ∷ ps)

-- `PurePosixPath(name).as_posix()`
unfoldable pub as_posix : String → String
as_posix name =
    if starts "/" name
    then root_of name <> after_root (posix_parts name)
    else joined (posix_parts name)

abbrev pub is_rejected : String → Bool
is_rejected name = starts "/" name || any (λ p. p == "..") (posix_parts name)

abbrev pub max_member : ℕ
max_member = 512 * 1024 * 1024

abbrev pub max_total : ℕ
max_total = 4 * 1024 * 1024 * 1024

abbrev pub is_too_large : ℕ → Member → Bool
is_too_large total m = ltb max_member m.file_size || ltb max_total (total + m.file_size)

abbrev pub with_problem : Problem → Result Crash Parsed → Result Crash Parsed
with_problem p others = others >>= λ (rs, ps). ok (rs, p ∷ ps)

module _ (libs : Libs) (readers : Readers) (path timezone : String) where
  abbrev pub member_origin : Member → Content → Origin
  member_origin m c = record {
    path = path <> ("!/" <> as_posix m.filename);
    digest = c.digest;
    timezone = timezone;
  }

  -- A member that is read, with what becomes of the others after so many bytes.
  abbrev pub parsed_member : Member → ℕ → (ℕ → Result Crash Parsed) → Read → Result Crash Parsed
  parsed_member m total others (bytes c) =
      parse_text libs readers (member_origin m c) m.suffix c.decoded >>= λ (rs, ps).
      others (total + c.size) >>= λ (qs, es). ok (rs ++ qs, ps ++ es)
  parsed_member m total others (bad message) = ok ([], archive_invalid message path ∷ [])
  parsed_member m total others raises = err unreadable_member

  abbrev pub member_step : Member → ℕ → (ℕ → Result Crash Parsed) → Result Crash Parsed
  member_step m total others =
      let rest = others total in
      let read = parsed_member m total others m.read in
      if m.is_dir
      then rest
      else if is_rejected m.filename
      then with_problem (path_traversal_rejected (as_posix m.filename)) rest
      else if is_too_large total m
      then with_problem (archive_member_limit_exceeded (as_posix m.filename)) rest
      else read

  unfoldable pub parse_members : List Member → (total : ℕ) → Result Crash Parsed
  parse_members [] total = ok ([], [])
  parse_members (m ∷ ms) total = member_step m total (parse_members ms)

  abbrev pub parse_archive : Result String (List Member) → Result Crash Parsed
  parse_archive (err message) = ok ([], archive_invalid message path ∷ [])
  parse_archive (ok ms) = parse_members (sorted ms) 0

  abbrev pub table_origin : String → String → Origin
  table_origin digest table = record {
    path = path <> ("#" <> table);
    digest = digest;
    timezone = timezone;
  }

  -- `_sqlite_records`
  unfoldable pub parse_tables : String → List (String × List Fields) → Result Crash (List Record)
  parse_tables digest [] = ok []
  parse_tables digest ((table, rows) ∷ ts) = do
    rs ← records_of libs (table_origin digest table) 0 rows
    qs ← parse_tables digest ts
    ok (rs ++ qs)

abbrev pub unreadable : String → List String → List Problem
unreadable path [] = []
unreadable path (m ∷ ms) = browser_db_unreadable m path ∷ []

pub data Status : Type 0 where
  invalid_input partial complete : Status

-- `unresolved` holds the suffixes whose parsers are missing.
pub record Outcome : Type 0 where
  pub status : Status
  pub records : List Record
  pub errors : List Problem
  pub unresolved : List String

abbrev pub is_fatal : Problem → Bool
is_fatal (malformed_input m p) = true
is_fatal (archive_invalid m p) = true
is_fatal (invalid_utf8 m p) = true
is_fatal p = false

abbrev nothing_wrong : List Problem → List String → Bool
nothing_wrong [] [] = true
nothing_wrong ps us = false

abbrev pub outcome : Parsed → List String → Outcome
outcome (rs, ps) unresolved = record {
  status =
      if any is_fatal ps
      then invalid_input
      else if nothing_wrong ps unresolved
      then complete
      else partial;
  records = rs;
  errors = ps;
  unresolved = unresolved;
}

abbrev pub missing_source : Source → Outcome
missing_source f = record {
  status = invalid_input;
  records = [];
  errors = source_not_found f.path ∷ [];
  unresolved = [];
}

abbrev pub is_binary : String → Bool
is_binary suffix = any (λ s. s == suffix) (".evtx" ∷ ".hive" ∷ ".regf" ∷ [])

abbrev pub is_database : String → Bool
is_database suffix = suffix == ".sqlite" || suffix == ".db"

unfoldable pub process_artifact :
    Libs → Readers → (timezone : String) → Source → Result Crash Outcome
process_artifact libs readers timezone f =
    if f.is_plain_file
    then (if is_binary f.suffix
        then ok (outcome ([], []) (f.suffix ∷ []))
        else if is_database f.suffix
        then (parse_tables libs readers f.path timezone f.content.digest f.tables >>= λ rs.
            ok (outcome (rs, unreadable f.path f.table_error) []))
        else if f.is_zipfile
        then (parse_archive libs readers f.path timezone f.members >>= λ parsed.
            ok (outcome parsed []))
        else (parse_text libs readers
              (record { path = f.path; digest = f.content.digest; timezone = timezone }) f.suffix
              f.content.decoded
            >>= λ parsed. ok (outcome parsed [])))
    else ok (missing_source f)
