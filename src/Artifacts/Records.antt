-- ===== src/Artifacts/Records.antt =====
-- `_timestamp` and `_record` of src/dfir_workbench/artifact_timeline.py. What datetime makes of texts,
-- the `repr` of lists and dicts, canonical JSON and the digest are parameters. Canonical JSON is
-- taken to encode: on lone surrogates, on bytes and on surplus columns of CSV the source raises.
use dfir_evidence_workbench.Base.{
  ℕ, zero, suc, ◌==◌, String, Bool, true, false, Option, none, some, List, [], ◌∷◌, eqb, length,
  if◌then◌else◌,
}
use dfir_evidence_workbench.Base.Text.{codes}
use dfir_evidence_workbench.Base.Strings.{◌<>◌, strip, ends, drop_last, all_digits, pos}
use dfir_evidence_workbench.Base.Json.{
  Json, null, integer, str, object, Fields, end, field, value, assign, show,
}
use dfir_evidence_workbench.Base.Result.{Result, ok, err, ◌>>=◌}

-- An exception that nothing catches.
pub data Crash : Type 0 where
  overflow unreadable_member : Crash

-- What `fromisoformat` and `astimezone(utc)` make of a text: a ValueError, an OverflowError, or the time
-- in UTC, a value with no zone being taken as UTC.
pub data Instant : Type 0 where
  malformed beyond : Instant
  zoned naive : String → Instant

pub record Libs : Type 0 where
  pub repr : Json → String
  pub from_epoch : (digits : String) (divisor : ℕ) → String
  pub from_iso : String → Instant
  pub canonical_json : Json → String
  pub sha256 : String → String

abbrev pub Stamp : Type 0
Stamp = Option String × Option String × String

-- the divisor of a text of digits
abbrev pub divisor : String → Option ℕ
divisor raw =
    if all_digits (codes raw)
    then (if eqb (length (codes raw)) 10
        then some 1
        else if eqb (length (codes raw)) 13
        then some 1000
        else if eqb (length (codes raw)) 16
        then some 1000000
        else none)
    else none

abbrev candidate : String → String
candidate raw = if ends "Z" raw then drop_last raw <> "+00:00" else raw

abbrev pub stamp_of : String → String → Instant → Result Crash Stamp
stamp_of raw tz malformed = ok (some raw, none, tz)
stamp_of raw tz beyond = err overflow
stamp_of raw tz (zoned utc) = ok (some raw, some utc, tz)
stamp_of raw tz (naive utc) = ok (some raw, some utc, tz <> " (assumed for timezone-less value)")

-- `value is None or value == ""`
abbrev pub is_empty : Json → Bool
is_empty null = true
is_empty (str s) = s == ""
is_empty v = false

abbrev pub epoch_or_iso : Libs → String → String → Option ℕ → Result Crash Stamp
epoch_or_iso libs raw tz (some d) = ok (some raw, some (libs.from_epoch raw d), tz)
epoch_or_iso libs raw tz none = stamp_of raw tz (libs.from_iso (candidate raw))

unfoldable pub timestamp : Libs → Json → String → Result Crash Stamp
timestamp libs v tz =
    if is_empty v
    then ok (none, none, tz)
    else let raw = strip (show libs.repr v) in epoch_or_iso libs raw tz (divisor raw)

abbrev pub time_keys : List String
time_keys = "timestamp" ∷ "time" ∷ "datetime" ∷ "date" ∷ "ts" ∷ "Timestamp" ∷ []

abbrev pub first_time : Fields → List String → Json
first_time fs [] = null
first_time fs (k ∷ ks) =
    let rest = first_time fs ks in if is_empty (value fs k) then rest else value fs k

abbrev or_null : Option String → Json
or_null none = null
or_null (some s) = str s

abbrev pub stamped : Fields → Stamp → Fields
stamped fs (none, utc, tz) = fs
stamped fs (some raw, utc, tz) =
    assign (assign (assign fs "time_raw" (str raw)) "time_utc" (or_null utc)) "source_timezone"
      (str tz)

abbrev first_chars : ℕ → String → String
first_chars zero s = ""
first_chars (suc n) String.[] = ""
first_chars (suc n) (String.◌∷◌ c s) = String.◌∷◌ c (first_chars n s)

-- Its provenance repeats the path, row and digest, and says that it is not reviewed.
pub record Record : Type 0 where
  pub record_key : String
  pub source_path : String
  pub source_row : ℕ
  pub source_sha256 : String
  pub payload : Fields

-- Where rows come from: a path, the digest of the bytes, and the time zone that is assumed.
pub record Origin : Type 0 where
  pub path : String
  pub digest : String
  pub timezone : String

abbrev key_of : Libs → String → ℕ → Fields → String
key_of libs path row body = first_chars 24 (
    libs.sha256 (
      libs.canonical_json (
        object (
          field "source_path" (str path)
            (field "row" (integer (pos row)) (field "payload" (object body) end))))))

-- `_record`
unfoldable pub record_of : Libs → Origin → ℕ → Fields → Result Crash Record
record_of libs o row payload = do
  stamp ← timestamp libs (first_time payload time_keys) o.timezone
  let body = stamped payload stamp
  ok (record {
    record_key = key_of libs o.path row body;
    source_path = o.path;
    source_row = row;
    source_sha256 = o.digest;
    payload = body;
  })

-- the records of rows, numbered from `suc n`
unfoldable pub records_of : Libs → Origin → ℕ → List Fields → Result Crash (List Record)
records_of libs o n [] = ok []
records_of libs o n (row ∷ rows) = do
  r ← record_of libs o (suc n) row
  rs ← records_of libs o (suc n) rows
  ok (r ∷ rs)
