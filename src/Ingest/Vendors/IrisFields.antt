-- ===== src/Ingest/Vendors/IrisFields.antt =====
-- The helpers of src/dfir_workbench/adapters/dfir_iris_ingest_adapter.py. Digits are ASCII digits.
use dfir_evidence_workbench.Base.{
  ℕ, ◌==◌, String, Bool, true, not, ◌||◌, ◌&&◌, Option, none, some, List, [], ◌∷◌, length, ltb, leb,
  eqb, if◌then◌else◌,
}
use dfir_evidence_workbench.Base.Text.{or_text, codes}
use dfir_evidence_workbench.Base.Strings.{
  ◌<>◌, strip, lower_text, has_text, starts, ends, split, all_digits, ℤ, pos, int_of_text,
}
use dfir_evidence_workbench.Base.Json.{
  Json, null, boolean, integer, float, str, array, object, Items, nil, cons, Fields, end, value,
  has_key, assign, truthy, ◌or◌, show, safe_str, keep_fields,
}
use dfir_evidence_workbench.Base.Result.{Result, ok, err}
use dfir_evidence_workbench.Ingest.Interop.{IngestError, utc_timestamp}
use dfir_evidence_workbench.Ingest.Vendors.Entities.{
  Surroundings, Stamp, fallback_stamp, is_utc, overridden, first_true, with_true,
}

-- `[s for s in (t.strip() for t in parts) if s]`
unfoldable pub stripped_items : (Json → String) → Items → Items
stripped_items repr nil = nil
stripped_items repr (cons t ts) =
    let rest = stripped_items repr ts in
    if strip (show repr t) == "" then rest else cons (str (strip (show repr t))) rest

unfoldable pub stripped_texts : List String → Items
stripped_texts [] = nil
stripped_texts (s ∷ ss) =
    let rest = stripped_texts ss in if strip s == "" then rest else cons (str (strip s)) rest

-- `_parse_iris_tags`
unfoldable pub parse_iris_tags : (Json → String) → Json → Items
parse_iris_tags repr (array ts) = stripped_items repr ts
parse_iris_tags repr (str s) = stripped_texts (split (λ c. eqb c b',') s)
parse_iris_tags repr v = nil

abbrev is_date_sign : ℕ → Bool
is_date_sign c = eqb c b'/' || eqb c b'-'

abbrev is_day : String → Bool
is_day s = all_digits (codes s) && (leb 1 (length (codes s)) && leb (length (codes s)) 2)

abbrev is_year : String → Bool
is_year s = all_digits (codes s) && eqb (length (codes s)) 4

abbrev two_digits : String → String
two_digits s = if eqb (length (codes s)) 1 then "0" <> s else s

abbrev iso_of : String → List String → String
iso_of s (d ∷ m ∷ y ∷ []) =
    if is_day d && (is_day m && is_year y)
    then y <> ("-" <> (two_digits m <> ("-" <> (two_digits d <> "T00:00:00Z"))))
    else s
iso_of s parts = s

abbrev has_time_or_zone : String → Bool
has_time_or_zone s =
    has_text "T" s
    || ends "Z" s
    || ((has_text "+" s || has_text "-" s) && ltb 10 (length (codes s)))

abbrev normalize_text : String → Option String
normalize_text s =
    if s == ""
    then none
    else some (if has_time_or_zone s then s else iso_of s (split is_date_sign s))

-- `_normalize_iris_ts`
unfoldable pub normalize_iris_ts : (Json → String) → Json → Option String
normalize_iris_ts repr v = if truthy v then normalize_text (strip (show repr v)) else none

unfoldable pub rstrip_z : String → String
rstrip_z String.[] = ""
rstrip_z (String.◌∷◌ c s) =
    let rest = rstrip_z s in if rest == "" && String.◌∷◌ c "" == "Z" then "" else String.◌∷◌ c rest

abbrev zoned : String → String
zoned ts =
    if not (has_text "Z" ts || has_text "+" ts || has_text "-00:00" ts || has_text "+00:00" ts)
      || not (has_text "T" ts)
    then (if has_text "T" ts then rstrip_z ts <> "Z" else ts <> "T00:00:00Z")
    else ts

abbrev iris_zone : Surroundings → Fields → String → String
iris_zone env raw ts =
    if is_utc ts then "UTC" else or_text (safe_str env.repr (value raw "event_tz")) "UTC"

abbrev iris_stamp_or :
    Surroundings → Fields → String → Result IngestError (String × String) → Stamp → Stamp
iris_stamp_or env raw ts (ok (r, u)) other = record {
  raw_ts = r;
  utc_ts = u;
  tz = iris_zone env raw ts;
}
iris_stamp_or env raw ts (err e) other = other

abbrev iris_stamp_from : Surroundings → Fields → Option String → Stamp → Stamp
iris_stamp_from env raw none other = other
iris_stamp_from env raw (some cand) other =
    iris_stamp_or env raw (zoned cand) (utc_timestamp env.fromisoformat (zoned cand)) other

-- `_choose_ts`
unfoldable pub iris_choose_ts : Surroundings → Fields → List String → Stamp
iris_choose_ts env raw [] = fallback_stamp
iris_choose_ts env raw (k ∷ ks) =
    let rest = iris_choose_ts env raw ks in
    iris_stamp_from env raw (normalize_iris_ts env.repr (value raw k)) rest

-- the first key whose value is not `None`
unfoldable pub first_present : Fields → List String → Json
first_present raw [] = null
first_present raw (k ∷ ks) = present (value raw k) (first_present raw ks)
  where
    present : Json → Json → Json
    present null rest = rest
    present v rest = v

abbrev uuid_keys : List String
uuid_keys =
    "case_uuid" ∷ "ioc_uuid" ∷ "asset_uuid" ∷ "event_uuid" ∷ "note_uuid" ∷ "alert_uuid"
    ∷ "file_uuid" ∷ "uuid" ∷ []

abbrev id_keys : List String
id_keys = "case_id" ∷ "ioc_id" ∷ "asset_id" ∷ "event_id" ∷ "note_id" ∷ "id" ∷ []

abbrev shown_or : (Json → String) → Json → String → String
shown_or repr null other = other
shown_or repr v other = show repr v

unfoldable pub iris_source_id : Surroundings → Fields → Option String → Json
iris_source_id env raw override = overridden override (
    str (
      shown_or env.repr (first_true raw uuid_keys null)
        (shown_or env.repr (first_present raw id_keys) env.synthetic_id)))

abbrev revision_keys : List String
revision_keys =
    "updatedAt" ∷ "updated_at" ∷ "note_lastupdate" ∷ "event_date_wtz" ∷ "date_added"
    ∷ "modification_date" ∷ "createdAt" ∷ "created_at" ∷ "note_creationdate" ∷ "case_open_date"
    ∷ "acquisition_date" ∷ []

unfoldable pub iris_source_revision : Surroundings → Fields → Option String → Json
iris_source_revision env raw override =
    overridden override
      (str (or_text (safe_str env.repr (first_true raw revision_keys null)) "rev-1"))

unfoldable pub map_tlp : (Json → String) → Json → Option String
map_tlp repr null = none
map_tlp repr (str s) = some (strip (lower_text s))
map_tlp repr v = some (show repr v)

abbrev pub with_items : String → Items → Fields → Fields
with_items k nil p = p
with_items k (cons t ts) p = assign p k (array (cons t ts))

abbrev is_open_key : String → Bool
is_open_key k = not (
    starts "_" (lower_text k)
    || starts "secret" (lower_text k)
    || starts "token" (lower_text k)
    || starts "key" (lower_text k))

abbrev open_fields : Json → Fields
open_fields (object fs) = keep_fields is_open_key fs
open_fields v = end

-- `_base_case_or_alert` without the custom fields, and these
unfoldable pub base_case_or_alert : (Json → String) → Fields → Fields
base_case_or_alert repr raw =
    let titled =
      with_true "title"
        (safe_str repr (value raw "case_name" or (value raw "title" or value raw "alert_title")))
        end in
    let described =
      with_true "description"
        (safe_str repr (
          value raw "case_description"
          or (value raw "description" or value raw "alert_description")))
        titled in
    let severe =
      if has_key raw "severity" || has_key raw "priority"
      then assign described "severity" (value raw "severity" or value raw "priority")
      else described in
    let marked = with_true "tlp" (map_tlp repr (value raw "tlp" or value raw "tlp_name")) severe in
    let doubled = with_true "pap" (map_tlp repr (value raw "pap" or value raw "tlp_name")) marked in
    with_items "tags"
      (parse_iris_tags repr (value raw "tags" or (value raw "case_tags" or value raw "alert_tags")))
      doubled

unfoldable pub base_custom_fields : Fields → Fields
base_custom_fields raw =
    open_fields
      (value raw "customFields" or (value raw "custom_attributes" or value raw "custom_fields"))

abbrev or_zero : Option ℤ → ℤ
or_zero none = pos 0
or_zero (some n) = n

-- `int(size)`, and 0 where it raises or the size is missing
unfoldable pub size_of_json : Json → ℤ
size_of_json (boolean true) = pos 1
size_of_json (integer n) = n
size_of_json (float f) = or_zero f.truncated
size_of_json (str s) = or_zero (int_of_text (codes (strip s)))
size_of_json v = pos 0

unfoldable pub all_hex : List ℕ → Bool
all_hex [] = true
all_hex (c ∷ s) =
    ((leb b'0' c && leb c b'9') || (leb b'a' c && leb c b'f') || (leb b'A' c && leb c b'F'))
    && all_hex s

abbrev pub is_full_sha256 : String → Bool
is_full_sha256 s = eqb (length (codes s)) 64 && all_hex (codes s)
