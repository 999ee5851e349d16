-- ===== src/Ingest/Vendors/HiveFields.antt =====
-- The helpers of src/dfir_workbench/adapters/thehive_ingest_adapter.py.
use dfir_evidence_workbench.Base.{
  ◌==◌, String, Bool, true, false, not, ◌||◌, Option, none, some, List, [], ◌∷◌, if◌then◌else◌,
  zero, suc,
}
use dfir_evidence_workbench.Base.Text.{or_text, codes}
use dfir_evidence_workbench.Base.Strings.{
  strip, lower_text, starts, ℤ, pos, negsuc, show_int, int_of_text,
}
use dfir_evidence_workbench.Base.Json.{
  Json, null, boolean, integer, float, str, array, object, nil, Fields, end, value, has_key, assign,
  truthy, ◌or◌, safe_str, keep_fields,
}
use dfir_evidence_workbench.Base.Result.{Result, ok, err, ◌>>=◌}
use dfir_evidence_workbench.Ingest.Interop.{IngestError, internal, utc_timestamp}
use dfir_evidence_workbench.Ingest.Vendors.Entities.{
  Surroundings, Stamp, fallback_stamp, is_utc, overridden, tag_texts, or_none,
}

-- `_TLP_MAP.get(n, default)`
abbrev tlp_name : ℤ → String → String
tlp_name (pos zero) default = "white"
tlp_name (pos (suc zero)) default = "green"
tlp_name (pos (suc (suc zero))) default = "amber"
tlp_name (pos (suc (suc (suc zero)))) default = "red"
tlp_name (pos (suc (suc (suc (suc n))))) default = default
tlp_name (negsuc zero) default = "unknown"
tlp_name (negsuc (suc n)) default = default

abbrev named : Option ℤ → String → String
named none default = default
named (some n) default = tlp_name n default

abbrev is_tlp : String → Bool
is_tlp v = v == "white" || v == "green" || v == "amber" || v == "red" || v == "unknown"

abbrev bit : Bool → ℤ
bit false = pos 0
bit true = pos 1

-- `int` of a float; of an infinity or a NaN it raises.
abbrev truncated_name : Option ℤ → Result IngestError (Option String)
truncated_name none = err internal
truncated_name (some n) = ok (some (tlp_name n (show_int n)))

-- A Boolean is an integer to Python.
unfoldable pub map_tlp_pap : (Json → String) → Json → Result IngestError (Option String)
map_tlp_pap repr null = ok none
map_tlp_pap repr (boolean b) = ok (some (tlp_name (bit b) (show_int (bit b))))
map_tlp_pap repr (integer n) = ok (some (tlp_name n (show_int n)))
map_tlp_pap repr (float f) = truncated_name f.truncated
map_tlp_pap repr (str s) =
    let v = strip (lower_text s) in
    ok (some (if is_tlp v then v else named (int_of_text (codes v)) v))
map_tlp_pap repr (array vs) = ok (some (repr (array vs)))
map_tlp_pap repr (object fs) = ok (some (repr (object fs)))

abbrev zone_label : Surroundings → Fields → String → String
zone_label env raw ts =
    if is_utc ts then "UTC" else or_text (safe_str env.repr (value raw "timezone")) "UTC"

abbrev stamp_or :
    Surroundings → Fields → String → Result IngestError (String × String) → Stamp → Stamp
stamp_or env raw ts (ok (r, u)) other = record {
  raw_ts = r;
  utc_ts = u;
  tz = zone_label env raw ts;
}
stamp_or env raw ts (err e) other = other

abbrev stamp_from : Surroundings → Fields → Option String → Stamp → Stamp
stamp_from env raw none other = other
stamp_from env raw (some ts) other = stamp_or env raw ts (utc_timestamp env.fromisoformat ts) other

-- `_choose_ts`: the first of the keys whose value is a time with a zone
unfoldable pub choose_ts : Surroundings → Fields → List String → Stamp
choose_ts env raw [] = fallback_stamp
choose_ts env raw (k ∷ ks) =
    let rest = choose_ts env raw ks in
    if truthy (value raw k) then stamp_from env raw (safe_str env.repr (value raw k)) rest else rest

unfoldable pub hive_source_id : Surroundings → Fields → Option String → Json
hive_source_id env raw override =
    overridden override (value raw "_id" or (value raw "id" or str env.synthetic_id))

unfoldable pub hive_source_revision : Fields → Option String → Json
hive_source_revision raw override = overridden override (
    value raw "updatedAt"
    or (value raw "updated_at"
        or (value raw "createdAt"
            or (value raw "created_at" or (value raw "date" or str "rev-1")))))

abbrev with_if : Bool → String → Json → Fields → Fields
with_if b k v p = if b then assign p k v else p

abbrev pub with_text : String → Option String → Fields → Fields
with_text k none p = p
with_text k (some s) p = assign p k (str s)

abbrev all_tags : (Json → String) → Json → Json
all_tags repr (array ts) = array (tag_texts repr ts)
all_tags repr v = array nil

abbrev is_plain_key : String → Bool
is_plain_key k =
    not
      (starts "_" (lower_text k) || starts "secret" (lower_text k) || starts "token" (lower_text k))

abbrev plain_fields : Json → Json
plain_fields (object fs) = object (keep_fields is_plain_key fs)
plain_fields v = object end

-- `_base_payload_common`
unfoldable pub base_payload_common : (Json → String) → Fields → Result IngestError Fields
base_payload_common repr raw = do
  tlp ← map_tlp_pap repr (value raw "tlp")
  pap ← map_tlp_pap repr (value raw "pap")
  let titled =
      with_if (has_key raw "title") "title" (or_none (safe_str repr (value raw "title"))) end
  let described =
      with_if (has_key raw "description" || has_key raw "message") "description"
        (or_none (safe_str repr (value raw "description" or value raw "message"))) titled
  let severe = with_if (has_key raw "severity") "severity" (value raw "severity") described
  let marked = with_text "pap" pap (with_text "tlp" tlp severe)
  let tagged = assign marked "tags" (all_tags repr (value raw "tags"))
  ok (
      assign tagged "custom_fields"
        (plain_fields (value raw "customFields" or value raw "custom_fields")))
