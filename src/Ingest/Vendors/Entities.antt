-- ===== src/Ingest/Vendors/Entities.antt =====
-- What both vendor adapters build: an entity with its provenance, and the helpers that they share
-- (the two files of src/dfir_workbench/adapters have each their own copy). The `repr` of lists and
-- dicts, `datetime.fromisoformat`, the digest of keys and the fresh id are the surroundings.
use dfir_evidence_workbench.Base.{
  ◌==◌, String, Bool, ◌||◌, Option, none, some, List, [], ◌∷◌, any, if◌then◌else◌,
}
use dfir_evidence_workbench.Base.Strings.{ends}
use dfir_evidence_workbench.Base.Json.{
  Json, null, str, Items, nil, cons, Fields, value, has_key, assign, truthy, show,
}
use dfir_evidence_workbench.Base.Result.{Result, ok, err, ◌>>=◌}
use dfir_evidence_workbench.Ingest.Interop.{
  IngestError, invalid, Parsed, idempotency_key, text_part,
}

pub record Surroundings : Type 0 where
  pub repr : Json → String
  pub fromisoformat : String → Parsed
  pub v1 : String → String
  -- "syn-" and a fresh uuid
  pub synthetic_id : String

pub record Redaction : Type 0 where
  pub redacted_field : String
  pub decision : String
  pub policy_version : String
  pub reason : String

pub record Provenance : Type 0 where
  pub integration_id : String
  pub source_system : String
  pub source_entity : String
  pub source_id : String
  pub source_scope : String
  pub source_revision : String
  pub source_updated_at_raw : String
  pub source_updated_at_utc : String
  pub source_timezone : String
  pub mapping_version : String
  pub idempotency_key : String
  pub redaction_flags : List Redaction
  pub lossy_transformations : List String

pub record Entity : Type 0 where
  pub schema_version : String
  pub entity_type : String
  pub provenance : Provenance
  pub payload : Fields

-- The raw time, the time in UTC, and the label of the zone.
pub record Stamp : Type 0 where
  pub raw_ts : String
  pub utc_ts : String
  pub tz : String

-- The overrides that a call may give; an empty text counts as none.
pub record Overrides : Type 0 where
  pub source_id : Option String
  pub source_revision : Option String

abbrev pub fallback_stamp : Stamp
fallback_stamp = record {
  raw_ts = "2026-08-07T12:00:00Z";
  utc_ts = "2026-08-07T12:00:00Z";
  tz = "UTC";
}

abbrev pub is_utc : String → Bool
is_utc s = ends "Z" s || ends "+00:00" s || ends "-00:00" s

abbrev pub overridden : Option String → Json → Json
overridden none v = v
overridden (some s) v = if s == "" then v else str s

-- the first key of a list that the object has with a true value
unfoldable pub first_true : Fields → List String → Json → Json
first_true raw [] default = default
first_true raw (k ∷ ks) default =
    let rest = first_true raw ks default in if truthy (value raw k) then value raw k else rest

abbrev pub has_any : Fields → List String → Bool
has_any raw keys = any (has_key raw) keys

abbrev pub when : Bool → String → List String
when b s = if b then s ∷ [] else []

-- `[str(t) for t in tags if t]`
unfoldable pub tag_texts : (Json → String) → Items → Items
tag_texts repr nil = nil
tag_texts repr (cons t ts) =
    let rest = tag_texts repr ts in if truthy t then cons (str (show repr t)) rest else rest

abbrev pub or_none : Option String → Json
or_none none = null
or_none (some s) = str s

-- `_provenance`; the parts that come from the payload have to be texts.
unfoldable pub provenance_of :
    Surroundings
    → (integration_id source_system entity : String) (source_id source_revision : Json) → Stamp
    → (source_scope : String) (lossy : List String) (redaction : List Redaction)
    → Result IngestError Provenance
provenance_of env integration_id source_system entity source_id source_revision stamp source_scope
      lossy redaction =
    do
      sid ← text_part source_id
      srev ← text_part source_revision
      key ← idempotency_key env.v1 (record {
        integration_id = integration_id;
        direction = "in";
        source_system = source_system;
        source_entity = entity;
        source_id = sid;
        source_revision = srev;
      })
      ok (record {
        integration_id = integration_id;
        source_system = source_system;
        source_entity = entity;
        source_id = sid;
        source_scope = source_scope;
        source_revision = srev;
        source_updated_at_raw = stamp.raw_ts;
        source_updated_at_utc = stamp.utc_ts;
        source_timezone = stamp.tz;
        mapping_version = "1.0.0";
        idempotency_key = key;
        redaction_flags = redaction;
        lossy_transformations = lossy;
      })

abbrev pub entity_of : String → Fields → Provenance → Entity
entity_of kind payload provenance = record {
  schema_version = "1.0";
  entity_type = kind;
  provenance = provenance;
  payload = payload;
}

abbrev pub required_text : String → Option String → Result IngestError String
required_text message none = err (invalid message)
required_text message (some s) = ok s

-- `if text: payload[key] = text`
abbrev pub with_true : String → Option String → Fields → Fields
with_true k none p = p
with_true k (some s) p = if s == "" then p else assign p k (str s)
