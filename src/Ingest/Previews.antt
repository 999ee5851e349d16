-- ===== src/Ingest/Previews.antt =====
-- The projection and the preview of src/dfir_workbench/ingest.py, over the two vendor adapters. The
-- JSON schemas are checked by a library: its messages about an entity and about an envelope are
-- functions of the surroundings, as are `json.dumps` and the digests.
pub mod Accepted
pub mod Quarantine
pub mod WeakHashes
pub mod Samples
mod Tests
use dfir_evidence_workbench.Base.{
  ◌==◌, String, Bool, true, false, not, ◌||◌, ◌&&◌, Option, none, some, List, [], ◌∷◌, any,
  if◌then◌else◌,
}
use dfir_evidence_workbench.Base.Strings.{◌<>◌, strip, lower_text}
use dfir_evidence_workbench.Base.Json.{Json, object, Fields, as_object}
use dfir_evidence_workbench.Base.Result.{Result, ok, err, ◌>>=◌, ◌>>◌, raise_if}
use dfir_evidence_workbench.Ingest.Envelopes.{Drawn, Submission, Digests}
use dfir_evidence_workbench.Ingest.Interop.{IngestError, invalid, Parsed}
use dfir_evidence_workbench.Ingest.Vendors.Entities.{
  Surroundings, Redaction, Provenance, Entity, Overrides,
}
use dfir_evidence_workbench.Ingest.Vendors.Hive.{hive_project}
use dfir_evidence_workbench.Ingest.Vendors.Iris.{iris_project}

pub record EnvelopeSource : Type 0 where
  pub system : String
  pub entity : String
  pub id : String
  pub scope : String
  pub revision : String
  pub updated_at_raw : String
  pub updated_at_utc : String
  pub timezone : String

pub record Processing : Type 0 where
  pub status : String
  pub mapping_version : String
  pub idempotency_key : String
  pub error_code : Option String
  pub quarantine_reference : Option String

pub record PreviewEnvelope : Type 0 where
  pub envelope_id : String
  pub received_at_utc : String
  pub source : EnvelopeSource
  pub payload_sha256 : String
  pub payload : Fields
  pub processing : Processing

-- What the code takes from libraries. `canonical_json` and `dumps` are the two calls of `json.dumps`.
pub record Libraries : Type 0 where
  pub repr : Json → String
  pub fromisoformat : String → Parsed
  pub canonical_json : Json → String
  pub dumps : Json → String
  -- the joined messages of the schema's validator, if there are any
  pub entity_errors : Entity → Option String
  pub envelope_errors : PreviewEnvelope → Option String

-- What the handling of one payload draws: fresh ids and the clock, and the draws of its storing.
pub record Drawing : Type 0 where
  pub synthetic_id : String
  pub preview_id : String
  pub quarantine_id : String
  pub now : String
  pub stored : Drawn

-- The keyword arguments that the payloads of a batch share.
pub record Intake : Type 0 where
  pub source_system : String
  pub source_scope : String
  pub integration_id : String

abbrev pub surroundings : Digests → Libraries → Drawing → Surroundings
surroundings digests libs drawing = record {
  repr = libs.repr;
  fromisoformat = libs.fromisoformat;
  v1 = digests.v1;
  synthetic_id = drawing.synthetic_id;
}

-- `_validate_against`
abbrev pub validated : String → Option String → Result IngestError (Unit {0})
validated name none = ok tt
validated name (some message) = err (invalid (name <> " validation failed: " <> message))

-- `isinstance(raw, dict)`
abbrev pub dict_of : String → Option Fields → Result IngestError Fields
dict_of message none = err (invalid message)
dict_of message (some fs) = ok fs

-- `_get_adapter` with the call of the adapter's `project`
unfoldable pub adapter_project :
    Surroundings → Intake → Overrides → Fields → String → Result IngestError Entity
adapter_project env intake o raw kind =
    let name = strip (lower_text intake.source_system) in
    if name == "hive"
    then raise_if (intake.integration_id == "") (invalid "integration_id must be non-empty string")
      >> hive_project env intake.integration_id intake.source_scope o raw kind
    else if name == "iris"
    then raise_if (intake.integration_id == "") (invalid "integration_id must be non-empty string")
      >> iris_project env intake.integration_id intake.source_scope o raw kind
    else err (invalid ("unknown source_system for projection: " <> intake.source_system))

unfoldable pub project_vendor_payload :
    Libraries → Surroundings → Intake → Overrides → Json → String → Result IngestError Entity
project_vendor_payload libs env intake o raw kind = do
  payload ← dict_of "raw payload must be dict" (as_object raw)
  raise_if (strip intake.source_scope == "")
      (invalid "source_scope is required (tenant/customer isolation)")
  entity ← adapter_project env intake o payload kind
  validated "interop-entity.schema.json" (libs.entity_errors entity)
  ok entity

abbrev missing : String → IngestError
missing key = invalid ("incomplete source after projection: missing " <> key)

abbrev blank : String → Bool
blank s = strip s == ""

-- The loop over the source's fields, which are all texts.
unfoldable pub require_source : EnvelopeSource → Result IngestError (Unit {0})
require_source s = do
  raise_if (blank s.system) (missing "system")
  raise_if (blank s.entity) (missing "entity")
  raise_if (blank s.id) (missing "id")
  raise_if (blank s.scope) (missing "scope")
  raise_if (blank s.revision) (missing "revision")
  raise_if (blank s.updated_at_raw) (missing "updated_at_raw")
  raise_if (blank s.updated_at_utc) (missing "updated_at_utc")
  raise_if (blank s.timezone) (missing "timezone")

abbrev pub source_of : Provenance → EnvelopeSource
source_of p = record {
  system = p.source_system;
  entity = p.source_entity;
  id = p.source_id;
  scope = p.source_scope;
  revision = p.source_revision;
  updated_at_raw = p.source_updated_at_raw;
  updated_at_utc = p.source_updated_at_utc;
  timezone = p.source_timezone;
}

-- The first redaction whose decision is to quarantine.
unfoldable pub first_quarantine : List Redaction → Option Redaction
first_quarantine [] = none
first_quarantine (flag ∷ flags) =
    let rest = first_quarantine flags in if flag.decision == "quarantined" then some flag else rest

abbrev pub processing_of : String → Provenance → Option Redaction → Processing
processing_of quarantine_id p none = record {
  status = "preview";
  mapping_version = p.mapping_version;
  idempotency_key = p.idempotency_key;
  error_code = none;
  quarantine_reference = none;
}
processing_of quarantine_id p (some flag) = record {
  status = "quarantined";
  mapping_version = p.mapping_version;
  idempotency_key = p.idempotency_key;
  error_code = some flag.reason;
  quarantine_reference = some quarantine_id;
}

-- The envelope before its validation; a provenance always has a mapping version.
abbrev pub envelope_of : Digests → Libraries → Drawing → Fields → Entity → PreviewEnvelope
envelope_of digests libs drawing raw entity = record {
  envelope_id = drawing.preview_id;
  received_at_utc = drawing.now;
  source = source_of entity.provenance;
  payload_sha256 = digests.sha256 (libs.canonical_json (object raw));
  payload = raw;
  processing =
      processing_of drawing.quarantine_id entity.provenance
        (first_quarantine entity.provenance.redaction_flags);
}

unfoldable pub build_envelope_for_preview :
    Digests → Libraries → Drawing → Fields → Entity → Result IngestError PreviewEnvelope
build_envelope_for_preview digests libs drawing raw entity = do
  require_source (source_of entity.provenance)
  let envelope = envelope_of digests libs drawing raw entity
  validated "ingest-envelope.schema.json" (libs.envelope_errors envelope)
  ok envelope

-- `_is_quarantined`
unfoldable pub is_quarantined : Entity → Bool
is_quarantined entity =
    any (λ flag. flag.decision == "quarantined") entity.provenance.redaction_flags

unfoldable pub preview_vendor_payload :
    Digests
    → Libraries
    → Drawing
    → Intake
    → Overrides
    → Json
    → String
    → Result IngestError (PreviewEnvelope × Entity)
preview_vendor_payload digests libs drawing intake o raw kind = do
  entity ← project_vendor_payload libs (surroundings digests libs drawing) intake o raw kind
  payload ← dict_of "raw_payload must be dict for envelope" (as_object raw)
  envelope ← build_envelope_for_preview digests libs drawing payload entity
  ok (envelope, entity)

-- What `store_preview` reads of an envelope.
abbrev pub submission_of : Libraries → PreviewEnvelope → Submission
submission_of libs envelope = record {
  envelope_id = some envelope.envelope_id;
  received_at_utc = some envelope.received_at_utc;
  system = some envelope.source.system;
  entity = some envelope.source.entity;
  source_id = some envelope.source.id;
  scope = some envelope.source.scope;
  revision = some envelope.source.revision;
  payload = some (libs.dumps (object envelope.payload));
  payload_sha256 = some envelope.payload_sha256;
  status = some envelope.processing.status;
  mapping_version = some envelope.processing.mapping_version;
  processing_key = some envelope.processing.idempotency_key;
  idempotency_key = none;
}
