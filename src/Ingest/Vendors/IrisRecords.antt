-- ===== src/Ingest/Vendors/IrisRecords.antt =====
-- The timeline events, notes and evidence of `DFIRIRISIngestAdapter`,
-- src/dfir_workbench/adapters/dfir_iris_ingest_adapter.py.
use dfir_evidence_workbench.Base.{String, true, false, not, List, [], ◌∷◌, if◌then◌else◌}
use dfir_evidence_workbench.Base.Text.{or_text}
use dfir_evidence_workbench.Base.Strings.{lower_text}
use dfir_evidence_workbench.Base.Json.{
  Json, null, boolean, integer, str, object, Fields, end, field, value, assign, ◌or◌, safe_str,
}
use dfir_evidence_workbench.Base.Result.{Result, ok, ◌>>=◌, ◌>>◌}
use dfir_evidence_workbench.Ingest.Interop.{IngestError, reject_secret_keys}
use dfir_evidence_workbench.Ingest.Vendors.Entities.{
  Surroundings, Redaction, Entity, Overrides, has_any, when, entity_of, required_text, with_true,
}
use dfir_evidence_workbench.Ingest.Vendors.IrisFields.{iris_choose_ts, size_of_json, is_full_sha256}
use dfir_evidence_workbench.Ingest.Vendors.IrisCases.{iris_provenance, with_tags}

module _ (env : Surroundings) (integration_id source_scope : String) (o : Overrides)
    (raw : Fields) where
  unfoldable pub iris_timeline_event : String → Result IngestError Entity
  iris_timeline_event category = do
    reject_secret_keys "payload" (object raw)
    let stamp =
        iris_choose_ts env raw ("event_date" ∷ "event_date_wtz" ∷ "updated_at" ∷ "created_at" ∷ [])
    let title =
        or_text
          (safe_str env.repr (
            value raw "event_title"
            or (value raw "title" or (value raw "message" or str category))))
          "untitled event"
    let lossy =
        when (has_any raw ("state" ∷ "in_graph" ∷ "in_summary" ∷ []))
          "dropped:timeline-internal-state"
    let kind = or_text (safe_str env.repr (value raw "category_name" or str category)) "event"
    let stamped = field "occurred_at_raw" (str stamp.raw_ts) (
        field "occurred_at_utc" (str stamp.utc_ts) (
          field "timezone" (str stamp.tz)
            (field "category" (str kind) (field "title" (str title) end))))
    let described =
        with_true "description"
          (safe_str env.repr (value raw "event_content" or value raw "description")) stamped
    let tagged = with_tags env.repr (value raw "event_tags" or value raw "tags") described
    let payload =
        with_true "actor_reference" (safe_str env.repr (value raw "actor" or value raw "user"))
          tagged
    provenance ←
        iris_provenance env integration_id source_scope o raw "timeline_event" lossy stamp []
    ok (entity_of "timeline_event" payload provenance)

  abbrev with_present : String → Json → Fields → Fields
  with_present k null p = p
  with_present k v p = assign p k v

  unfoldable pub iris_finding : Result IngestError Entity
  iris_finding = do
    reject_secret_keys "payload" (object raw)
    let stamp =
        iris_choose_ts env raw
          ("note_lastupdate" ∷ "note_creationdate" ∷ "updated_at" ∷ "created_at" ∷ [])
    title ←
        required_text "finding requires title and body (note_title/note_content)"
          (safe_str env.repr (value raw "note_title" or value raw "title"))
    body ←
        required_text "finding requires title and body (note_title/note_content)" (
          safe_str env.repr (value raw "note_content" or (value raw "content" or value raw "body")))
    let lossy =
        when (has_any raw ("directory" ∷ "custom_attributes" ∷ [])) "dropped:note-directory-attrs"
    let authored =
        with_true "author_reference"
          (safe_str env.repr (value raw "note_user" or (value raw "user" or value raw "author")))
          (field "title" (str title)
            (field "body" (str body) (field "approval_required" (boolean true) end)))
    let tagged = with_tags env.repr (value raw "tags") authored
    let payload = with_present "confidence" (value raw "confidence") tagged
    provenance ← iris_provenance env integration_id source_scope o raw "finding" lossy stamp []
    ok (entity_of "finding" payload provenance)

  -- The SHA-256 of no bytes, which stands in for a digest that the payload lacks.
  abbrev empty_sha256 : String
  empty_sha256 = "e3b0c44298fc1c149afbf4c8996fb92427ae41e4649b934ca495991b7852b855"

  abbrev pub stated_sha256 : String
  stated_sha256 =
      or_text
        (safe_str env.repr (value raw "sha256" or (value raw "file_hash" or value raw "hash"))) ""

  abbrev hash_redaction : List Redaction
  hash_redaction =
      record {
        redacted_field = "file_hash";
        decision = "lossy";
        policy_version = "dfir-iris-projection-1";
        reason = "IRIS evidence provided md5/weak hash only; sha256 required for interop ref";
      }
      ∷ []

  unfoldable pub iris_evidence_reference : Result IngestError Entity
  iris_evidence_reference = do
    reject_secret_keys "payload" (object raw)
    let stamp =
        iris_choose_ts env raw
          ("date_added" ∷ "acquisition_date" ∷ "updated_at" ∷ "created_at" ∷ [])
    let full = is_full_sha256 stated_sha256
    let sha = if full then stated_sha256 else empty_sha256
    filename ←
        required_text "evidence_reference requires filename"
          (safe_str env.repr (value raw "filename" or value raw "file_name"))
    let uri =
        safe_str env.repr
          (value raw "restricted_uri" or (value raw "link" or value raw "datastore_link"))
    let payload = with_true "restricted_uri" uri (
        field "filename" (str filename) (
          field "size_bytes" (integer (size_of_json (value raw "file_size"))) (
            field "sha256" (str (lower_text sha))
              (field "content_transferred" (boolean false) end))))
    provenance ←
        iris_provenance env integration_id source_scope o raw "evidence_reference"
          (when (not full) "lossy:no-full-sha256") stamp (if full then [] else hash_redaction)
    ok (entity_of "evidence_reference" payload provenance)
