-- ===== src/Ingest/Previews/Tests.antt =====
-- An indicator of IRIS, one of TheHive, and evidence of IRIS with a weak hash (ingest.py).
use dfir_evidence_workbench.Base.{◌≡◌, ◌↔◌, refl, inr, true, false, [], ◌∷◌, is_some}
use dfir_evidence_workbench.Base.Text.{contains, lower}
use dfir_evidence_workbench.Base.Strings.{
  strip, lower_text, ends, decimal, show_int, split, split_first, pos, drop_last,
}
use dfir_evidence_workbench.Base.Json.{
  Fields, null, integer, str, array, object, end, field, cons, nil, value, assign, truthy, show,
  safe_str, keep_fields,
}
use dfir_evidence_workbench.Base.Result.{ok}
use dfir_evidence_workbench.Ingest.Interop.{
  KeyParts, is_secret_key, reject_secret_keys, idempotency_key, key_material, text_part,
  utc_timestamp,
}
use dfir_evidence_workbench.Ingest.Interop.Secrets.{HasNoSecret, reject_secret_keys-ok_iff}
use dfir_evidence_workbench.Ingest.Interop.Keys.{is_bar, parts_of, split-key_material}
use dfir_evidence_workbench.Ingest.Vendors.Entities.{Entity, first_true, tag_texts, provenance_of}
use dfir_evidence_workbench.Ingest.Vendors.IrisFields.{
  stripped_texts, parse_iris_tags, normalize_iris_ts, rstrip_z, iris_choose_ts, first_present,
  iris_source_id, iris_source_revision, map_tlp, all_hex, is_full_sha256,
}
use dfir_evidence_workbench.Ingest.Vendors.IrisCases.{iris_ioc}
use dfir_evidence_workbench.Ingest.Vendors.Iris.{iris_project}
use dfir_evidence_workbench.Ingest.Previews.{
  PreviewEnvelope, surroundings, adapter_project, project_vendor_payload, require_source,
  first_quarantine, envelope_of, build_envelope_for_preview, preview_vendor_payload,
}
use dfir_evidence_workbench.Ingest.Previews.Accepted.{IsFaithful, preview_vendor_payload-IsFaithful}
use dfir_evidence_workbench.Ingest.Previews.Quarantine.{
  IsMarked, CarriesBytes, evidence_bytes_are_quarantined,
}
use dfir_evidence_workbench.Ingest.Previews.WeakHashes.{sha256_of, has_unknown_decision}
use dfir_evidence_workbench.Ingest.Previews.Samples.{
  digests, libs, drawing, intake_of, overrides, sample,
}

abbrev indicator_entity : Entity
indicator_entity = record {
  schema_version = "1.0";
  entity_type = "ioc";
  provenance = record {
    integration_id = "default";
    source_system = "iris";
    source_entity = "ioc";
    source_id = "7";
    source_scope = "acme";
    source_revision = "2026-03-01T10:00:00Z";
    source_updated_at_raw = "2026-03-01T10:00:00Z";
    source_updated_at_utc = "2026-03-01T10:00:00+00:00";
    source_timezone = "UTC";
    mapping_version = "1.0.0";
    idempotency_key = "default|in|iris|ioc|7|2026-03-01T10:00:00Z";
    redaction_flags =
        record {
          redacted_field = "ioc_type";
          decision = "quarantined";
          policy_version = "dfir-iris-projection-1";
          reason = "unsupported ioc type for interop: File (no evidence bytes)";
        }
        ∷ [];
    lossy_transformations = "quarantined:unsupported-type" ∷ [];
  };
  payload = field "value" (str "dropper.exe") (
      field "type" (str "File") (
        field "tags" (array (cons (str "apt") (cons (str "mail") nil)))
          (field "classification" (str "ioc") (field "custom_fields" (object end) end))));
}

abbrev indicator_envelope : PreviewEnvelope
indicator_envelope = envelope_of digests libs drawing sample indicator_entity

-- The file type is spelled in lower case before it is looked up.
indicator_previews :
    preview_vendor_payload digests libs drawing (intake_of "IRIS") overrides (object sample) "ioc"
    ≡ ok (indicator_envelope, indicator_entity)
unfolding preview_vendor_payload project_vendor_payload adapter_project iris_project iris_ioc strip
    lower_text reject_secret_keys is_secret_key contains lower iris_choose_ts normalize_iris_ts
    value truthy show utc_timestamp ends drop_last safe_str map_tlp parse_iris_tags stripped_texts
    split_first tag_texts assign iris_source_id iris_source_revision first_true first_present
    provenance_of text_part idempotency_key key_material show_int decimal keep_fields
    build_envelope_for_preview require_source first_quarantine rstrip_z
indicator_previews = refl

preview_vendor_payload-IsFaithful_example :
    IsFaithful digests libs drawing (intake_of "IRIS") (object sample) indicator_envelope
preview_vendor_payload-IsFaithful_example =
    preview_vendor_payload-IsFaithful digests libs drawing (intake_of "IRIS") overrides
      (object sample) "ioc" indicator_envelope indicator_entity indicator_previews

-- The intake names IRIS, and the type of the sample is a file's.
sample-CarriesBytes : CarriesBytes libs.repr (strip (lower_text "IRIS")) sample
unfolding strip lower_text safe_str value truthy show
sample-CarriesBytes = inr (refl, "File", refl, refl)

evidence_bytes_are_quarantined_example : IsMarked true indicator_envelope
evidence_bytes_are_quarantined_example =
    evidence_bytes_are_quarantined digests libs drawing (intake_of "IRIS") overrides sample "ioc"
      indicator_envelope indicator_entity (inr refl) sample-CarriesBytes indicator_previews

abbrev evidence : Fields
evidence =
    field "id" (integer (pos 3))
      (field "filename" (str "disk.raw") (field "file_hash" (str "d41d8cd9") end))

-- The validator of the example reports the decisions that the schema does not list.
schema_refuses :
    (entity : Entity)
    → has_unknown_decision entity ≡ true
    → is_some (libs.entity_errors entity) ≡ true
schema_refuses entity h = rw h refl

name_is_iris : strip (lower_text "IRIS") ≡ "iris"
unfolding strip lower_text
name_is_iris = refl

hash_is_weak :
    is_full_sha256
      (sha256_of (surroundings digests libs drawing) (intake_of "IRIS") overrides evidence)
    ≡ false
unfolding all_hex safe_str value truthy show strip
hash_is_weak = refl

abbrev parts : KeyParts
parts = record {
  integration_id = "default";
  direction = "in";
  source_system = "iris";
  source_entity = "ioc";
  source_id = "7";
  source_revision = "rev-1";
}

split-key_material_example : split is_bar (key_material parts) ≡ parts_of parts
split-key_material_example = split-key_material parts (refl, refl, refl, refl, refl, refl)

-- With a bar in the id, two sources have one text.
keys_collide :
    key_material (record parts { source_id = "7|1" })
    ≡ key_material (record parts { source_revision = "1|rev-1" })
unfolding key_material
keys_collide = refl

reject_secret_keys-ok_iff_example :
    (reject_secret_keys "payload"
        (object (field "notes" (array (cons (object (field "api-key" null end)) nil)) end))
      ≡ ok tt)
    ↔ HasNoSecret
        (object (field "notes" (array (cons (object (field "api-key" null end)) nil)) end))
reject_secret_keys-ok_iff_example =
    reject_secret_keys-ok_iff "payload"
      (object (field "notes" (array (cons (object (field "api-key" null end)) nil)) end))
