-- ===== src/Ingest/Vendors/IrisCases.antt =====
-- The cases, alerts, indicators and assets of `DFIRIRISIngestAdapter`,
-- src/dfir_workbench/adapters/dfir_iris_ingest_adapter.py.
use dfir_evidence_workbench.Base.{
  ◌==◌, String, Bool, not, ◌||◌, Option, none, some, List, [], ◌∷◌, ◌++◌, if◌then◌else◌,
}
use dfir_evidence_workbench.Base.Strings.{◌<>◌, lower_text, has_text, starts}
use dfir_evidence_workbench.Base.Json.{
  Json, str, object, Fields, end, field, value, has_key, assign, truthy, ◌or◌, show, safe_str,
  keep_fields,
}
use dfir_evidence_workbench.Base.Result.{Result, ok, ◌>>=◌, ◌>>◌, raise_if}
use dfir_evidence_workbench.Ingest.Interop.{IngestError, invalid, reject_secret_keys}
use dfir_evidence_workbench.Ingest.Vendors.Entities.{
  Surroundings, Redaction, Provenance, Entity, Stamp, Overrides, has_any, when, tag_texts,
  provenance_of, entity_of, required_text, with_true,
}
use dfir_evidence_workbench.Ingest.Vendors.IrisFields.{
  parse_iris_tags, iris_choose_ts, iris_source_id, iris_source_revision, map_tlp, with_items,
  base_case_or_alert, base_custom_fields,
}

-- `payload["tags"] = [str(t) for t in tags if t]`, if there are tags
abbrev pub with_tags : (Json → String) → Json → Fields → Fields
with_tags repr v p = with_items "tags" (tag_texts repr (parse_iris_tags repr v)) p

-- `_UNSUPPORTED_IOC_TYPES`
abbrev pub is_unsupported_ioc : String → Bool
is_unsupported_ioc t = t == "attachment" || t == "file" || t == "binary" || t == "malware-sample"

module _ (env : Surroundings) (integration_id source_scope : String) (o : Overrides)
    (raw : Fields) where
  abbrev pub iris_provenance :
      String → List String → Stamp → List Redaction → Result IngestError Provenance
  iris_provenance entity lossy stamp redaction =
      provenance_of env integration_id "iris" entity (iris_source_id env raw o.source_id)
        (iris_source_revision env raw o.source_revision) stamp source_scope lossy redaction

  abbrev with_client : Option String → Fields → Fields
  with_client none custom = custom
  with_client (some client) custom = assign custom "client_name" (str client)

  unfoldable pub iris_case : Result IngestError Entity
  iris_case = do
    reject_secret_keys "payload" (object raw)
    let stamp =
        iris_choose_ts env raw
          ("case_open_date" ∷ "updated_at" ∷ "created_at" ∷ "case_close_date" ∷ [])
    let lossy =
        when (has_any raw ("owner" ∷ "owner_id" ∷ "opened_by" ∷ "state_id" ∷ []))
          "dropped:ownership-state"
        ++ when (truthy (value raw "classification" or value raw "classification_id"))
            "dropped:classification"
    let payload = base_case_or_alert env.repr raw
    raise_if (not (truthy (value payload "title")))
        (invalid "case payload must include title (case_name)")
    let custom = with_client (safe_str env.repr (value raw "client_name")) (base_custom_fields raw)
    provenance ← iris_provenance "case" lossy stamp []
    ok (entity_of "case" (assign payload "custom_fields" (object custom)) provenance)

  unfoldable pub iris_alert : Result IngestError Entity
  iris_alert = do
    reject_secret_keys "payload" (object raw)
    let stamp = iris_choose_ts env raw ("alert_creation_time" ∷ "updated_at" ∷ "created_at" ∷ [])
    let lossy =
        when (truthy (value raw "comments" or value raw "observables"))
          "dropped:embedded-observables"
        ++ when
            (has_text "status" (lower_text (show env.repr (object raw)))
              || has_key raw "alert_status")
            "dropped:status"
    let payload = base_case_or_alert env.repr raw
    raise_if (not (truthy (value payload "title"))) (invalid "alert payload must include title")
    provenance ← iris_provenance "alert" lossy stamp []
    ok (
        entity_of "alert" (assign payload "custom_fields" (object (base_custom_fields raw)))
          provenance)

  abbrev iris_redaction : String → List Redaction
  iris_redaction itype =
      record {
        redacted_field = "ioc_type";
        decision = "quarantined";
        policy_version = "dfir-iris-projection-1";
        reason = "unsupported ioc type for interop: " <> itype <> " (no evidence bytes)";
      }
      ∷ []

  abbrev is_kept_key : String → Bool
  is_kept_key k = not (starts "secret" (lower_text k) || starts "token" (lower_text k))

  abbrev custom_of_ioc : Json → Fields → Fields
  custom_of_ioc (object fs) p = assign p "custom_fields" (object (keep_fields is_kept_key fs))
  custom_of_ioc v p = p

  unfoldable pub iris_ioc : Result IngestError Entity
  iris_ioc = do
    reject_secret_keys "payload" (object raw)
    let stamp = iris_choose_ts env raw ("updated_at" ∷ "created_at" ∷ "ioc_misp" ∷ [])
    ioc_value ←
        required_text "ioc requires ioc_value and ioc_type"
          (safe_str env.repr (value raw "ioc_value" or (value raw "value" or value raw "data")))
    itype ← required_text "ioc requires ioc_value and ioc_type" (
        safe_str env.repr (value raw "ioc_type" or (value raw "type" or value raw "ioc_type_name")))
    let unsupported = is_unsupported_ioc (lower_text itype)
    let redaction = if unsupported then iris_redaction itype else []
    let lossy =
        when (truthy (value raw "ioc_misp" or value raw "misp_link")) "dropped:misp-link"
        ++ when unsupported "quarantined:unsupported-type"
    let described =
        with_true "description"
          (safe_str env.repr (value raw "ioc_description" or value raw "description"))
          (field "value" (str ioc_value) (field "type" (str itype) end))
    let marked =
        with_true "tlp" (map_tlp env.repr (value raw "tlp_name" or value raw "tlp")) described
    let tagged = with_tags env.repr (value raw "ioc_tags" or value raw "tags") marked
    let payload =
        custom_of_ioc (value raw "custom_attributes" or object end)
          (assign tagged "classification" (str "ioc"))
    provenance ← iris_provenance "ioc" lossy stamp redaction
    ok (entity_of "ioc" payload provenance)

  -- `payload.setdefault("custom_fields", {})["description"] = desc`
  abbrev asset_description : Option String → Fields → Fields
  asset_description none p = p
  asset_description (some s) p = assign p "custom_fields" (object (field "description" (str s) end))

  abbrev custom_of_asset : Json → Fields → Fields
  custom_of_asset (object fs) p = assign p "custom_fields" (object fs)
  custom_of_asset v p = p

  unfoldable pub iris_asset : Result IngestError Entity
  iris_asset = do
    reject_secret_keys "payload" (object raw)
    let stamp = iris_choose_ts env raw ("updated_at" ∷ "date_added" ∷ "created_at" ∷ [])
    name ←
        required_text "asset requires asset_name and asset_type"
          (safe_str env.repr (value raw "asset_name" or value raw "name"))
    atype ←
        required_text "asset requires asset_name and asset_type"
          (safe_str env.repr (value raw "asset_type" or value raw "type"))
    let lossy =
        when
          (has_text "compromise_status" (lower_text (show env.repr (object raw)))
            || has_key raw "analysis_status")
          "dropped:compromise-analysis-state"
    let addressed = with_true "hostname" (safe_str env.repr (value raw "hostname")) (
        with_true "fqdn" (safe_str env.repr (value raw "asset_domain")) (
          with_true "ip" (safe_str env.repr (value raw "asset_ip"))
            (field "asset_type" (str atype) (field "name" (str name) end))))
    let described = asset_description (safe_str env.repr (value raw "asset_description")) addressed
    let tagged = with_tags env.repr (value raw "asset_tags" or value raw "tags") described
    let payload = custom_of_asset (value raw "custom_attributes" or object end) tagged
    provenance ← iris_provenance "asset" lossy stamp []
    ok (entity_of "asset" payload provenance)
