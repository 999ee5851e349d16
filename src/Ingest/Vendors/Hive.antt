-- ===== src/Ingest/Vendors/Hive.antt =====
-- `TheHiveIngestAdapter` of src/dfir_workbench/adapters/thehive_ingest_adapter.py.
use dfir_evidence_workbench.Base.{
  ◌==◌, String, Bool, false, not, ◌||◌, List, [], ◌∷◌, ◌++◌, if◌then◌else◌,
}
use dfir_evidence_workbench.Base.Text.{or_text}
use dfir_evidence_workbench.Base.Strings.{◌<>◌, lower_text, has_text}
use dfir_evidence_workbench.Base.Json.{
  Json, null, str, array, object, cons, Fields, end, field, value, has_key, assign, truthy, ◌or◌,
  show, safe_str,
}
use dfir_evidence_workbench.Base.Result.{Result, ok, err, ◌>>=◌, ◌>>◌, raise_if}
use dfir_evidence_workbench.Ingest.Interop.{IngestError, invalid, reject_secret_keys}
use dfir_evidence_workbench.Ingest.Vendors.Entities.{
  Surroundings, Redaction, Provenance, Entity, Stamp, Overrides, has_any, when, tag_texts,
  provenance_of, entity_of, required_text, with_true,
}
use dfir_evidence_workbench.Ingest.Vendors.HiveFields.{
  map_tlp_pap, choose_ts, hive_source_id, hive_source_revision, with_text, base_payload_common,
}

abbrev ownership : Fields → List String
ownership raw = when (has_any raw ("owner" ∷ "createdBy" ∷ "updatedBy" ∷ [])) "dropped:ownership"

unfoldable pub has_misp_key : Fields → Bool
has_misp_key end = false
has_misp_key (field k v fs) = has_text "misp" (lower_text k) || has_misp_key fs

-- `_UNSUPPORTED_OBSERVABLE_TYPES`
abbrev pub is_unsupported_observable : String → Bool
is_unsupported_observable t = t == "file" || t == "attachment" || t == "binary" || t == "hash:other"

module _ (env : Surroundings) (integration_id source_scope : String) (o : Overrides)
    (raw : Fields) where
  abbrev hive_provenance :
      String → List String → Stamp → List Redaction → Result IngestError Provenance
  hive_provenance entity lossy stamp redaction =
      provenance_of env integration_id "hive" entity (hive_source_id env raw o.source_id)
        (hive_source_revision raw o.source_revision) stamp source_scope lossy redaction

  unfoldable pub hive_case : Result IngestError Entity
  hive_case = do
    reject_secret_keys "payload" (object raw)
    let stamp = choose_ts env raw ("updatedAt" ∷ "createdAt" ∷ "startDate" ∷ [])
    let lossy =
        when (has_key raw "status") "dropped:status"
        ++ (ownership raw
            ++ when (has_any raw ("cortexJobs" ∷ "misp" ∷ []) || has_misp_key raw)
                "dropped:misp-cortex")
    payload ← base_payload_common env.repr raw
    raise_if (not (truthy (value payload "title"))) (invalid "case payload must include title")
    provenance ← hive_provenance "case" lossy stamp []
    ok (entity_of "case" payload provenance)

  unfoldable pub hive_alert : Result IngestError Entity
  hive_alert = do
    reject_secret_keys "payload" (object raw)
    let stamp = choose_ts env raw ("updatedAt" ∷ "createdAt" ∷ "date" ∷ [])
    let lossy =
        when (has_any raw ("artifacts" ∷ "observables" ∷ [])) "dropped:embedded-observables"
        ++ (when (has_key raw "status") "dropped:status"
            ++ (ownership raw
                ++ when
                    (has_text "cortex" (lower_text (show env.repr (object raw)))
                      || has_key raw "mispEvent")
                    "dropped:misp-cortex"))
    payload ← base_payload_common env.repr raw
    raise_if (not (truthy (value payload "title"))) (invalid "alert payload must include title")
    provenance ← hive_provenance "alert" lossy stamp []
    ok (entity_of "alert" payload provenance)

  abbrev hive_redaction : String → List Redaction
  hive_redaction otype =
      record {
        redacted_field = "dataType";
        decision = "quarantined";
        policy_version = "thehive-projection-1";
        reason = "unsupported observable type for interop: " <> otype <> " (no evidence bytes)";
      }
      ∷ []

  abbrev some_tags : Json → Fields → Fields
  some_tags (array (cons t ts)) p = assign p "tags" (array (tag_texts env.repr (cons t ts)))
  some_tags v p = p

  abbrev with_fields : String → Json → Fields → Fields
  with_fields k (object fs) p = assign p k (object fs)
  with_fields k v p = p

  abbrev true_fields : Json → Json
  true_fields v = if truthy v then v else object end

  abbrev classified : Json → Fields → Fields
  classified null p = p
  classified v p = assign p "classification" (if truthy v then str "ioc" else null)

  unfoldable pub hive_observable : Result IngestError Entity
  hive_observable = do
    reject_secret_keys "payload" (object raw)
    let stamp = choose_ts env raw ("updatedAt" ∷ "createdAt" ∷ [])
    otype ←
        required_text "observable requires dataType and data"
          (safe_str env.repr (value raw "dataType" or (value raw "type" or value raw "data_type")))
    ovalue ←
        required_text "observable requires dataType and data"
          (safe_str env.repr (value raw "data" or value raw "value"))
    let kind = if truthy (value raw "ioc") then "ioc" else "observable"
    let redaction = if is_unsupported_observable otype then hive_redaction otype else []
    let lossy = when (is_unsupported_observable otype) "quarantined:unsupported-type"
    tlp ← map_tlp_pap env.repr (value raw "tlp")
    pap ← map_tlp_pap env.repr (value raw "pap")
    let described =
        with_text "description" (safe_str env.repr (value raw "message" or value raw "description"))
          (field "value" (str ovalue) (field "type" (str otype) end))
    let marked = with_true "pap" pap (with_true "tlp" tlp described)
    let tagged = some_tags (value raw "tags") marked
    let payload =
        with_fields "custom_fields" (true_fields (value raw "customFields"))
          (classified (value raw "ioc") tagged)
    provenance ← hive_provenance kind lossy stamp redaction
    ok (entity_of kind payload provenance)

  unfoldable pub hive_timeline_event : String → Result IngestError Entity
  hive_timeline_event category = do
    reject_secret_keys "payload" (object raw)
    let stamp =
        choose_ts env raw ("updatedAt" ∷ "createdAt" ∷ "startDate" ∷ "date" ∷ "endDate" ∷ [])
    let title =
        or_text (safe_str env.repr (value raw "title" or (value raw "message" or str category)))
          "untitled event"
    let lossy =
        when (has_any raw ("status" ∷ "owner" ∷ "flag" ∷ [])) "dropped:task-status-ownership"
    let stamped = field "occurred_at_raw" (str stamp.raw_ts) (
        field "occurred_at_utc" (str stamp.utc_ts) (
          field "timezone" (str stamp.tz) (
            field "category" (str (or_text (safe_str env.repr (str category)) "task"))
              (field "title" (str title) end))))
    let described =
        with_text "description" (safe_str env.repr (value raw "description" or value raw "message"))
          stamped
    let payload = some_tags (value raw "tags") described
    provenance ← hive_provenance "timeline_event" lossy stamp []
    ok (entity_of "timeline_event" payload provenance)

  -- `project`, as `project_vendor_payload` calls it: without a category.
  unfoldable pub hive_project : String → Result IngestError Entity
  hive_project kind =
      let entity = lower_text kind in
      if entity == "case"
      then hive_case
      else if entity == "alert"
      then hive_alert
      else if entity == "observable" || entity == "ioc"
      then hive_observable
      else if entity == "timeline_event" || entity == "task" || entity == "log"
      then hive_timeline_event (if entity == "task" then "task" else "log")
      else err (invalid ("unsupported entity for TheHive projection: " <> entity))
