-- ===== src/Ingest/Vendors/Iris.antt =====
-- `DFIRIRISIngestAdapter.project`, src/dfir_workbench/adapters/dfir_iris_ingest_adapter.py.
use dfir_evidence_workbench.Base.{◌==◌, String, ◌||◌, if◌then◌else◌}
use dfir_evidence_workbench.Base.Strings.{◌<>◌, strip, lower_text}
use dfir_evidence_workbench.Base.Json.{Fields}
use dfir_evidence_workbench.Base.Result.{Result, err}
use dfir_evidence_workbench.Ingest.Interop.{IngestError, invalid}
use dfir_evidence_workbench.Ingest.Vendors.Entities.{Surroundings, Entity, Overrides}
use dfir_evidence_workbench.Ingest.Vendors.IrisCases.{iris_case, iris_alert, iris_ioc, iris_asset}
use dfir_evidence_workbench.Ingest.Vendors.IrisRecords.{
  iris_timeline_event, iris_finding, iris_evidence_reference,
}

module _ (env : Surroundings) (integration_id source_scope : String) (o : Overrides)
    (raw : Fields) where
  -- `project`, as `project_vendor_payload` calls it: without a category.
  unfoldable pub iris_project : String → Result IngestError Entity
  iris_project kind =
      let entity = strip (lower_text kind) in
      if entity == "case"
      then iris_case env integration_id source_scope o raw
      else if entity == "alert"
      then iris_alert env integration_id source_scope o raw
      else if entity == "ioc" || entity == "observable"
      then iris_ioc env integration_id source_scope o raw
      else if entity == "asset"
      then iris_asset env integration_id source_scope o raw
      else if entity == "timeline_event" || entity == "event" || entity == "task" || entity == "log"
      then iris_timeline_event env integration_id source_scope o raw entity
      else if entity == "finding" || entity == "note"
      then iris_finding env integration_id source_scope o raw
      else if entity == "evidence_reference" || entity == "evidence"
      then iris_evidence_reference env integration_id source_scope o raw
      else err (invalid ("unsupported entity for DFIR-IRIS projection: " <> entity))
