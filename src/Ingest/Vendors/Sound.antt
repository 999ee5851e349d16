-- ===== src/Ingest/Vendors/Sound.antt =====
-- The projections of both vendor adapters are sound.
use dfir_evidence_workbench.Base.{◌==◌, String, Bool, true, false, not, ◌||◌, if◌then◌else◌}
use dfir_evidence_workbench.Base.Strings.{lower_text, strip}
use dfir_evidence_workbench.Base.Json.{Fields, safe_str, value, truthy}
use dfir_evidence_workbench.Base.Result.{Result, ◌>>=◌, raise_if, OnOk, >>=-OnOk}
use dfir_evidence_workbench.Ingest.Interop.{IngestError}
use dfir_evidence_workbench.Ingest.Vendors.Entities.{Surroundings, Entity, Overrides, required_text}
use dfir_evidence_workbench.Ingest.Vendors.HiveFields.{base_payload_common, map_tlp_pap}
use dfir_evidence_workbench.Ingest.Vendors.Hive.{
  hive_case, hive_alert, hive_observable, hive_timeline_event, hive_project,
}
use dfir_evidence_workbench.Ingest.Vendors.IrisCases.{iris_case, iris_alert, iris_ioc, iris_asset}
use dfir_evidence_workbench.Ingest.Vendors.IrisRecords.{
  iris_timeline_event, iris_finding, iris_evidence_reference,
}
use dfir_evidence_workbench.Ingest.Vendors.Iris.{iris_project}
use dfir_evidence_workbench.Ingest.Vendors.Keyed.{
  IsKeyed, IsSound, checked-IsSound, provenance_of-IsKeyed,
}

module _ (env : Surroundings) (id scope : String) (o : Overrides) (raw : Fields) where
  abbrev Keyed : String → Entity → Type 0
  Keyed system = IsKeyed env.v1 id system scope

  abbrev Sound : String → Result IngestError Entity → Type 0
  Sound system = OnOk (IsSound env.v1 id system scope raw)

  step :
      {A : Type 0} (system : String) (m : Result IngestError A)
      (next : A → Result IngestError Entity)
      → ((a : A) → OnOk (Keyed system) (next a))
      → OnOk (Keyed system) (m >>= next)
  step system m next h = >>=-OnOk (Keyed system) m next (λ a e. h a)

  hive_case-Sound : Sound "hive" (hive_case env id scope o raw)
  unfolding hive_case
  hive_case-Sound = checked-IsSound env.v1 id "hive" scope raw _ (
      step "hive" (base_payload_common env.repr raw) _ λ payload.
        step "hive" (raise_if (not (truthy (value payload "title"))) _) _
          λ done. provenance_of-IsKeyed env id "hive" _ _ _ _ scope _ _ payload)

  hive_alert-Sound : Sound "hive" (hive_alert env id scope o raw)
  unfolding hive_alert
  hive_alert-Sound = checked-IsSound env.v1 id "hive" scope raw _ (
      step "hive" (base_payload_common env.repr raw) _ λ payload.
        step "hive" (raise_if (not (truthy (value payload "title"))) _) _
          λ done. provenance_of-IsKeyed env id "hive" _ _ _ _ scope _ _ payload)

  hive_observable-Sound : Sound "hive" (hive_observable env id scope o raw)
  unfolding hive_observable
  hive_observable-Sound = checked-IsSound env.v1 id "hive" scope raw _ (
      step "hive" (required_text _ (safe_str env.repr _)) _ λ otype.
        step "hive" (required_text _ (safe_str env.repr _)) _ λ ovalue.
          step "hive" (map_tlp_pap env.repr (value raw "tlp")) _ λ tlp.
            step "hive" (map_tlp_pap env.repr (value raw "pap")) _
              λ pap. provenance_of-IsKeyed env id "hive" _ _ _ _ scope _ _ _)

  hive_timeline_event-Sound :
      (category : String) → Sound "hive" (hive_timeline_event env id scope o raw category)
  unfolding hive_timeline_event
  hive_timeline_event-Sound category =
      checked-IsSound env.v1 id "hive" scope raw _
        (provenance_of-IsKeyed env id "hive" _ _ _ _ scope _ _ _)

  iris_case-Sound : Sound "iris" (iris_case env id scope o raw)
  unfolding iris_case
  iris_case-Sound = checked-IsSound env.v1 id "iris" scope raw _ (
      step "iris" (raise_if (not (truthy (value _ "title"))) _) _
        λ done. provenance_of-IsKeyed env id "iris" _ _ _ _ scope _ _ _)

  iris_alert-Sound : Sound "iris" (iris_alert env id scope o raw)
  unfolding iris_alert
  iris_alert-Sound = checked-IsSound env.v1 id "iris" scope raw _ (
      step "iris" (raise_if (not (truthy (value _ "title"))) _) _
        λ done. provenance_of-IsKeyed env id "iris" _ _ _ _ scope _ _ _)

  iris_ioc-Sound : Sound "iris" (iris_ioc env id scope o raw)
  unfolding iris_ioc
  iris_ioc-Sound = checked-IsSound env.v1 id "iris" scope raw _ (
      step "iris" (required_text _ (safe_str env.repr _)) _ λ text.
        step "iris" (required_text _ (safe_str env.repr _)) _
          λ text. provenance_of-IsKeyed env id "iris" _ _ _ _ scope _ _ _)

  iris_asset-Sound : Sound "iris" (iris_asset env id scope o raw)
  unfolding iris_asset
  iris_asset-Sound = checked-IsSound env.v1 id "iris" scope raw _ (
      step "iris" (required_text _ (safe_str env.repr _)) _ λ text.
        step "iris" (required_text _ (safe_str env.repr _)) _
          λ text. provenance_of-IsKeyed env id "iris" _ _ _ _ scope _ _ _)

  iris_timeline_event-Sound :
      (category : String) → Sound "iris" (iris_timeline_event env id scope o raw category)
  unfolding iris_timeline_event
  iris_timeline_event-Sound category =
      checked-IsSound env.v1 id "iris" scope raw _
        (provenance_of-IsKeyed env id "iris" _ _ _ _ scope _ _ _)

  iris_finding-Sound : Sound "iris" (iris_finding env id scope o raw)
  unfolding iris_finding
  iris_finding-Sound = checked-IsSound env.v1 id "iris" scope raw _ (
      step "iris" (required_text _ (safe_str env.repr _)) _ λ text.
        step "iris" (required_text _ (safe_str env.repr _)) _
          λ text. provenance_of-IsKeyed env id "iris" _ _ _ _ scope _ _ _)

  iris_evidence_reference-Sound : Sound "iris" (iris_evidence_reference env id scope o raw)
  unfolding iris_evidence_reference
  iris_evidence_reference-Sound = checked-IsSound env.v1 id "iris" scope raw _ (
      step "iris" (required_text _ (safe_str env.repr _)) _
        λ text. provenance_of-IsKeyed env id "iris" _ _ _ _ scope _ _ _)

  if-Sound :
      (system : String) (b : Bool) (m n : Result IngestError Entity)
      → Sound system m
      → Sound system n
      → Sound system (if b then m else n)
  if-Sound system true m n hm hn = hm
  if-Sound system false m n hm hn = hn

  pub hive_project-Sound : (kind : String) → Sound "hive" (hive_project env id scope o raw kind)
  unfolding hive_project
  hive_project-Sound kind = if-Sound "hive" (lower_text kind == "case") _ _ hive_case-Sound (
      if-Sound "hive" (lower_text kind == "alert") _ _ hive_alert-Sound (
        if-Sound "hive" (lower_text kind == "observable" || lower_text kind == "ioc") _ _
          hive_observable-Sound
          (if-Sound "hive"
            (lower_text kind == "timeline_event"
              || lower_text kind == "task"
              || lower_text kind == "log")
            _ _ (hive_timeline_event-Sound _) tt)))

  pub iris_project-Sound : (kind : String) → Sound "iris" (iris_project env id scope o raw kind)
  unfolding iris_project
  iris_project-Sound kind =
      let entity = strip (lower_text kind) in
      if-Sound "iris" (entity == "case") _ _ iris_case-Sound (
        if-Sound "iris" (entity == "alert") _ _ iris_alert-Sound (
          if-Sound "iris" (entity == "ioc" || entity == "observable") _ _ iris_ioc-Sound (
            if-Sound "iris" (entity == "asset") _ _ iris_asset-Sound (
              if-Sound "iris"
                (entity == "timeline_event"
                  || entity == "event"
                  || entity == "task"
                  || entity == "log")
                _ _ (iris_timeline_event-Sound entity)
                (if-Sound "iris" (entity == "finding" || entity == "note") _ _ iris_finding-Sound (
                  if-Sound "iris" (entity == "evidence_reference" || entity == "evidence") _ _
                    iris_evidence_reference-Sound tt))))))
