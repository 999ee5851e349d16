-- ===== src/Ingest/Previews/Quarantine.antt =====
-- Which previews (ingest.py) are quarantined.
use mathlib.Core.Path.{subst}
use dfir_evidence_workbench.Base.{
  arith, ap, ◌≡◌, ◌⊎◌, refl, sym, ◌==◌, String, Bool, true, Option, none, some, List, [], ◌∷◌, any,
  is_some, if◌then◌else◌, inl, inr,
}
use dfir_evidence_workbench.Base.Strings.{strip, lower_text}
use dfir_evidence_workbench.Base.Json.{Json, object, Fields, value, ◌or◌, safe_str}
use dfir_evidence_workbench.Base.Result.{Result, ok, ◌>>◌, raise_if, OnOk, >>=-OnOk, OnOk-ok}
use dfir_evidence_workbench.Ingest.Envelopes.{Digests}
use dfir_evidence_workbench.Ingest.Interop.{IngestError, invalid}
use dfir_evidence_workbench.Ingest.Vendors.Entities.{
  Provenance, Surroundings, Redaction, Entity, Overrides,
}
use dfir_evidence_workbench.Ingest.Vendors.Hive.{
  hive_project, hive_observable, is_unsupported_observable,
}
use dfir_evidence_workbench.Ingest.Vendors.IrisCases.{iris_ioc, is_unsupported_ioc}
use dfir_evidence_workbench.Ingest.Vendors.Iris.{iris_project}
use dfir_evidence_workbench.Ingest.Vendors.Unsupported.{
  IsMarkedEntity, hive_observable-IsMarked, iris_ioc-IsMarked,
}
use dfir_evidence_workbench.Ingest.Previews.{
  surroundings, adapter_project, PreviewEnvelope, Libraries, Drawing, Intake, first_quarantine,
  processing_of, is_quarantined, preview_vendor_payload,
}
use dfir_evidence_workbench.Ingest.Previews.Accepted.{IsBuilt, preview_vendor_payload-IsBuilt}

processing_of-status :
    (q : String) (p : Provenance) (flag : Option Redaction)
    → ((processing_of q p flag).status ≡ (if is_some flag then "quarantined" else "preview"))
      × (is_some (processing_of q p flag).quarantine_reference ≡ is_some flag)
      × (is_some (processing_of q p flag).error_code ≡ is_some flag)
processing_of-status q p none = (refl, refl, refl)
processing_of-status q p (some flag) = (refl, refl, refl)

-- Both readings of the redactions agree.
first_quarantine-is_some :
    (flags : List Redaction)
    → is_some (first_quarantine flags) ≡ any (λ flag. flag.decision == "quarantined") flags
unfolding first_quarantine
first_quarantine-is_some [] = refl
first_quarantine-is_some (flag ∷ flags) = ground (arith, first_quarantine-is_some flags)

abbrev pub IsMarked : Bool → PreviewEnvelope → Type 0
IsMarked quarantined envelope =
    (envelope.processing.status ≡ (if quarantined then "quarantined" else "preview"))
    × (is_some envelope.processing.quarantine_reference ≡ quarantined)
    × (is_some envelope.processing.error_code ≡ quarantined)

-- A payload that previews has status quarantined, a quarantine reference and an error code if some
-- redaction of its projection decides to quarantine, and otherwise status preview and neither.
preview_vendor_payload-quarantine :
    (digests : Digests) (libs : Libraries) (drawing : Drawing) (intake : Intake) (o : Overrides)
    (raw : Json) (kind : String) (envelope : PreviewEnvelope) (entity : Entity)
    → preview_vendor_payload digests libs drawing intake o raw kind ≡ ok (envelope, entity)
    → IsMarked (is_quarantined entity) envelope
unfolding is_quarantined
preview_vendor_payload-quarantine digests libs drawing intake o raw kind envelope entity e =
    let built =
      OnOk-ok (IsBuilt digests libs drawing intake o raw kind) _
        (preview_vendor_payload-IsBuilt digests libs drawing intake o raw kind) e in
    let p = entity.provenance in
    subst (λ b. IsMarked b envelope) (first_quarantine-is_some p.redaction_flags)
      (subst (IsMarked (is_some (first_quarantine p.redaction_flags))) (sym (built.2))
        (processing_of-status drawing.quarantine_id p (first_quarantine p.redaction_flags)))

-- The type of an indicator is one that could carry the bytes of evidence.
abbrev pub CarriesBytes : (Json → String) → String → Fields → Type 0
CarriesBytes repr system raw =
    ((system ≡ "hive")
      × (t : String) × (safe_str repr
            (value raw "dataType" or (value raw "type" or value raw "data_type"))
          ≡ some t)
      × (is_unsupported_observable t ≡ true))
    ⊎ ((system ≡ "iris")
        × (t : String) × (safe_str repr
              (value raw "ioc_type" or (value raw "type" or value raw "ioc_type_name"))
            ≡ some t)
        × (is_unsupported_ioc (lower_text t) ≡ true))

module _ (env : Surroundings) (intake : Intake) (o : Overrides) (raw : Fields) where
  abbrev indicator : String → Result IngestError Entity
  indicator name =
      if name == "hive"
      then hive_observable env intake.integration_id intake.source_scope o raw
      else iris_ioc env intake.integration_id intake.source_scope o raw

  adapter_project-indicator :
      (kind name : String)
      → (kind ≡ "observable") ⊎ (kind ≡ "ioc")
      → strip (lower_text intake.source_system) ≡ name
      → (name ≡ "hive") ⊎ (name ≡ "iris")
      → adapter_project env intake o raw kind ≡ (
          raise_if (intake.integration_id == "") (invalid "integration_id must be non-empty string")
          >> indicator name)
  unfolding adapter_project hive_project iris_project lower_text strip
  adapter_project-indicator kind name (inl k) same (inl n) = rw (same, n, k) refl
  adapter_project-indicator kind name (inl k) same (inr n) = rw (same, n, k) refl
  adapter_project-indicator kind name (inr k) same (inl n) = rw (same, n, k) refl
  adapter_project-indicator kind name (inr k) same (inr n) = rw (same, n, k) refl

  adapter_project-IsMarked :
      (kind : String)
      → (kind ≡ "observable") ⊎ (kind ≡ "ioc")
      → CarriesBytes env.repr (strip (lower_text intake.source_system)) raw
      → OnOk IsMarkedEntity (adapter_project env intake o raw kind)
  adapter_project-IsMarked kind k (inl (same, t, h, u)) =
      rw (adapter_project-indicator kind "hive" k same (inl refl)) (
        >>=-OnOk IsMarkedEntity (raise_if (intake.integration_id == "") _) _ λ done _.
          hive_observable-IsMarked env intake.integration_id intake.source_scope o raw t h u)
  adapter_project-IsMarked kind k (inr (same, t, h, u)) =
      rw (adapter_project-indicator kind "iris" k same (inr refl)) (
        >>=-OnOk IsMarkedEntity (raise_if (intake.integration_id == "") _) _
          λ done _. iris_ioc-IsMarked env intake.integration_id intake.source_scope o raw t h u)

-- If an observable or indicator that previews has a type that could carry the bytes of evidence, it
-- is quarantined, with a reference and an error code: TheHive's types are compared as they are
-- written, and those of IRIS in lower case.
pub evidence_bytes_are_quarantined :
    (digests : Digests) (libs : Libraries) (drawing : Drawing) (intake : Intake) (o : Overrides)
    (raw : Fields) (kind : String) (envelope : PreviewEnvelope) (entity : Entity)
    → (kind ≡ "observable") ⊎ (kind ≡ "ioc")
    → CarriesBytes libs.repr (strip (lower_text intake.source_system)) raw
    → preview_vendor_payload digests libs drawing intake o (object raw) kind ≡ ok (envelope, entity)
    → IsMarked true envelope
unfolding is_quarantined
evidence_bytes_are_quarantined digests libs drawing intake o raw kind envelope entity k c e =
    let env = surroundings digests libs drawing in
    let built =
      OnOk-ok (IsBuilt digests libs drawing intake o (object raw) kind) _
        (preview_vendor_payload-IsBuilt digests libs drawing intake o (object raw) kind) e in
    let payload : raw ≡ envelope.payload = ap fields (built.0) in
    let projected : adapter_project env intake o raw kind ≡ ok entity = rw payload (built.1) in
    let marked =
      OnOk-ok IsMarkedEntity _ (adapter_project-IsMarked env intake o raw kind k c) projected in
    subst (λ b. IsMarked b envelope) marked
      (preview_vendor_payload-quarantine digests libs drawing intake o (object raw) kind envelope
        entity e)
  where
    fields : Json → Fields
    fields (object fs) = fs
    fields v = raw
