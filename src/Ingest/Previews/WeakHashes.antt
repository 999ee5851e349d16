-- ===== src/Ingest/Previews/WeakHashes.antt =====
-- Evidence of DFIR-IRIS without a SHA-256: src/dfir_workbench/adapters/dfir_iris_ingest_adapter.py
-- writes the decision "lossy", which schemas/interop-entity.schema.json does not list.
use dfir_evidence_workbench.Base.{
  ap, ◌≡◌, ◌⊎◌, refl, ◌==◌, String, Bool, true, false, not, ◌||◌, Option, none, some, any, is_some,
  inl, inr,
}
use dfir_evidence_workbench.Base.Strings.{strip, lower_text}
use dfir_evidence_workbench.Base.Json.{object, Fields, safe_str}
use dfir_evidence_workbench.Base.Result.{
  Result, ok, err, ◌>>◌, raise_if, OnOk, >>=-OnOk, OnOk-ok, OnOk-map,
}
use dfir_evidence_workbench.Ingest.Envelopes.{Digests}
use dfir_evidence_workbench.Ingest.Interop.{IngestError, invalid, reject_secret_keys}
use dfir_evidence_workbench.Ingest.Vendors.Entities.{Surroundings, Entity, Overrides, required_text}
use dfir_evidence_workbench.Ingest.Vendors.IrisFields.{is_full_sha256}
use dfir_evidence_workbench.Ingest.Vendors.IrisRecords.{iris_evidence_reference, stated_sha256}
use dfir_evidence_workbench.Ingest.Vendors.Iris.{iris_project}
use dfir_evidence_workbench.Ingest.Vendors.Unsupported.{provenance_of-redaction}
use dfir_evidence_workbench.Ingest.Previews.{
  surroundings, adapter_project, Libraries, Drawing, Intake, validated, project_vendor_payload,
  preview_vendor_payload,
}

-- The decisions of the schema.
abbrev pub is_known_decision : String → Bool
is_known_decision d = d == "passed" || d == "masked" || d == "dropped" || d == "quarantined"

abbrev pub has_unknown_decision : Entity → Bool
has_unknown_decision e =
    any (λ flag. not (is_known_decision flag.decision)) e.provenance.redaction_flags

abbrev IsUnknown : Entity → Type 0
IsUnknown e = has_unknown_decision e ≡ true

module _ (env : Surroundings) (intake : Intake) (o : Overrides) (raw : Fields) where
  abbrev evidence : Result IngestError Entity
  evidence = iris_evidence_reference env intake.integration_id intake.source_scope o raw

  abbrev pub sha256_of : String
  sha256_of = stated_sha256 env intake.integration_id intake.source_scope o raw

  evidence-IsUnknown : is_full_sha256 sha256_of ≡ false → OnOk IsUnknown evidence
  unfolding iris_evidence_reference
  evidence-IsUnknown h = >>=-OnOk IsUnknown (reject_secret_keys "payload" (object raw)) _ λ done _.
      >>=-OnOk IsUnknown (required_text _ (safe_str env.repr _)) _ λ filename _. rw h (
        OnOk-map _ IsUnknown
          (λ e same. ap (λ flags. any (λ flag. not (is_known_decision flag.decision)) flags) same) _
          (provenance_of-redaction env intake.integration_id "iris" _ _ _ _ intake.source_scope _ _
            _))

  adapter_project-evidence :
      (kind : String)
      → (kind ≡ "evidence_reference") ⊎ (kind ≡ "evidence")
      → strip (lower_text intake.source_system) ≡ "iris"
      → adapter_project env intake o raw kind ≡ (
          raise_if (intake.integration_id == "") (invalid "integration_id must be non-empty string")
          >> evidence)
  unfolding adapter_project iris_project lower_text strip
  adapter_project-evidence kind (inl k) same = rw (same, k) refl
  adapter_project-evidence kind (inr k) same = rw (same, k) refl

  adapter_project-IsUnknown :
      (kind : String)
      → (kind ≡ "evidence_reference") ⊎ (kind ≡ "evidence")
      → strip (lower_text intake.source_system) ≡ "iris"
      → is_full_sha256 sha256_of ≡ false
      → OnOk IsUnknown (adapter_project env intake o raw kind)
  adapter_project-IsUnknown kind k same h = rw (adapter_project-evidence kind k same) (
      >>=-OnOk IsUnknown (raise_if (intake.integration_id == "") _) _
        λ done _. evidence-IsUnknown h)

abbrev IsNever : {A : Type 0} → A → Type 0
IsNever a = ⊥

raises : {A : Type 0} (m : Result IngestError A) → OnOk IsNever m → (e : IngestError) × (m ≡ err e)
raises (ok a) h = elim h [ ]
raises (err e) h = (e, refl)

validated-IsNever :
    (name : String) (message : Option String)
    → is_some message ≡ true
    → OnOk IsNever (validated name message)
validated-IsNever name none h = cc
validated-IsNever name (some m) h = tt

module _ (libs : Libraries) (env : Surroundings) (intake : Intake) (o : Overrides)
    (raw : Fields) where
  project_vendor_payload-IsNever :
      (kind : String)
      → ((entity : Entity)
          → has_unknown_decision entity ≡ true
          → is_some (libs.entity_errors entity) ≡ true)
      → OnOk IsUnknown (adapter_project env intake o raw kind)
      → OnOk IsNever (project_vendor_payload libs env intake o (object raw) kind)
  unfolding project_vendor_payload
  project_vendor_payload-IsNever kind schema h =
      >>=-OnOk IsNever
        (raise_if (strip intake.source_scope == "")
          (invalid "source_scope is required (tenant/customer isolation)"))
        _
        λ done _. >>=-OnOk IsNever (adapter_project env intake o raw kind) _ λ entity e.
          >>=-OnOk IsNever (validated "interop-entity.schema.json" (libs.entity_errors entity)) _
            λ valid v.
              OnOk-ok IsNever _
                (validated-IsNever "interop-entity.schema.json" (libs.entity_errors entity)
                  (schema entity (OnOk-ok IsUnknown _ h e)))
                v

-- If the validator reports an entity with a decision that the schema does not list, evidence of
-- DFIR-IRIS whose stated digest is not a full SHA-256 never previews.
weak_hash_is_refused :
    (digests : Digests) (libs : Libraries) (drawing : Drawing) (intake : Intake) (o : Overrides)
    (raw : Fields) (kind : String)
    → ((entity : Entity)
        → has_unknown_decision entity ≡ true
        → is_some (libs.entity_errors entity) ≡ true)
    → (kind ≡ "evidence_reference") ⊎ (kind ≡ "evidence")
    → strip (lower_text intake.source_system) ≡ "iris"
    → is_full_sha256 (sha256_of (surroundings digests libs drawing) intake o raw) ≡ false
    → (e : IngestError) × (preview_vendor_payload digests libs drawing intake o (object raw) kind
        ≡ err e)
unfolding preview_vendor_payload
weak_hash_is_refused digests libs drawing intake o raw kind schema k same h =
    let env = surroundings digests libs drawing in
    raises _ (
      >>=-OnOk IsNever (project_vendor_payload libs env intake o (object raw) kind) _ λ entity e.
        elim (OnOk-ok IsNever _
          (project_vendor_payload-IsNever libs env intake o raw kind schema
            (adapter_project-IsUnknown env intake o raw kind k same h))
          e) [ ])
