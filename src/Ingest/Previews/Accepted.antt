-- ===== src/Ingest/Previews/Accepted.antt =====
-- What holds of every preview that `preview_vendor_payload` (ingest.py) makes.
use mathlib.Core.Path.{subst}
use dfir_evidence_workbench.Base.{
  ap, ◌∙◌, ◌≡◌, refl, sym, eq_iff, ◌==◌, String, Bool, Option, none, some, Bool-cases, inl, inr,
}
use dfir_evidence_workbench.Base.Strings.{strip, lower_text}
use dfir_evidence_workbench.Base.Json.{Json, object, Fields}
use dfir_evidence_workbench.Base.Result.{Result, ok, ◌>>◌, raise_if, OnOk, >>=-OnOk, OnOk-ok}
use dfir_evidence_workbench.Ingest.Envelopes.{Digests}
use dfir_evidence_workbench.Ingest.Interop.{IngestError, invalid, key_material}
use dfir_evidence_workbench.Ingest.Interop.Secrets.{HasNoSecret}
use dfir_evidence_workbench.Ingest.Vendors.Entities.{
  Provenance, Surroundings, Redaction, Entity, Overrides,
}
use dfir_evidence_workbench.Ingest.Vendors.Hive.{hive_project}
use dfir_evidence_workbench.Ingest.Vendors.Iris.{iris_project}
use dfir_evidence_workbench.Ingest.Vendors.Keyed.{IsSound, stated_parts}
use dfir_evidence_workbench.Ingest.Vendors.Sound.{hive_project-Sound, iris_project-Sound}
use dfir_evidence_workbench.Ingest.Previews.{
  PreviewEnvelope, Libraries, Drawing, Intake, surroundings, validated, adapter_project,
  project_vendor_payload, require_source, source_of, first_quarantine, processing_of, envelope_of,
  build_envelope_for_preview, preview_vendor_payload,
}

module _ (env : Surroundings) (intake : Intake) where
  -- The name of the adapter that the intake selects.
  abbrev system : String
  system = strip (lower_text intake.source_system)

  abbrev IsProjected : Fields → Entity → Type 0
  IsProjected raw = IsSound env.v1 intake.integration_id system intake.source_scope raw

  adapted :
      (raw : Fields) (name : String) (rest : Result IngestError Entity) (b : Bool) (e : IngestError)
      → system ≡ name
      → OnOk (IsSound env.v1 intake.integration_id name intake.source_scope raw) rest
      → OnOk (IsProjected raw) (raise_if b e >> rest)
  adapted raw name rest b e same h =
      >>=-OnOk (IsProjected raw) (raise_if b e) (λ done. rest)
        λ done passed.
          subst (λ n. OnOk (IsSound env.v1 intake.integration_id n intake.source_scope raw) rest)
            (sym same) h

  adapter_project-IsProjected :
      (o : Overrides) (raw : Fields) (kind : String)
      → OnOk (IsProjected raw) (adapter_project env intake o raw kind)
  unfolding adapter_project
  adapter_project-IsProjected o raw kind = elim (Bool-cases (system == "hive")) [
    | inl h ↦ rw h (
        adapted raw "hive" (hive_project env intake.integration_id intake.source_scope o raw kind)
          (intake.integration_id == "") (invalid "integration_id must be non-empty string")
          ((eq_iff system "hive").0 h)
          (hive_project-Sound env intake.integration_id intake.source_scope o raw kind))
    | inr h ↦ rw h (elim (Bool-cases (system == "iris")) [
      | inl g ↦ rw g (
          adapted raw "iris" (iris_project env intake.integration_id intake.source_scope o raw kind)
            (intake.integration_id == "") (invalid "integration_id must be non-empty string")
            ((eq_iff system "iris").0 g)
            (iris_project-Sound env intake.integration_id intake.source_scope o raw kind))
      | inr g ↦ rw g tt
    ])
  ]

  project_vendor_payload-eq :
      (libs : Libraries) (o : Overrides) (raw : Fields) (kind : String)
      → OnOk
          (λ entity. adapter_project env intake o raw kind ≡ ok entity)
          (project_vendor_payload libs env intake o (object raw) kind)
  unfolding project_vendor_payload
  project_vendor_payload-eq libs o raw kind =
      >>=-OnOk _
        (raise_if (strip intake.source_scope == "")
          (invalid "source_scope is required (tenant/customer isolation)"))
        _
        λ done _. >>=-OnOk _ (adapter_project env intake o raw kind) _ λ entity e.
          >>=-OnOk _ (validated "interop-entity.schema.json" (libs.entity_errors entity)) _
            λ valid _. e

-- The one envelope that a payload and its projection have.
build_envelope_for_preview-eq :
    (digests : Digests) (libs : Libraries) (drawing : Drawing) (raw : Fields) (entity : Entity)
    → OnOk
        (λ envelope. envelope ≡ envelope_of digests libs drawing raw entity)
        (build_envelope_for_preview digests libs drawing raw entity)
unfolding build_envelope_for_preview
build_envelope_for_preview-eq digests libs drawing raw entity =
    >>=-OnOk _ (require_source (source_of entity.provenance)) _ λ done _.
      >>=-OnOk _
        (validated "ingest-envelope.schema.json"
          (libs.envelope_errors (envelope_of digests libs drawing raw entity)))
        _ λ valid _. refl

module _ (digests : Digests) (libs : Libraries) (drawing : Drawing) (intake : Intake) where
  -- How an answer came about.
  abbrev pub IsBuilt : Overrides → Json → String → PreviewEnvelope × Entity → Type 0
  IsBuilt o raw kind (envelope, entity) =
      (raw ≡ object envelope.payload)
      × (adapter_project (surroundings digests libs drawing) intake o envelope.payload kind
          ≡ ok entity)
      × (envelope ≡ envelope_of digests libs drawing envelope.payload entity)

  preview_dict-IsBuilt :
      (o : Overrides) (raw : Fields) (kind : String)
      → OnOk
          (IsBuilt o (object raw) kind)
          (preview_vendor_payload digests libs drawing intake o (object raw) kind)
  unfolding preview_vendor_payload
  preview_dict-IsBuilt o raw kind =
      let env = surroundings digests libs drawing in
      >>=-OnOk (IsBuilt o (object raw) kind)
        (project_vendor_payload libs env intake o (object raw) kind) _
        λ entity e.
          >>=-OnOk (IsBuilt o (object raw) kind)
            (build_envelope_for_preview digests libs drawing raw entity) _
            λ envelope f.
              subst (λ x. IsBuilt o (object raw) kind (x, entity))
                (sym
                  (OnOk-ok _ _ (build_envelope_for_preview-eq digests libs drawing raw entity) f))
                (refl, OnOk-ok _ _ (project_vendor_payload-eq env intake libs o raw kind) e, refl)

  pub preview_vendor_payload-IsBuilt :
      (o : Overrides) (raw : Json) (kind : String)
      → OnOk (IsBuilt o raw kind) (preview_vendor_payload digests libs drawing intake o raw kind)
  unfolding preview_vendor_payload project_vendor_payload
  preview_vendor_payload-IsBuilt o (object raw) kind = preview_dict-IsBuilt o raw kind
  preview_vendor_payload-IsBuilt o raw kind = tt

  -- What an envelope keeps of the payload and of the call.
  abbrev pub IsFaithful : Json → PreviewEnvelope → Type 0
  IsFaithful raw envelope =
      HasNoSecret raw
      × (raw ≡ object envelope.payload)
      × (envelope.payload_sha256 ≡ digests.sha256 (libs.canonical_json raw))
      × (envelope.source.system ≡ strip (lower_text intake.source_system))
      × (envelope.source.scope ≡ intake.source_scope)
      × (envelope.processing.idempotency_key
          ≡ digests.v1 (
              key_material (record {
                integration_id = intake.integration_id;
                direction = "in";
                source_system = envelope.source.system;
                source_entity = envelope.source.entity;
                source_id = envelope.source.id;
                source_revision = envelope.source.revision;
              })))

  processing_of-key :
      (q : String) (p : Provenance) (flag : Option Redaction)
      → (processing_of q p flag).idempotency_key ≡ p.idempotency_key
  processing_of-key q p none = refl
  processing_of-key q p (some flag) = refl

  envelope_of-IsFaithful :
      (payload : Fields) (entity : Entity)
      → IsProjected (surroundings digests libs drawing) intake payload entity
      → IsFaithful (object payload) (envelope_of digests libs drawing payload entity)
  envelope_of-IsFaithful payload entity h =
      let p = entity.provenance in
      (
        h.0,
        refl,
        refl,
        h.1.1,
        h.1.2,
        processing_of-key drawing.quarantine_id p (first_quarantine p.redaction_flags)
            ∙ h.1.5
            ∙ ap
                (λ i.
                  digests.v1 (key_material (record (stated_parts entity) { integration_id = i })))
                (h.1.0),
      )

  -- A payload that previews is a dict without a key that looks like a credential at any depth. Its
  -- envelope keeps the payload and its digest, names the source system and the scope of the call,
  -- and has the key of exactly the source that it names.
  pub preview_vendor_payload-IsFaithful :
      (o : Overrides) (raw : Json) (kind : String) (envelope : PreviewEnvelope) (entity : Entity)
      → preview_vendor_payload digests libs drawing intake o raw kind ≡ ok (envelope, entity)
      → IsFaithful raw envelope
  preview_vendor_payload-IsFaithful o raw kind envelope entity e =
      let built = OnOk-ok (IsBuilt o raw kind) _ (preview_vendor_payload-IsBuilt o raw kind) e in
      subst (λ r. IsFaithful r envelope) (sym (built.0))
        (subst (IsFaithful (object envelope.payload)) (sym (built.2)) (
          envelope_of-IsFaithful envelope.payload entity (
            OnOk-ok _ _
              (adapter_project-IsProjected (surroundings digests libs drawing) intake o
                envelope.payload kind)
              (built.1))))
