-- ===== src/Ingest/Vendors/Keyed.antt =====
-- What holds of every entity that the two vendor adapters make.
use dfir_evidence_workbench.Base.{◌≡◌, refl, String, Bool-cases, inl, inr, false, List}
use dfir_evidence_workbench.Base.Json.{Json, str, object, Fields}
use dfir_evidence_workbench.Base.Result.{Result, ok, ◌>>=◌, ◌>>◌, OnOk, >>=-OnOk, OnOk-map}
use dfir_evidence_workbench.Ingest.Interop.{
  IngestError, KeyParts, key_material, has_empty_part, idempotency_key, text_part,
  reject_secret_keys,
}
use dfir_evidence_workbench.Ingest.Interop.Secrets.{HasNoSecret, reject_secret_keys-ok_iff}
use dfir_evidence_workbench.Ingest.Vendors.Entities.{
  Surroundings, Redaction, Entity, Stamp, provenance_of, entity_of,
}

-- The parts of the key that an entity states.
abbrev pub stated_parts : Entity → KeyParts
stated_parts e = record {
  integration_id = e.provenance.integration_id;
  direction = "in";
  source_system = e.provenance.source_system;
  source_entity = e.provenance.source_entity;
  source_id = e.provenance.source_id;
  source_revision = e.provenance.source_revision;
}

module _ (v1 : String → String) (integration_id system scope : String) where
  -- An entity that states where it comes from, with the key of what it states.
  abbrev pub IsKeyed : Entity → Type 0
  IsKeyed e =
      (e.provenance.integration_id ≡ integration_id)
      × (e.provenance.source_system ≡ system)
      × (e.provenance.source_scope ≡ scope)
      × (e.provenance.source_entity ≡ e.entity_type)
      × (has_empty_part (stated_parts e) ≡ false)
      × (e.provenance.idempotency_key ≡ v1 (key_material (stated_parts e)))

  abbrev pub IsSound : Fields → Entity → Type 0
  IsSound raw e = HasNoSecret (object raw) × IsKeyed e

  -- A projection refuses credentials before anything else.
  pub checked-IsSound :
      (raw : Fields) (rest : Result IngestError Entity)
      → OnOk IsKeyed rest
      → OnOk (IsSound raw) (reject_secret_keys "payload" (object raw) >> rest)
  checked-IsSound raw rest h =
      >>=-OnOk (IsSound raw) (reject_secret_keys "payload" (object raw)) (λ done. rest)
        λ done e.
          OnOk-map IsKeyed (IsSound raw)
            (λ entity k. ((reject_secret_keys-ok_iff "payload" (object raw)).0 e, k)) rest h

pub provenance_of-IsKeyed :
    (env : Surroundings) (integration_id system kind : String) (sid srev : Json) (stamp : Stamp)
    (scope : String) (lossy : List String) (redaction : List Redaction) (payload : Fields)
    → OnOk (IsKeyed env.v1 integration_id system scope) (
        provenance_of env integration_id system kind sid srev stamp scope lossy redaction
        >>= λ provenance. ok (entity_of kind payload provenance))
unfolding provenance_of idempotency_key text_part
provenance_of-IsKeyed env integration_id system kind (str a) (str b) stamp scope lossy redaction
      payload =
    elim (Bool-cases (
      has_empty_part (record {
        integration_id = integration_id;
        direction = "in";
        source_system = system;
        source_entity = kind;
        source_id = a;
        source_revision = b;
      }))) [ inl h ↦ rw h tt | inr h ↦ rw h (refl, refl, refl, refl, h, refl) ]
provenance_of-IsKeyed env integration_id system kind sid srev stamp scope lossy redaction payload =
    tt
