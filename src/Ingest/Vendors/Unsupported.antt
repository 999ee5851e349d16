-- ===== src/Ingest/Vendors/Unsupported.antt =====
-- The indicators that the vendor adapters mark for quarantine.
use dfir_evidence_workbench.Base.{ap, ◌∙◌, ◌≡◌, refl, ◌==◌, String, Bool, true, some, List, any}
use dfir_evidence_workbench.Base.Strings.{lower_text}
use dfir_evidence_workbench.Base.Json.{Json, object, Fields, value, ◌or◌, safe_str}
use dfir_evidence_workbench.Base.Result.{Result, ok, err, ◌>>=◌, OnOk, >>=-OnOk, OnOk-map}
use dfir_evidence_workbench.Ingest.Interop.{
  IngestError, text_part, idempotency_key, reject_secret_keys,
}
use dfir_evidence_workbench.Ingest.Vendors.Entities.{
  Surroundings, Redaction, Stamp, Provenance, Entity, Overrides, required_text, provenance_of,
  entity_of,
}
use dfir_evidence_workbench.Ingest.Vendors.HiveFields.{map_tlp_pap}
use dfir_evidence_workbench.Ingest.Vendors.Hive.{hive_observable, is_unsupported_observable}
use dfir_evidence_workbench.Ingest.Vendors.IrisCases.{iris_ioc, is_unsupported_ioc}

abbrev pub has_quarantine : List Redaction → Bool
has_quarantine flags = any (λ flag. flag.decision == "quarantined") flags

abbrev pub IsMarkedEntity : Entity → Type 0
IsMarkedEntity e = has_quarantine e.provenance.redaction_flags ≡ true

-- An entity keeps the redactions that its provenance is given.
pub provenance_of-redaction :
    (env : Surroundings) (id system kind : String) (sid srev : Json) (stamp : Stamp)
    (scope : String) (lossy : List String) (redaction : List Redaction) (payload : Fields)
    → OnOk
        (λ e. e.provenance.redaction_flags ≡ redaction)
        (provenance_of env id system kind sid srev stamp scope lossy redaction >>= λ provenance.
          ok (entity_of kind payload provenance))
unfolding provenance_of
provenance_of-redaction env id system kind sid srev stamp scope lossy redaction payload =
    after (text_part sid) _
      λ a. after (text_part srev) _ λ b. after (idempotency_key env.v1 _) _ λ key. refl
  where
    after :
        {A : Type 0} (m : Result IngestError A) (next : A → Result IngestError Provenance)
        → ((a : A)
            → OnOk
                (λ e. e.provenance.redaction_flags ≡ redaction)
                (next a >>= λ provenance. ok (entity_of kind payload provenance)))
        → OnOk
            (λ e. e.provenance.redaction_flags ≡ redaction)
            ((m >>= next) >>= λ provenance. ok (entity_of kind payload provenance))
    after (ok a) next h = h a
    after (err e) next h = tt

-- If the redactions quarantine, so does the entity.
provenance_of-IsMarked :
    (env : Surroundings) (id system kind : String) (sid srev : Json) (stamp : Stamp)
    (scope : String) (lossy : List String) (redaction : List Redaction) (payload : Fields)
    → has_quarantine redaction ≡ true
    → OnOk IsMarkedEntity (
        provenance_of env id system kind sid srev stamp scope lossy redaction >>= λ provenance.
        ok (entity_of kind payload provenance))
provenance_of-IsMarked env id system kind sid srev stamp scope lossy redaction payload h =
    OnOk-map _ IsMarkedEntity (λ e same. ap has_quarantine same ∙ h) _
      (provenance_of-redaction env id system kind sid srev stamp scope lossy redaction payload)

module _ (env : Surroundings) (id scope : String) (o : Overrides) (raw : Fields) where
  step :
      {A : Type 0} (m : Result IngestError A) (next : A → Result IngestError Entity)
      → ((a : A) → OnOk IsMarkedEntity (next a))
      → OnOk IsMarkedEntity (m >>= next)
  step m next h = >>=-OnOk IsMarkedEntity m next (λ a e. h a)

  pub hive_observable-IsMarked :
      (t : String)
      → safe_str env.repr (value raw "dataType" or (value raw "type" or value raw "data_type"))
        ≡ some t
      → is_unsupported_observable t ≡ true
      → OnOk IsMarkedEntity (hive_observable env id scope o raw)
  unfolding hive_observable
  hive_observable-IsMarked t h u = step (reject_secret_keys "payload" (object raw)) _ λ done.
      rw (h, u)
        (step (required_text _ (safe_str env.repr _)) _ λ text.
          step (map_tlp_pap env.repr (value raw "tlp")) _ λ tlp.
            step (map_tlp_pap env.repr (value raw "pap")) _
              λ pap. provenance_of-IsMarked env id "hive" _ _ _ _ scope _ _ _ refl)

  pub iris_ioc-IsMarked :
      (t : String)
      → safe_str env.repr (value raw "ioc_type" or (value raw "type" or value raw "ioc_type_name"))
        ≡ some t
      → is_unsupported_ioc (lower_text t) ≡ true
      → OnOk IsMarkedEntity (iris_ioc env id scope o raw)
  unfolding iris_ioc
  iris_ioc-IsMarked t h u = step (reject_secret_keys "payload" (object raw)) _ λ done.
      step (required_text _ (safe_str env.repr _)) _
        λ text. rw (h, u) (provenance_of-IsMarked env id "iris" _ _ _ _ scope _ _ _ refl)
