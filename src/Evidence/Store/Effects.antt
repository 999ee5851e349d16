-- ===== src/Evidence/Store/Effects.antt =====
-- What the methods of src/dfir_workbench/evidence_store.py do to the disk.
use mathlib.Core.Path.{subst}
use dfir_evidence_workbench.Base.{
  ℕ, ◌≤◌, String, ◌≡◌, refl, sym, Bool, true, false, Option, none, some, List, arith, is_some,
  if◌then◌else◌,
}
use dfir_evidence_workbench.Base.Result.{Result, ok, err, >>=-eq-ok}
use dfir_evidence_workbench.Base.Dict
use dfir_evidence_workbench.Base.Dict.{beq_refl}
use dfir_evidence_workbench.Evidence.Files.{
  Node, file, Slot, bytes_of, QuarantineRecord, EvidenceManifest, ManifestFile, EvidenceKey,
  evidence_key_eq, SlotKey, slot_key_eq, Disk, StoreError, meta,
}
use dfir_evidence_workbench.Evidence.Store.{
  Store, validate_id, evidence_dir, quarantine_dir, read_manifest, republished, publish, admitted,
  written, promote_to_evidence, ingest_to_quarantine, set_legal_hold, set_hold, write_hold,
  delete_evidence,
}
use dfir_evidence_workbench.Evidence.Store.Retention.{
  read_manifest-ok, delete_evidence-ok, set_legal_hold-ok,
}
use dfir_evidence_workbench.Evidence.Store.Promotion.{publish_at, republished-ok}

-- What a call of a store does to the disk; `may_delete` says which deletions the call asks for.
pub data Change (sha256 : List ℕ → String) (store : Store)
    (may_delete : String → String → ℕ → Type 0) (disk : Disk) : Disk → Type 0 where
  nothing : Change sha256 store may_delete disk disk
  takes_in :
      (qkey : SlotKey) (slot : Slot)
      → qkey.0 ≡ store.tenant_id
      → Change sha256 store may_delete disk
          (record disk { quarantine = Dict.put disk.quarantine qkey slot })
  publishes :
      (key : EvidenceKey) (qkey : SlotKey) (m : EvidenceManifest) (bytes : List ℕ)
      → key.0 ≡ store.tenant_id
      → qkey.0 ≡ store.tenant_id
      → Dict.get disk.evidence key ≡ none
      → Change sha256 store may_delete disk (written key qkey m bytes disk)
  holds :
      (key : EvidenceKey) (f : ManifestFile)
      → key.0 ≡ store.tenant_id
      → Change sha256 store may_delete disk
          (record disk { manifests = Dict.put disk.manifests key f })
  deletes :
      (case_id evidence_id : String) (key : EvidenceKey) (m : EvidenceManifest) (now : ℕ)
      → key.0 ≡ store.tenant_id
      → evidence_dir sha256 store case_id evidence_id ≡ ok key
      → read_manifest sha256 store case_id evidence_id disk ≡ ok m
      → m.legal_hold ≡ false
      → m.retention_until ≤ now
      → may_delete case_id evidence_id now
      → Change sha256 store may_delete disk (record disk {
        evidence = Dict.remove disk.evidence key;
        manifests = Dict.remove disk.manifests key;
      })

module _ (sha256 : List ℕ → String) (store : Store) (case_id evidence_id : String) where
  pub quarantine_dir-tenant :
      (id : String) (qkey : SlotKey)
      → quarantine_dir sha256 store id ≡ ok qkey
      → qkey.0 ≡ store.tenant_id
  unfolding quarantine_dir validate_id
  quarantine_dir-tenant id qkey h = ground arith

  pub evidence_dir-tenant :
      (key : EvidenceKey)
      → evidence_dir sha256 store case_id evidence_id ≡ ok key
      → key.0 ≡ store.tenant_id
  unfolding evidence_dir
  evidence_dir-tenant key h = ground arith

  publish-free :
      (key : EvidenceKey) (qkey : SlotKey) (id expected : String) (days : Option ℕ) (now : ℕ)
      (bytes : List ℕ) (disk disk' : Disk) (m : EvidenceManifest)
      → quarantine_dir sha256 store id ≡ ok qkey
      → admitted sha256 store (Dict.get disk.quarantine qkey) expected ≡ ok bytes
      → publish sha256 store key id expected days now disk ≡ ok (m, disk')
      → Dict.get disk.evidence key ≡ none
  unfolding publish
  publish-free key qkey id expected days now bytes disk disk' m at adm h =
      let h' = rw (at, adm) at h in ground (arith, h')

  publish-Change :
      (may_delete : String → String → ℕ → Type 0) (key : EvidenceKey) (id expected : String)
      (days : Option ℕ) (now : ℕ) (disk disk' : Disk) (m : EvidenceManifest)
      → evidence_dir sha256 store case_id evidence_id ≡ ok key
      → publish sha256 store key id expected days now disk ≡ ok (m, disk')
      → Change sha256 store may_delete disk disk'
  unfolding publish
  publish-Change may_delete key id expected days now disk disk' m at h =
      let (qkey, at_q, h1) = >>=-eq-ok (quarantine_dir sha256 store id) _ h in
      let (bytes, adm, _) =
        >>=-eq-ok (admitted sha256 store (Dict.get disk.quarantine qkey) expected) _ h1 in
      let (_, same_disk) =
        publish_at sha256 store case_id evidence_id key qkey id expected days now bytes disk disk' m
          at_q adm h in
      subst (Change sha256 store may_delete disk) same_disk (
        publishes key qkey _ bytes (evidence_dir-tenant key at) (quarantine_dir-tenant id qkey at_q)
          (publish-free key qkey id expected days now bytes disk disk' m at_q adm h))

  pub promote_to_evidence-Change :
      (may_delete : String → String → ℕ → Type 0) (id expected : String) (days : Option ℕ) (now : ℕ)
      (disk disk' : Disk) (m : EvidenceManifest)
      → promote_to_evidence sha256 store case_id evidence_id id expected days now disk
        ≡ ok (m, disk')
      → Change sha256 store may_delete disk disk'
  unfolding promote_to_evidence
  promote_to_evidence-Change may_delete id expected days now disk disk' m h =
      let (key, at, h1) = >>=-eq-ok (evidence_dir sha256 store case_id evidence_id) _ h in
      go key at (is_some (Dict.get disk.manifests key)) h1
    where
      go :
          (key : EvidenceKey)
          → evidence_dir sha256 store case_id evidence_id ≡ ok key
          → (b : Bool)
          → (if b
              then republished sha256 store case_id evidence_id expected disk
              else publish sha256 store key id expected days now disk)
            ≡ ok (m, disk')
          → Change sha256 store may_delete disk disk'
      go key at true e =
          let (_, _, same, _) =
            republished-ok sha256 store case_id evidence_id expected disk disk' m e in
          subst (Change sha256 store may_delete disk) (sym same) nothing
      go key at false e = publish-Change may_delete key id expected days now disk disk' m at e

  hold_at :
      (b : Bool) (disk disk' : Disk) (m before : EvidenceManifest) (key : EvidenceKey)
      (f : ManifestFile)
      → read_manifest sha256 store case_id evidence_id disk ≡ ok before
      → evidence_dir sha256 store case_id evidence_id ≡ ok key
      → Dict.get disk.manifests key ≡ some f
      → set_legal_hold sha256 store case_id evidence_id b disk ≡ ok (m, disk')
      → record disk { manifests = Dict.put disk.manifests key (set_hold b f) } ≡ disk'
  unfolding set_legal_hold write_hold
  hold_at b disk disk' m before key f at at_key found h =
      let done = rw (at, at_key, found) at h in ground (arith, done)

  pub set_legal_hold-Change :
      (may_delete : String → String → ℕ → Type 0) (b : Bool) (disk disk' : Disk)
      (m : EvidenceManifest)
      → set_legal_hold sha256 store case_id evidence_id b disk ≡ ok (m, disk')
      → Change sha256 store may_delete disk disk'
  set_legal_hold-Change may_delete b disk disk' m h =
      let (before, at, _, _, _) =
        set_legal_hold-ok sha256 store case_id evidence_id b disk disk' m h in
      let (key, at_key, f, found, _, _) =
        read_manifest-ok sha256 store case_id evidence_id disk before at in
      subst (Change sha256 store may_delete disk)
        (hold_at b disk disk' m before key f at at_key found h)
        (holds key (set_hold b f) (evidence_dir-tenant key at_key))

  delete_at :
      (force : Bool) (now : ℕ) (disk disk' : Disk) (m : EvidenceManifest) (key : EvidenceKey)
      → read_manifest sha256 store case_id evidence_id disk ≡ ok m
      → evidence_dir sha256 store case_id evidence_id ≡ ok key
      → delete_evidence sha256 store case_id evidence_id force now disk ≡ ok (tt, disk')
      → record disk {
        evidence = Dict.remove disk.evidence key;
        manifests = Dict.remove disk.manifests key;
      }
        ≡ disk'
  unfolding delete_evidence
  delete_at force now disk disk' m key at at_key h =
      let done = rw (at, at_key) at h in ground (arith, done)

  pub delete_evidence-Change :
      (may_delete : String → String → ℕ → Type 0) (force : Bool) (now : ℕ) (disk disk' : Disk)
      → may_delete case_id evidence_id now
      → delete_evidence sha256 store case_id evidence_id force now disk ≡ ok (tt, disk')
      → Change sha256 store may_delete disk disk'
  delete_evidence-Change may_delete force now disk disk' asked h =
      let (m, at, no_hold, elapsed, _, _, _) =
        delete_evidence-ok sha256 store case_id evidence_id force now disk disk' h in
      let (key, at_key, _, _, _, _) = read_manifest-ok sha256 store case_id evidence_id disk m at in
      subst (Change sha256 store may_delete disk) (delete_at force now disk disk' m key at at_key h)
        (deletes case_id evidence_id key m now (evidence_dir-tenant key at_key) at_key at no_hold
          elapsed asked)

module _ (sha256 : List ℕ → String) (store : Store) where
  ingest_at :
      (drawn : String) (now : ℕ) (src : Option Node) (disk disk' : Disk) (r : QuarantineRecord)
      (qkey : SlotKey)
      → quarantine_dir sha256 store drawn ≡ ok qkey
      → ingest_to_quarantine sha256 store drawn now src disk ≡ ok (r, disk')
      → record disk {
        quarantine =
            Dict.put disk.quarantine qkey
              (record { blob = some (file (bytes_of src)); meta_file = meta r });
      }
        ≡ disk'
  unfolding ingest_to_quarantine
  ingest_at drawn now src disk disk' r qkey at h = let done = rw at at h in ground (arith, done)

  ingest_refused :
      (drawn : String) (now : ℕ) (src : Option Node) (disk disk' : Disk) (r : QuarantineRecord)
      (x : StoreError)
      → quarantine_dir sha256 store drawn ≡ err x
      → ingest_to_quarantine sha256 store drawn now src disk ≡ ok (r, disk')
      → ⊥
  unfolding ingest_to_quarantine
  ingest_refused drawn now src disk disk' r x e h = let done = rw e at h in ground (arith, done)

  pub ingest_to_quarantine-Change :
      (may_delete : String → String → ℕ → Type 0) (drawn : String) (now : ℕ) (src : Option Node)
      (disk disk' : Disk) (r : QuarantineRecord)
      → ingest_to_quarantine sha256 store drawn now src disk ≡ ok (r, disk')
      → Change sha256 store may_delete disk disk'
  ingest_to_quarantine-Change may_delete drawn now src disk disk' r h =
      go (quarantine_dir sha256 store drawn) refl
    where
      go :
          (q : Result StoreError SlotKey)
          → quarantine_dir sha256 store drawn ≡ q
          → Change sha256 store may_delete disk disk'
      go (ok qkey) e =
          subst (Change sha256 store may_delete disk)
            (ingest_at drawn now src disk disk' r qkey e h)
            (takes_in qkey _ (quarantine_dir-tenant sha256 store "" "" drawn qkey e))
      go (err x) e = absurd (ingest_refused drawn now src disk disk' r x e h)
