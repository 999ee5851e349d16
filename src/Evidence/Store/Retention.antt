-- ===== src/Evidence/Store/Retention.antt =====
-- Legal hold, retention and deletion in src/dfir_workbench/evidence_store.py.
use dfir_evidence_workbench.Base.{
  ℕ, ◌≤◌, String, ◌==◌, ◌≡◌, refl, ap, ◌∙◌, Bool, true, false, Option, none, some, List, arith,
}
use dfir_evidence_workbench.Base.Result.{ok, err, >>=-eq-ok}
use dfir_evidence_workbench.Base.Dict
use dfir_evidence_workbench.Base.Dict.{dict_laws, beq_refl}
use dfir_evidence_workbench.Evidence.Files.{
  EvidenceManifest, ManifestFile, EvidenceKey, evidence_key_eq, Disk, evidence_not_found,
  legal_hold_active,
}
use dfir_evidence_workbench.Evidence.Store.{
  Store, evidence_dir, own_manifest, manifest_at, read_manifest, write_hold, set_hold,
  set_legal_hold, delete_evidence,
}

module _ (sha256 : List ℕ → String) (store : Store) (case_id evidence_id : String) where
  pub own_manifest-ok :
      (o : Option ManifestFile) (m : EvidenceManifest)
      → own_manifest sha256 store o ≡ ok m
      → (f : ManifestFile) × (o ≡ some f)
        × (f.manifest ≡ m)
        × ((f.manifest.tenant_id == store.tenant_id) ≡ true)
  unfolding own_manifest
  own_manifest-ok none m h = cc
  own_manifest-ok (some f) m h = (f, refl, ground arith, ground arith)

  -- Where a manifest that is read stands.
  pub read_manifest-ok :
      (disk : Disk) (m : EvidenceManifest)
      → read_manifest sha256 store case_id evidence_id disk ≡ ok m
      → (key : EvidenceKey) × (evidence_dir sha256 store case_id evidence_id ≡ ok key)
        × (f : ManifestFile) × (Dict.get disk.manifests key ≡ some f)
        × (f.manifest ≡ m)
        × ((f.manifest.tenant_id == store.tenant_id) ≡ true)
  unfolding read_manifest manifest_at
  read_manifest-ok disk m h =
      let (key, at, own) = >>=-eq-ok (evidence_dir sha256 store case_id evidence_id) _ h in
      let (f, found, is_m, mine) = own_manifest-ok (Dict.get disk.manifests key) m own in
      (key, at, f, found, is_m, mine)

  pub read_manifest_of_get :
      (disk : Disk) (key : EvidenceKey)
      → evidence_dir sha256 store case_id evidence_id ≡ ok key
      → read_manifest sha256 store case_id evidence_id disk
        ≡ own_manifest sha256 store (Dict.get disk.manifests key)
  unfolding read_manifest manifest_at
  read_manifest_of_get disk key at = rw at refl

  -- Evidence is deleted only when its manifest is the tenant's, no hold is set, its retention has
  -- elapsed and the caller confirmed; after that it has no manifest and no directory any more.
  pub delete_evidence-ok :
      (force : Bool) (now : ℕ) (disk disk' : Disk)
      → delete_evidence sha256 store case_id evidence_id force now disk ≡ ok (tt, disk')
      → (m : EvidenceManifest) × (read_manifest sha256 store case_id evidence_id disk ≡ ok m)
        × (m.legal_hold ≡ false)
        × (m.retention_until ≤ now)
        × (force ≡ true)
        × (read_manifest sha256 store case_id evidence_id disk' ≡ err evidence_not_found)
        × ((key : EvidenceKey) × (evidence_dir sha256 store case_id evidence_id ≡ ok key)
            × (Dict.get disk'.evidence key ≡ none))
  unfolding delete_evidence
  delete_evidence-ok force now disk disk' h =
      let (m, at, rest) = >>=-eq-ok (read_manifest sha256 store case_id evidence_id disk) _ h in
      let (key, at_key, f, found, is_m, mine) = read_manifest-ok disk m at in
      let gone : Dict.get disk'.manifests key ≡ none =
        ground
          (arith, rw (at, at_key) at h, Dict.get-remove disk.manifests key key, beq_refl key) in
      let removed : Dict.get disk'.evidence key ≡ none =
        ground (arith, rw (at, at_key) at h, Dict.get-remove disk.evidence key key, beq_refl key) in
      (
        m,
        at,
        ground arith,
        ground arith,
        ground arith,
        rw (read_manifest_of_get disk' key at_key, gone) (unfold own_manifest in refl),
        (key, at_key, removed),
      )

  pub set_legal_hold_at :
      (hold : Bool) (disk disk' : Disk) (m before : EvidenceManifest) (key : EvidenceKey)
      (f : ManifestFile)
      → read_manifest sha256 store case_id evidence_id disk ≡ ok before
      → evidence_dir sha256 store case_id evidence_id ≡ ok key
      → Dict.get disk.manifests key ≡ some f
      → set_legal_hold sha256 store case_id evidence_id hold disk ≡ ok (m, disk')
      → (m ≡ (set_hold hold f).manifest)
        × (Dict.get disk'.manifests key ≡ some (set_hold hold f))
        × (disk'.evidence ≡ disk.evidence)
  unfolding set_legal_hold write_hold
  set_legal_hold_at hold disk disk' m before key f at at_key found h =
      let done = rw (at, at_key, found) at h in
      (
        ground (arith, done),
        ground (arith, done, Dict.get-put disk.manifests key key (set_hold hold f), beq_refl key),
        ground (arith, done),
      )

  -- A hold set or released is what the manifest then says, and nothing else of it changes, nor
  -- does the evidence itself.
  pub set_legal_hold-ok :
      (hold : Bool) (disk disk' : Disk) (m : EvidenceManifest)
      → set_legal_hold sha256 store case_id evidence_id hold disk ≡ ok (m, disk')
      → (before : EvidenceManifest) × (read_manifest sha256 store case_id evidence_id disk
          ≡ ok before)
        × (m ≡ record before { legal_hold = hold })
        × (read_manifest sha256 store case_id evidence_id disk' ≡ ok m)
        × (disk'.evidence ≡ disk.evidence)
  unfolding set_legal_hold
  set_legal_hold-ok hold disk disk' m h =
      let (before, at, _) = >>=-eq-ok (read_manifest sha256 store case_id evidence_id disk) _ h in
      let (key, at_key, f, found, is_m, mine) = read_manifest-ok disk before at in
      let (changed, stored, same) =
        set_legal_hold_at hold disk disk' m before key f at at_key found h in
      (
        before,
        at,
        changed ∙ ap (λ (x : EvidenceManifest). record x { legal_hold = hold }) is_m,
        rw (read_manifest_of_get disk' key at_key, stored)
            (unfold own_manifest in rw (mine, changed) refl),
        same,
      )

  -- While a hold is set, deletion fails, whatever the time and the caller's confirmation.
  delete_evidence_held :
      (force : Bool) (now : ℕ) (disk disk' : Disk) (m : EvidenceManifest)
      → set_legal_hold sha256 store case_id evidence_id true disk ≡ ok (m, disk')
      → delete_evidence sha256 store case_id evidence_id force now disk' ≡ err legal_hold_active
  unfolding delete_evidence
  delete_evidence_held force now disk disk' m h =
      let (before, _, changed, read, _) = set_legal_hold-ok true disk disk' m h in
      rw (read, changed) refl
