-- ===== src/Evidence/Store/Promotion.antt =====
-- Promotion of quarantined bytes in src/dfir_workbench/evidence_store.py.
use mathlib.Core.Path.{subst, subst₂}
use dfir_evidence_workbench.Base.{
  ℕ, String, eq_iff, eq_refl, ◌≡◌, refl, sym, ◌∙◌, Bool, true, false, Option, none, some, List,
  arith, length, is_some, if◌then◌else◌,
}
use dfir_evidence_workbench.Base.Result.{ok, >>=-eq-ok}
use dfir_evidence_workbench.Base.Dict
use dfir_evidence_workbench.Base.Dict.{dict_laws, beq_refl}
use dfir_evidence_workbench.Evidence.Files.{
  Slot, bytes_of, EvidenceManifest, ManifestFile, EvidenceKey, evidence_key_eq, SlotKey,
  slot_key_eq, Disk,
}
use dfir_evidence_workbench.Evidence.Store.{
  Store, evidence_dir, quarantine_dir, own_manifest, read_manifest, read_original, verify_integrity,
  republished, publish, admitted, manifest_for, written, promoted, promote_to_evidence,
}
use dfir_evidence_workbench.Evidence.Store.Retention.{read_manifest_of_get, read_manifest-ok}

module _ (sha256 : List ℕ → String) (store : Store) (case_id evidence_id : String) where
  -- The object under the ids: its manifest, its bytes, and that they agree.
  pub record Holds (disk : Disk) (m : EvidenceManifest) (bytes : List ℕ) : Type 0 where
    pub manifest : read_manifest sha256 store case_id evidence_id disk ≡ ok m
    pub original : read_original sha256 store case_id evidence_id disk ≡ ok bytes
    pub sha : m.sha256 ≡ sha256 bytes
    pub size : m.size ≡ length bytes

  pub Holds-verify_integrity :
      (disk : Disk) (m : EvidenceManifest) (bytes : List ℕ)
      → Holds disk m bytes
      → verify_integrity sha256 store case_id evidence_id disk ≡ ok true
  unfolding verify_integrity
  Holds-verify_integrity disk m bytes h = rw (h.manifest, h.original, h.sha, eq_refl) refl

  republished_at :
      (expected : String) (disk disk' : Disk) (m existing : EvidenceManifest) (bytes : List ℕ)
      → read_manifest sha256 store case_id evidence_id disk ≡ ok existing
      → read_original sha256 store case_id evidence_id disk ≡ ok bytes
      → republished sha256 store case_id evidence_id expected disk ≡ ok (m, disk')
      → Holds disk m bytes × (disk' ≡ disk) × (m.sha256 ≡ expected)
  unfolding republished verify_integrity
  republished_at expected disk disk' m existing bytes at original h =
      let h' = rw (at, original) at h in
      let same : existing ≡ m = ground (arith, h') in
      (
        record {
          manifest = rw (← same) at;
          original = original;
          sha = ground (arith, h', eq_iff (sha256 bytes) existing.sha256);
          size = ground (arith, h');
        },
        ground (arith, h'),
        ground (arith, h', eq_iff existing.sha256 expected),
      )

  -- What is answered again is an intact object of the declared digest, and nothing is changed.
  pub republished-ok :
      (expected : String) (disk disk' : Disk) (m : EvidenceManifest)
      → republished sha256 store case_id evidence_id expected disk ≡ ok (m, disk')
      → (bytes : List ℕ) × Holds disk m bytes × (disk' ≡ disk) × (m.sha256 ≡ expected)
  unfolding republished
  republished-ok expected disk disk' m h =
      let (existing, at, h1) =
        >>=-eq-ok (read_manifest sha256 store case_id evidence_id disk) _ h in
      let (bytes, original, _) =
        >>=-eq-ok (read_original sha256 store case_id evidence_id disk) _ h1 in
      let (holds, same, declared) =
        republished_at expected disk disk' m existing bytes at original h in
      (bytes, holds, same, declared)

  admitted-sha :
      (slot : Option Slot) (expected : String) (bytes : List ℕ)
      → admitted sha256 store slot expected ≡ ok bytes
      → sha256 bytes ≡ expected
  unfolding admitted
  admitted-sha none expected bytes h = cc
  admitted-sha (some slot) expected bytes h =
      ground (arith, eq_iff (sha256 (bytes_of slot.blob)) expected)

  -- The files of a freshly published object.
  published-Holds :
      (key : EvidenceKey) (qkey : SlotKey) (id : String) (days : Option ℕ) (now : ℕ)
      (bytes : List ℕ) (disk : Disk)
      → evidence_dir sha256 store case_id evidence_id ≡ ok key
      → let m = manifest_for sha256 store key id days now bytes in
        Holds (written key qkey m bytes disk) m bytes
  unfolding manifest_for read_original
  published-Holds key qkey id days now bytes disk at =
      let m = manifest_for sha256 store key id days now bytes in
      let stored : Dict.get (written key qkey m bytes disk).evidence key ≡ some (promoted bytes) =
        Dict.get-put_self disk.evidence key (promoted bytes) in
      let read : read_manifest sha256 store case_id evidence_id (written key qkey m bytes disk)
          ≡ ok m =
        rw
          (read_manifest_of_get sha256 store case_id evidence_id (written key qkey m bytes disk) key
            at)
          (unfold own_manifest in rw (Dict.get-put_self, eq_refl) refl) in
      record { manifest = read; original = rw (read, at, stored) refl; sha = refl; size = refl }

  pub publish_at :
      (key : EvidenceKey) (qkey : SlotKey) (id expected : String) (days : Option ℕ) (now : ℕ)
      (bytes : List ℕ) (disk disk' : Disk) (m : EvidenceManifest)
      → quarantine_dir sha256 store id ≡ ok qkey
      → admitted sha256 store (Dict.get disk.quarantine qkey) expected ≡ ok bytes
      → publish sha256 store key id expected days now disk ≡ ok (m, disk')
      → (manifest_for sha256 store key id days now bytes ≡ m)
        × (written key qkey (manifest_for sha256 store key id days now bytes) bytes disk ≡ disk')
  unfolding publish
  publish_at key qkey id expected days now bytes disk disk' m at adm h =
      let h' = rw (at, adm) at h in (ground (arith, h'), ground (arith, h'))

  publish-ok :
      (key : EvidenceKey) (id expected : String) (days : Option ℕ) (now : ℕ) (disk disk' : Disk)
      (m : EvidenceManifest)
      → evidence_dir sha256 store case_id evidence_id ≡ ok key
      → publish sha256 store key id expected days now disk ≡ ok (m, disk')
      → (bytes : List ℕ) × Holds disk' m bytes × (m.sha256 ≡ expected)
  unfolding publish
  publish-ok key id expected days now disk disk' m at h =
      let (qkey, at_q, h1) = >>=-eq-ok (quarantine_dir sha256 store id) _ h in
      let (bytes, adm, _) =
        >>=-eq-ok (admitted sha256 store (Dict.get disk.quarantine qkey) expected) _ h1 in
      let (same_m, same_disk) =
        publish_at key qkey id expected days now bytes disk disk' m at_q adm h in
      let holds = published-Holds key qkey id days now bytes disk at in
      let holds' = subst₂ (λ d n. Holds d n bytes) same_disk same_m holds in
      (bytes, holds', holds'.sha ∙ admitted-sha (Dict.get disk.quarantine qkey) expected bytes adm)

  -- What promotion answers is what is then stored under the ids: a manifest of the declared digest
  -- whose original has that digest and the recorded size, so that the integrity check passes. If
  -- the ids had a manifest already, nothing is changed.
  pub promote_to_evidence-ok :
      (quarantine_id expected : String) (days : Option ℕ) (now : ℕ) (disk disk' : Disk)
      (m : EvidenceManifest)
      → promote_to_evidence sha256 store case_id evidence_id quarantine_id expected days now disk
        ≡ ok (m, disk')
      → (bytes : List ℕ) × Holds disk' m bytes
        × (m.sha256 ≡ expected)
        × (verify_integrity sha256 store case_id evidence_id disk' ≡ ok true)
  unfolding promote_to_evidence
  promote_to_evidence-ok quarantine_id expected days now disk disk' m h =
      let (key, at, h1) = >>=-eq-ok (evidence_dir sha256 store case_id evidence_id) _ h in
      go key at (is_some (Dict.get disk.manifests key)) h1
    where
      go :
          (key : EvidenceKey)
          → evidence_dir sha256 store case_id evidence_id ≡ ok key
          → (b : Bool)
          → (if b
              then republished sha256 store case_id evidence_id expected disk
              else publish sha256 store key quarantine_id expected days now disk)
            ≡ ok (m, disk')
          → (bytes : List ℕ) × Holds disk' m bytes
            × (m.sha256 ≡ expected)
            × (verify_integrity sha256 store case_id evidence_id disk' ≡ ok true)
      go key at true e =
          let (bytes, holds, same, declared) = republished-ok expected disk disk' m e in
          let holds' = subst (λ d. Holds d m bytes) (sym same) holds in
          (bytes, holds', declared, Holds-verify_integrity disk' m bytes holds')
      go key at false e =
          let (bytes, holds, declared) =
            publish-ok key quarantine_id expected days now disk disk' m at e in
          (bytes, holds, declared, Holds-verify_integrity disk' m bytes holds)

  promote_over :
      (key : EvidenceKey) (f : ManifestFile) (id expected : String) (days : Option ℕ) (now : ℕ)
      (disk : Disk) (m : EvidenceManifest) (bytes : List ℕ)
      → evidence_dir sha256 store case_id evidence_id ≡ ok key
      → Dict.get disk.manifests key ≡ some f
      → Holds disk m bytes
      → m.sha256 ≡ expected
      → promote_to_evidence sha256 store case_id evidence_id id expected days now disk
        ≡ ok (m, disk)
  unfolding promote_to_evidence republished
  promote_over key f id expected days now disk m bytes at found h declared =
      rw
        (at, found, h.manifest, h.original, Holds-verify_integrity disk m bytes h, declared, h.size)
        (ground (arith, eq_refl expected))

  -- Promotion can be retried: once it has succeeded, promoting the same ids with the same digest
  -- again, from any quarantine id and at any time, answers the same manifest and changes nothing.
  pub promote_to_evidence_again :
      (quarantine_id quarantine_id' expected : String) (days days' : Option ℕ) (now now' : ℕ)
      (disk disk' : Disk) (m : EvidenceManifest)
      → promote_to_evidence sha256 store case_id evidence_id quarantine_id expected days now disk
        ≡ ok (m, disk')
      → promote_to_evidence sha256 store case_id evidence_id quarantine_id' expected days' now'
          disk'
        ≡ ok (m, disk')
  promote_to_evidence_again id id' expected days days' now now' disk disk' m h =
      let (bytes, holds, declared, _) =
        promote_to_evidence-ok id expected days now disk disk' m h in
      let (key, at, f, found, _, _) =
        read_manifest-ok sha256 store case_id evidence_id disk' m holds.manifest in
      promote_over key f id' expected days' now' disk' m bytes at found holds declared
