-- ===== src/Evidence/Store.antt =====
-- `EvidenceStore` of src/dfir_workbench/evidence_store.py. A method reads or changes the disk, or
-- raises before it has changed anything. The digest of a file, a fresh id and the clock are
-- arguments. `retention_days` is a natural number of days.
pub mod Retention
pub mod Promotion
pub mod Effects
pub mod Isolation
mod Tests
use dfir_evidence_workbench.Base.{
  ℕ, ◌+◌, ◌*◌, String, ◌==◌, Bool, true, false, not, ◌&&◌, ◌||◌, Option, none, some, List, [], ◌∷◌,
  length, ltb, eqb, is_some, if◌then◌else◌,
}
use dfir_evidence_workbench.Base.Result.{Result, ok, err, ◌>>=◌, ◌>>◌, raise_if}
use dfir_evidence_workbench.Base.Dict
use dfir_evidence_workbench.Evidence.Ids.{matches_id}
use dfir_evidence_workbench.Evidence.Files.{
  Node, file, is_file, is_symlink, bytes_of, QuarantineRecord, MetaFile, missing, malformed, meta,
  Slot, EvidenceManifest, ManifestFile, EvidenceDir, SlotKey, EvidenceKey, slot_key_eq,
  evidence_key_eq, Disk, StoreError, invalid_id, source_invalid, quarantine_limit_exceeded,
  quarantine_not_found, symlink_rejected, checksum_mismatch, evidence_conflict, evidence_exists,
  evidence_not_found, legal_hold_active, retention_active, delete_not_confirmed, value_error,
  file_exists, file_not_found,
}

pub record Store : Type 0 where
  pub tenant_id : String
  pub max_quarantine_bytes : ℕ
  pub default_retention_days : ℕ

pub validate_id : String → Result StoreError String
validate_id value = if matches_id value then ok value else err invalid_id

-- `EvidenceStore(root, principal, …)`: the scope is the principal's tenant.
pub open_store : String → ℕ → ℕ → Result StoreError Store
unfolding validate_id
open_store tenant max_bytes days = do
  tenant_id ← validate_id tenant
  ok (record {
    tenant_id = tenant_id;
    max_quarantine_bytes = max_bytes;
    default_retention_days = days;
  })

abbrev days_in_seconds : ℕ → ℕ
days_in_seconds days = days * 86400

abbrev or_default : Option ℕ → ℕ → ℕ
or_default none d = d
or_default (some n) d = n

abbrev pub size_of : Option Node → ℕ
size_of n = length (bytes_of n)

abbrev first_some : Option QuarantineRecord → Option QuarantineRecord → Option QuarantineRecord
first_some none b = b
first_some (some a) b = some a

-- the file `original` of a directory, if the directory is there
abbrev pub original_of : Option EvidenceDir → Option Node
original_of none = none
original_of (some dir) = dir.original

abbrev pub slot_blob : Option Slot → Option Node
slot_blob none = none
slot_blob (some slot) = slot.blob

abbrev pub slot_meta : Option Slot → MetaFile
slot_meta none = missing
slot_meta (some slot) = slot.meta_file

abbrev is_present : MetaFile → Bool
is_present missing = false
is_present malformed = true
is_present (meta found) = true

-- json.loads of the meta file, which is known to be there
abbrev parsed : MetaFile → Result StoreError QuarantineRecord
parsed (meta found) = ok found
parsed _ = err value_error

abbrev pub set_hold : Bool → ManifestFile → ManifestFile
set_hold hold found = record found {
  manifest = record found.manifest { legal_hold = hold };
  mode = 0o400;
}

-- The files that a promotion leaves: read-only, and the slot is used up.
abbrev pub promoted : List ℕ → EvidenceDir
promoted blob = record { original = some (file blob); original_mode = 0o400; mode = 0o500 }

abbrev pub read_only : EvidenceManifest → ManifestFile
read_only m = record { manifest = m; mode = 0o400 }

abbrev pub written : EvidenceKey → SlotKey → EvidenceManifest → List ℕ → Disk → Disk
written key qkey manifest blob disk = record disk {
  quarantine = Dict.remove disk.quarantine qkey;
  evidence = Dict.put disk.evidence key (promoted blob);
  manifests = Dict.put disk.manifests key (read_only manifest);
}

module _ (sha256 : List ℕ → String) (store : Store) where
  pub quarantine_dir : String → Result StoreError SlotKey
  unfolding validate_id
  quarantine_dir quarantine_id = do qid ← validate_id quarantine_id; ok (store.tenant_id, qid)

  pub evidence_dir : String → String → Result StoreError EvidenceKey
  unfolding validate_id
  evidence_dir case_id evidence_id = do
    eid ← validate_id evidence_id
    cid ← validate_id case_id
    ok (store.tenant_id, cid, eid)

  -- `drawn` is the fresh id of the slot.
  pub ingest_to_quarantine :
      (drawn : String) (now : ℕ) → Option Node → Disk → Result StoreError (QuarantineRecord × Disk)
  ingest_to_quarantine drawn now src disk = do
    raise_if (not (is_file src) || is_symlink src) source_invalid
    raise_if (ltb store.max_quarantine_bytes (size_of src)) quarantine_limit_exceeded
    key ← quarantine_dir drawn
    raise_if (is_some (Dict.get disk.quarantine key)) file_exists
    let blob = bytes_of src
    let found : QuarantineRecord = record {
      quarantine_id = drawn;
      tenant_id = store.tenant_id;
      sha256 = sha256 blob;
      size = length blob;
      received_at = now;
    }
    ok (
      found,
      record disk {
        quarantine =
            Dict.put disk.quarantine key
              (record { blob = some (file blob); meta_file = meta found });
      },
    )

  -- the body of the loop over the tenant's slots
  pub record_in : String → MetaFile → Option QuarantineRecord
  record_in wanted missing = none
  record_in wanted malformed = none
  record_in wanted (meta found) =
      if found.tenant_id == store.tenant_id && found.sha256 == wanted then some found else none

  pub search_slots : String → Dict.Dict SlotKey Slot → Option QuarantineRecord
  unfolding record_in
  search_slots wanted [] = none
  search_slots wanted (((tenant, id), slot) ∷ slots) =
      let rest = search_slots wanted slots in
      if tenant == store.tenant_id then first_some (record_in wanted slot.meta_file) rest else rest

  pub find_quarantine_by_sha : String → Disk → Option QuarantineRecord
  unfolding search_slots
  find_quarantine_by_sha wanted disk = search_slots wanted disk.quarantine

  -- `read_manifest` on the file of a key
  pub own_manifest : Option ManifestFile → Result StoreError EvidenceManifest
  own_manifest none = err evidence_not_found
  own_manifest (some found) =
      if found.manifest.tenant_id == store.tenant_id
      then ok found.manifest
      else err evidence_not_found

  pub manifest_at : EvidenceKey → Disk → Result StoreError EvidenceManifest
  unfolding own_manifest
  manifest_at key disk = own_manifest (Dict.get disk.manifests key)

  pub read_manifest : String → String → Disk → Result StoreError EvidenceManifest
  read_manifest case_id evidence_id disk = do
    key ← evidence_dir case_id evidence_id
    manifest_at key disk

  -- the original's bytes, which the caller of `original_path` opens
  pub read_original : String → String → Disk → Result StoreError (List ℕ)
  read_original case_id evidence_id disk = do
    _ ← read_manifest case_id evidence_id disk
    key ← evidence_dir case_id evidence_id
    let original = original_of (Dict.get disk.evidence key)
    raise_if (is_file original && is_symlink original) symlink_rejected
    raise_if (not (is_file original)) evidence_not_found
    ok (bytes_of original)

  pub verify_integrity : String → String → Disk → Result StoreError Bool
  verify_integrity case_id evidence_id disk = do
    manifest ← read_manifest case_id evidence_id disk
    original ← read_original case_id evidence_id disk
    ok (sha256 original == manifest.sha256)

  -- An evidence object that is already published is answered again, if it is what is declared.
  pub republished : String → String → String → Disk → Result StoreError (EvidenceManifest × Disk)
  republished case_id evidence_id expected disk = do
    existing ← read_manifest case_id evidence_id disk
    original ← read_original case_id evidence_id disk
    intact ← verify_integrity case_id evidence_id disk
    raise_if
        (not (existing.sha256 == expected)
          || not (eqb existing.size (length original))
          || not intact)
        evidence_conflict
    ok (existing, disk)

  -- The quarantined bytes, once they are what is recorded and what is declared.
  pub admitted : (slot : Option Slot) (expected : String) → Result StoreError (List ℕ)
  admitted slot expected = do
    let blob = slot_blob slot
    raise_if (not (is_file blob) || not (is_present (slot_meta slot))) quarantine_not_found
    raise_if (is_symlink blob) symlink_rejected
    found ← parsed (slot_meta slot)
    raise_if (not (found.tenant_id == store.tenant_id)) quarantine_not_found
    let actual = sha256 (bytes_of blob)
    raise_if (not (actual == found.sha256) || not (actual == expected)) checksum_mismatch
    ok (bytes_of blob)

  pub manifest_for :
      EvidenceKey → (quarantine_id : String) → Option ℕ → (now : ℕ) → List ℕ → EvidenceManifest
  manifest_for (tenant, cid, eid) quarantine_id days now blob = record {
    tenant_id = store.tenant_id;
    case_id = cid;
    evidence_id = eid;
    sha256 = sha256 blob;
    size = length blob;
    promoted_at = now;
    retention_until = now + days_in_seconds (or_default days store.default_retention_days);
    legal_hold = false;
    source_quarantine_id = quarantine_id;
  }

  -- The first publication of a quarantined blob, from `qdir = …` on. (When the directory is
  -- there, the code looks for the manifest once more, which another process may have written.)
  pub publish :
      (key : EvidenceKey) (quarantine_id expected : String) (retention_days : Option ℕ) (now : ℕ)
      → Disk
      → Result StoreError (EvidenceManifest × Disk)
  publish key quarantine_id expected retention_days now disk = do
    qkey ← quarantine_dir quarantine_id
    blob ← admitted (Dict.get disk.quarantine qkey) expected
    raise_if (is_some (Dict.get disk.evidence key)) evidence_exists
    let manifest = manifest_for key quarantine_id retention_days now blob
    ok (manifest, written key qkey manifest blob disk)

  -- `register_to_evidence` is the same under another name.
  pub promote_to_evidence :
      (case_id evidence_id quarantine_id expected : String) (retention_days : Option ℕ) (now : ℕ)
      → Disk
      → Result StoreError (EvidenceManifest × Disk)
  promote_to_evidence case_id evidence_id quarantine_id expected retention_days now disk = do
    key ← evidence_dir case_id evidence_id
    if is_some (Dict.get disk.manifests key)
        then republished case_id evidence_id expected disk
        else publish key quarantine_id expected retention_days now disk

  -- the write of a changed manifest
  pub write_hold :
      Bool → EvidenceKey → Disk → Option ManifestFile → Result StoreError (EvidenceManifest × Disk)
  write_hold hold key disk none = err evidence_not_found
  write_hold hold key disk (some found) = ok (
    (set_hold hold found).manifest,
    record disk { manifests = Dict.put disk.manifests key (set_hold hold found) },
  )

  pub set_legal_hold :
      (case_id evidence_id : String) → Bool → Disk → Result StoreError (EvidenceManifest × Disk)
  set_legal_hold case_id evidence_id hold disk = do
    _ ← read_manifest case_id evidence_id disk
    key ← evidence_dir case_id evidence_id
    write_hold hold key disk (Dict.get disk.manifests key)

  pub delete_evidence :
      (case_id evidence_id : String) → Bool → (now : ℕ) → Disk → Result StoreError (Unit {0} × Disk)
  delete_evidence case_id evidence_id force now disk = do
    manifest ← read_manifest case_id evidence_id disk
    raise_if manifest.legal_hold legal_hold_active
    raise_if (ltb now manifest.retention_until) retention_active
    raise_if (not force) delete_not_confirmed
    key ← evidence_dir case_id evidence_id
    raise_if (not (is_some (Dict.get disk.evidence key))) file_not_found
    ok (
      tt,
      record disk {
        evidence = Dict.remove disk.evidence key;
        manifests = Dict.remove disk.manifests key;
      },
    )
