-- ===== src/Evidence/Files.antt =====
-- What src/dfir_workbench/evidence_store.py keeps below its storage root. The directories of the
-- store are made by the store itself and are no symbolic links; files may have become links. Times
-- are seconds since the epoch, and JSON texts stand as the values that they hold.
use dfir_evidence_workbench.Base.{
  ℕ, String, ◌==◌, eq_iff, ◌≡◌, ◌↔◌, Bool, true, false, ◌&&◌, Option, none, some, List, [], arith,
}
use dfir_evidence_workbench.Base.Dict.{Dict, Eq}

-- A file with its bytes, or a symbolic link, with the bytes of the file that it leads to if any.
pub data Node : Type 0 where
  file : List ℕ → Node
  link : Option (List ℕ) → Node

-- `path.is_file()`, which follows links
abbrev pub is_file : Option Node → Bool
is_file none = false
is_file (some (file c)) = true
is_file (some (link none)) = false
is_file (some (link (some c))) = true

abbrev pub is_symlink : Option Node → Bool
is_symlink (some (link c)) = true
is_symlink _ = false

-- the bytes that a read of an existing file gives
abbrev pub bytes_of : Option Node → List ℕ
bytes_of none = []
bytes_of (some (file c)) = c
bytes_of (some (link none)) = []
bytes_of (some (link (some c))) = c

-- quarantine/<quarantine_id>/meta.json
pub record QuarantineRecord : Type 0 where
  pub quarantine_id : String
  pub tenant_id : String
  pub sha256 : String
  pub size : ℕ
  pub received_at : ℕ

pub data MetaFile : Type 0 where
  missing malformed : MetaFile
  meta : QuarantineRecord → MetaFile

pub record Slot : Type 0 where
  pub blob : Option Node
  pub meta_file : MetaFile

-- <evidence_id>.manifest.json
pub record EvidenceManifest : Type 0 where
  pub tenant_id : String
  pub case_id : String
  pub evidence_id : String
  pub sha256 : String
  pub size : ℕ
  pub promoted_at : ℕ
  pub retention_until : ℕ
  pub legal_hold : Bool
  pub source_quarantine_id : String

pub record ManifestFile : Type 0 where
  pub manifest : EvidenceManifest
  pub mode : ℕ

-- evidence/<evidence_id>/
pub record EvidenceDir : Type 0 where
  pub original : Option Node
  pub original_mode : ℕ
  pub mode : ℕ

-- tenants/<tenant_id>/quarantine/<id> and tenants/<tenant_id>/cases/<case_id>/evidence/<id>
abbrev pub SlotKey : Type 0
SlotKey = String × String

abbrev pub EvidenceKey : Type 0
EvidenceKey = String × String × String

abbrev pub slot_key_beq : SlotKey → SlotKey → Bool
slot_key_beq (a, b) (c, d) = a == c && b == d

pub slot_key_beq_iff : (j k : SlotKey) → (slot_key_beq j k ≡ true) ↔ (j ≡ k)
slot_key_beq_iff (a, b) (c, d) = ground (arith, eq_iff a c, eq_iff b d)

abbrev pub evidence_key_beq : EvidenceKey → EvidenceKey → Bool
evidence_key_beq (a, b, c) (d, e, f) = a == d && b == e && c == f

pub evidence_key_beq_iff : (j k : EvidenceKey) → (evidence_key_beq j k ≡ true) ↔ (j ≡ k)
evidence_key_beq_iff (a, b, c) (d, e, f) = ground (arith, eq_iff a d, eq_iff b e, eq_iff c f)

instance abbrev pub slot_key_eq : Eq SlotKey
slot_key_eq = record { beq = slot_key_beq; beq_iff = slot_key_beq_iff }

instance abbrev pub evidence_key_eq : Eq EvidenceKey
evidence_key_eq = record { beq = evidence_key_beq; beq_iff = evidence_key_beq_iff }

pub record Disk : Type 0 where
  pub quarantine : Dict SlotKey Slot
  pub evidence : Dict EvidenceKey EvidenceDir
  pub manifests : Dict EvidenceKey ManifestFile

-- The codes of `EvidenceStoreError`, and the exceptions of Python that a call may let through.
pub data StoreError : Type 0 where
  invalid_id source_invalid quarantine_limit_exceeded quarantine_not_found : StoreError
  symlink_rejected checksum_mismatch evidence_conflict evidence_exists : StoreError
  evidence_not_found legal_hold_active retention_active delete_not_confirmed : StoreError
  value_error file_exists file_not_found : StoreError
