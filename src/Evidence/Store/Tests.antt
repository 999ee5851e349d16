-- ===== src/Evidence/Store/Tests.antt =====
-- evidence_store.py at concrete files, and the theorems at these.
use dfir_evidence_workbench.Base.{
  ℕ, ◌≤◌, String, eq_iff, ◌≡◌, ◌≢◌, refl, ◌⊎◌, true, false, none, some, List, [], ◌∷◌, arith,
}
use dfir_evidence_workbench.Base.Text.{codes}
use dfir_evidence_workbench.Base.Result.{ok, err}
use dfir_evidence_workbench.Base.Dict
use dfir_evidence_workbench.Evidence.Ids.{matches_id, is_slug, matches_id-newline}
use dfir_evidence_workbench.Evidence.Files.{
  file, meta, QuarantineRecord, EvidenceManifest, Disk, EvidenceKey, slot_key_eq, evidence_key_eq,
  evidence_not_found, retention_active, checksum_mismatch, invalid_id,
}
use dfir_evidence_workbench.Evidence.Store.{
  Store, validate_id, ingest_to_quarantine, find_quarantine_by_sha, promote_to_evidence, publish,
  republished, admitted, manifest_for, manifest_at, quarantine_dir, evidence_dir, own_manifest,
  read_manifest, read_original, verify_integrity, set_legal_hold, write_hold, delete_evidence,
  promoted, read_only,
}
use dfir_evidence_workbench.Evidence.Store.Retention.{delete_evidence-ok}
use dfir_evidence_workbench.Evidence.Store.Promotion.{
  Holds, promote_to_evidence-ok, promote_to_evidence_again,
}
use dfir_evidence_workbench.Evidence.Store.Isolation.{delete, effect, MayGo, original_is_immutable}

-- all that the runs below compute with
evidence_store : Unit {0}
unfolding matches_id validate_id ingest_to_quarantine promote_to_evidence publish admitted
    manifest_for manifest_at quarantine_dir evidence_dir own_manifest read_manifest read_original
    verify_integrity set_legal_hold write_hold delete_evidence find_quarantine_by_sha Dict.get
    Dict.put Dict.remove republished effect
evidence_store = tt

abbrev digest : List ℕ → String
digest [] = "empty"
digest (b ∷ bs) = "h"

abbrev store : Store
store = record { tenant_id = "t1"; max_quarantine_bytes = 100; default_retention_days = 1 }

abbrev bare : Disk
bare = record { quarantine = []; evidence = []; manifests = [] }

abbrev image : List ℕ
image = 1 ∷ 2 ∷ 3 ∷ []

abbrev staged : QuarantineRecord
staged = record { quarantine_id = "q1"; tenant_id = "t1"; sha256 = "h"; size = 3; received_at = 7 }

abbrev with_slot : Disk
with_slot = record bare {
  quarantine = (("t1", "q1"), record { blob = some (file image); meta_file = meta staged }) ∷ [];
}

abbrev manifest : EvidenceManifest
manifest = record {
  tenant_id = "t1";
  case_id = "c1";
  evidence_id = "e1";
  sha256 = "h";
  size = 3;
  promoted_at = 10;
  retention_until = 86410;
  legal_hold = false;
  source_quarantine_id = "q1";
}

abbrev key : EvidenceKey
key = ("t1", "c1", "e1")

abbrev with_evidence : Disk
with_evidence = record bare {
  evidence = (key, promoted image) ∷ [];
  manifests = (key, read_only manifest) ∷ [];
}

abbrev held : EvidenceManifest
held = record manifest { legal_hold = true }

abbrev with_hold : Disk
with_hold = record with_evidence { manifests = (key, read_only held) ∷ [] }

stages : ingest_to_quarantine digest store "q1" 7 (some (file image)) bare ≡ ok (staged, with_slot)
unfolding evidence_store
stages = refl

finds : find_quarantine_by_sha digest store "h" with_slot ≡ some staged
unfolding evidence_store
finds = refl

promotes :
    promote_to_evidence digest store "c1" "e1" "q1" "h" none 10 with_slot
    ≡ ok (manifest, with_evidence)
unfolding evidence_store
promotes = refl

refuses_other_digest :
    promote_to_evidence digest store "c1" "e1" "q1" "x" none 10 with_slot ≡ err checksum_mismatch
unfolding evidence_store
refuses_other_digest = refl

sets_hold : set_legal_hold digest store "c1" "e1" true with_evidence ≡ ok (held, with_hold)
unfolding evidence_store
sets_hold = refl

refuses_early_delete :
    delete_evidence digest store "c1" "e1" true 86409 with_evidence ≡ err retention_active
unfolding evidence_store
refuses_early_delete = refl

deletes_late : delete_evidence digest store "c1" "e1" true 86410 with_evidence ≡ ok (tt, bare)
unfolding evidence_store
deletes_late = refl

traversal_refused : validate_id "../t2" ≡ err invalid_id
unfolding evidence_store
traversal_refused = refl

c1_matches : matches_id "c1" ≡ true
unfolding evidence_store
c1_matches = refl

c1_is_slug : is_slug (codes "c1") ≡ true
unfolding is_slug
c1_is_slug = refl

-- "c1" and a newline
abbrev c1_newline : String
c1_newline = "c1\n"

newline_is_accepted : (matches_id c1_newline ≡ true) × (is_slug (codes c1_newline) ≡ false)
newline_is_accepted = matches_id-newline "c1" c1_newline c1_is_slug refl

promote_to_evidence-ok_example :
    (bytes : List ℕ) × Holds digest store "c1" "e1" with_evidence manifest bytes
    × (manifest.sha256 ≡ "h")
    × (verify_integrity digest store "c1" "e1" with_evidence ≡ ok true)
promote_to_evidence-ok_example =
    promote_to_evidence-ok digest store "c1" "e1" "q1" "h" none 10 with_slot with_evidence manifest
      promotes

promote_to_evidence_again_example :
    promote_to_evidence digest store "c1" "e1" "gone" "h" (some 5) 99 with_evidence
    ≡ ok (manifest, with_evidence)
promote_to_evidence_again_example =
    promote_to_evidence_again digest store "c1" "e1" "q1" "gone" "h" none (some 5) 10 99 with_slot
      with_evidence manifest promotes

delete_evidence-ok_example :
    (m : EvidenceManifest) × (read_manifest digest store "c1" "e1" with_evidence ≡ ok m)
    × (m.legal_hold ≡ false)
    × (m.retention_until ≤ 86410)
    × (true ≡ true)
    × (read_manifest digest store "c1" "e1" bare ≡ err evidence_not_found)
    × ((key : EvidenceKey) × (evidence_dir digest store "c1" "e1" ≡ ok key)
        × (Dict.get bare.evidence key ≡ none))
delete_evidence-ok_example =
    delete_evidence-ok digest store "c1" "e1" true 86410 with_evidence bare deletes_late

finds_original : Dict.get with_evidence.evidence key ≡ some (promoted image)
unfolding evidence_store
finds_original = refl

original_is_immutable_example :
    (Dict.get (effect digest store (delete "c1" "e1" true 5) with_evidence).evidence key
      ≡ some (promoted image))
    ⊎ MayGo digest store (delete "c1" "e1" true 5) with_evidence key
original_is_immutable_example =
    original_is_immutable digest store (delete "c1" "e1" true 5) with_evidence key (promoted image)
      finds_original

t2_ne_t1 : ◌≢◌ {A = String} "t2" "t1"
t2_ne_t1 = ground (arith, eq_iff "t2" "t1")
