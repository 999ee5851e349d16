-- ===== src/Evidence/Store/Isolation.antt =====
-- Sequences of calls of src/dfir_workbench/evidence_store.py: originals are written once, and a
-- store touches its own tenant only.
use dfir_evidence_workbench.Base.{
  ℕ, ◌≤◌, String, ◌≡◌, ◌≢◌, refl, sym, ◌∙◌, ap, ◌⊎◌, inl, inr, Bool, false, Option, some, List,
  arith, Bool-cases,
}
use dfir_evidence_workbench.Base.Result.{Result, ok, err}
use dfir_evidence_workbench.Base.Dict
use dfir_evidence_workbench.Base.Dict.{Eq}
use dfir_evidence_workbench.Evidence.Files.{
  Node, EvidenceManifest, EvidenceDir, EvidenceKey, evidence_key_eq, SlotKey, slot_key_eq, Disk,
  StoreError,
}
use dfir_evidence_workbench.Evidence.Store.{
  Store, evidence_dir, read_manifest, ingest_to_quarantine, promote_to_evidence, set_legal_hold,
  delete_evidence,
}
use dfir_evidence_workbench.Evidence.Store.Effects.{
  Change, nothing, takes_in, publishes, holds, deletes, promote_to_evidence-Change,
  set_legal_hold-Change, delete_evidence-Change, ingest_to_quarantine-Change,
}

-- The calls that may write.
pub data Call : Type 0 where
  ingest : (drawn : String) (now : ℕ) → Option Node → Call
  promote : (case_id evidence_id quarantine_id expected : String) → Option ℕ → (now : ℕ) → Call
  hold : (case_id evidence_id : String) → Bool → Call
  delete : (case_id evidence_id : String) (force : Bool) (now : ℕ) → Call

abbrev pub left_by : {A : Type 0} → Disk → Result StoreError (A × Disk) → Disk
left_by disk (ok (a, disk')) = disk'
left_by disk (err e) = disk

unfoldable pub effect : (List ℕ → String) → Store → Call → Disk → Disk
effect sha256 store (ingest drawn now src) disk =
    left_by disk (ingest_to_quarantine sha256 store drawn now src disk)
effect sha256 store (promote c e q expected days now) disk =
    left_by disk (promote_to_evidence sha256 store c e q expected days now disk)
effect sha256 store (hold c e b) disk = left_by disk (set_legal_hold sha256 store c e b disk)
effect sha256 store (delete c e force now) disk =
    left_by disk (delete_evidence sha256 store c e force now disk)

-- Induction on what a call left: nothing, or the disk that it returned.
left_by_induction :
    {A : Type 0} (P : Disk → Type 0) (disk : Disk) (m : Result StoreError (A × Disk))
    → P disk
    → ((a : A) (disk' : Disk) → m ≡ ok (a, disk') → P disk')
    → P (left_by disk m)
left_by_induction P disk (ok (a, disk')) none_ some_ = some_ a disk' refl
left_by_induction P disk (err e) none_ some_ = none_

-- A key that is looked up where another one was written.
get-put_ne :
    {K V : Type 0} ⦃e : Eq K⦄ (d : Dict.Dict K V) (k j : K) (v : V)
    → k ≢ j
    → Dict.get (Dict.put d k v) j ≡ Dict.get d j
get-put_ne ⦃e⦄ d k j v ne = rw Dict.get-put (ground (arith, e.beq_iff k j))

get-remove_ne :
    {K V : Type 0} ⦃e : Eq K⦄ (d : Dict.Dict K V) (k j : K)
    → k ≢ j
    → Dict.get (Dict.remove d k) j ≡ Dict.get d j
get-remove_ne ⦃e⦄ d k j ne = rw Dict.get-remove (ground (arith, e.beq_iff k j))

-- The deletions that a call asks for.
abbrev pub AsksFor : Call → String → String → ℕ → Type 0
AsksFor (delete c e force now) c' e' now' = (c ≡ c') × (e ≡ e') × (now ≡ now')
AsksFor _ c e now = ⊥

module _ (sha256 : List ℕ → String) (store : Store) where
  -- Every call is one of the changes.
  effect-Change :
      (call : Call) (disk : Disk)
      → Change sha256 store (AsksFor call) disk (effect sha256 store call disk)
  unfolding effect
  effect-Change (ingest drawn now src) disk =
      left_by_induction (Change sha256 store (λ c e n. ⊥) disk) disk
        (ingest_to_quarantine sha256 store drawn now src disk) nothing
        (λ r disk' h.
          ingest_to_quarantine-Change sha256 store (λ c e n. ⊥) drawn now src disk disk' r h)
  effect-Change (promote c e q expected days now) disk =
      left_by_induction (Change sha256 store (λ c e n. ⊥) disk) disk
        (promote_to_evidence sha256 store c e q expected days now disk) nothing
        (λ m disk' h.
          promote_to_evidence-Change sha256 store c e (λ c e n. ⊥) q expected days now disk disk' m
            h)
  effect-Change (hold c e b) disk =
      left_by_induction (Change sha256 store (λ c e n. ⊥) disk) disk
        (set_legal_hold sha256 store c e b disk) nothing
        (λ m disk' h. set_legal_hold-Change sha256 store c e (λ c e n. ⊥) b disk disk' m h)
  effect-Change (delete c e force now) disk =
      left_by_induction (Change sha256 store (AsksFor (delete c e force now)) disk) disk
        (delete_evidence sha256 store c e force now disk) nothing
        (λ u disk' h.
          delete_evidence-Change sha256 store c e (AsksFor (delete c e force now)) force now disk
            disk' (refl, refl, refl) h)

  -- The way in which an original may go: a delete call for its ids, made when its manifest is
  -- under no hold and at a time when its retention has elapsed.
  pub record MayGo (call : Call) (disk : Disk) (key : EvidenceKey) : Type 0 where
    pub case_id : String
    pub evidence_id : String
    pub manifest : EvidenceManifest
    pub now : ℕ
    pub asked : AsksFor call case_id evidence_id now
    pub at : evidence_dir sha256 store case_id evidence_id ≡ ok key
    pub read : read_manifest sha256 store case_id evidence_id disk ≡ ok manifest
    pub free : manifest.legal_hold ≡ false
    pub elapsed : manifest.retention_until ≤ now

  Change-original :
      {call : Call} {disk disk' : Disk} (k : EvidenceKey) (d : EvidenceDir)
      → Change sha256 store (AsksFor call) disk disk'
      → Dict.get disk.evidence k ≡ some d
      → (Dict.get disk'.evidence k ≡ some d) ⊎ MayGo call disk k
  Change-original k d nothing e = inl e
  Change-original k d (takes_in _ _ _) e = inl e
  Change-original k d (holds _ _ _) e = inl e
  Change-original {call} {disk} k d (publishes key qkey m bytes _ _ free) e = inl (
      get-put_ne disk.evidence key k _ (λ same. cc (ap (Dict.get disk.evidence) same, free, e)) ∙ e)
  Change-original {call} {disk} k d (deletes c i key m now _ at read no_hold elapsed asked) e =
      elim (Bool-cases (evidence_key_eq.beq key k)) [
        | inl hit ↦
            let same : key ≡ k = (evidence_key_eq.beq_iff key k).0 hit in
            inr (record {
              case_id = c;
              evidence_id = i;
              manifest = m;
              now = now;
              asked = asked;
              at = at ∙ ap ok same;
              read = read;
              free = no_hold;
              elapsed = elapsed;
            })
        | inr miss ↦ inl (
            get-remove_ne disk.evidence key k
              (λ same. cc (miss, (evidence_key_eq.beq_iff key k).1 same))
            ∙ e)
      ]

  -- Originals are written once: whatever a store is called for, the directory of an evidence
  -- object is unchanged after the call, unless the call is a deletion of it that finds its manifest
  -- under no hold and its retention elapsed.
  pub original_is_immutable :
      (call : Call) (disk : Disk) (k : EvidenceKey) (d : EvidenceDir)
      → Dict.get disk.evidence k ≡ some d
      → (Dict.get (effect sha256 store call disk).evidence k ≡ some d) ⊎ MayGo call disk k
  original_is_immutable call disk k d e =
      Change-original {call = call} k d (effect-Change call disk) e

  foreign :
      (k : EvidenceKey) (key : EvidenceKey)
      → key.0 ≡ store.tenant_id
      → k.0 ≢ store.tenant_id
      → key ≢ k
  foreign k key mine other same = other (sym (ap (λ (x : EvidenceKey). x.0) same) ∙ mine)

  foreign_slot :
      (k : SlotKey) (key : SlotKey) → key.0 ≡ store.tenant_id → k.0 ≢ store.tenant_id → key ≢ k
  foreign_slot k key mine other same = other (sym (ap (λ (x : SlotKey). x.0) same) ∙ mine)

  module _ (k : EvidenceKey) (q : SlotKey) (other : k.0 ≢ store.tenant_id)
      (other_q : q.0 ≢ store.tenant_id) where
    Change-foreign :
        {may : String → String → ℕ → Type 0} {disk disk' : Disk}
        → Change sha256 store may disk disk'
        → (Dict.get disk'.evidence k ≡ Dict.get disk.evidence k)
          × (Dict.get disk'.manifests k ≡ Dict.get disk.manifests k)
          × (Dict.get disk'.quarantine q ≡ Dict.get disk.quarantine q)
    Change-foreign nothing = (refl, refl, refl)
    Change-foreign {may} {disk} (takes_in qkey slot mine) =
        (refl, refl, get-put_ne disk.quarantine qkey q slot (foreign_slot q qkey mine other_q))
    Change-foreign {may} {disk} (holds key f mine) =
        (refl, get-put_ne disk.manifests key k f (foreign k key mine other), refl)
    Change-foreign {may} {disk} (publishes key qkey m bytes mine mine_q _) = (
      get-put_ne disk.evidence key k _ (foreign k key mine other),
      get-put_ne disk.manifests key k _ (foreign k key mine other),
      get-remove_ne disk.quarantine qkey q (foreign_slot q qkey mine_q other_q),
    )
    Change-foreign {may} {disk} (deletes c i key m now mine _ _ _ _ _) = (
      get-remove_ne disk.evidence key k (foreign k key mine other),
      get-remove_ne disk.manifests key k (foreign k key mine other),
      refl,
    )

  -- A store leaves the evidence, the manifests and the quarantine of every other tenant as they
  -- are, whatever ids it is called with.
  effect_foreign :
      (call : Call) (disk : Disk) (k : EvidenceKey) (q : SlotKey)
      → k.0 ≢ store.tenant_id
      → q.0 ≢ store.tenant_id
      → (Dict.get (effect sha256 store call disk).evidence k ≡ Dict.get disk.evidence k)
        × (Dict.get (effect sha256 store call disk).manifests k ≡ Dict.get disk.manifests k)
        × (Dict.get (effect sha256 store call disk).quarantine q ≡ Dict.get disk.quarantine q)
  effect_foreign call disk k q other other_q =
      Change-foreign k q other other_q (effect-Change call disk)
