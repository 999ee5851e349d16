-- ===== src/Ingest/Envelopes/Lifecycle.antt =====
-- What becomes of one envelope of `dfir.ingest_envelope` (db.py) while the service runs.
use mathlib.Core.Path.{subst}
use dfir_evidence_workbench.Base.{
  String, eq_iff, ◌≡◌, refl, ◌∙◌, some, List, [], ◌∷◌, All, find, Bool, true, false, arith,
  Bool-cases, inl, inr,
}
use dfir_evidence_workbench.Ingest.Database.{
  Status, preview, approved, applied, Envelope, Db, Casts, has_id, update,
}
use dfir_evidence_workbench.Ingest.Envelopes.{Principal, Digests}
use dfir_evidence_workbench.Ingest.Envelopes.Steps.{Moves, Step, same, insert, change, may_become}
use dfir_evidence_workbench.Ingest.Envelopes.Keys.{IsConsistent, after, after-Moves, Moves-refl}
use dfir_evidence_workbench.Ingest.Envelopes.Calls.{Call, serve, serve_induction}

-- The statuses from which nothing is applied any more.
abbrev pub is_refused : Status → Bool
is_refused preview = false
is_refused approved = false
is_refused applied = false
is_refused _ = true

refused-Moves :
    (s s' : Status) → may_become s s' ≡ true → is_refused s ≡ true → is_refused s' ≡ true
refused-Moves s s' m h = ground arith

-- The later state of the record of one submission.
pub record IsLaterStateOf (r r' : Envelope) : Type 0 where
  pub key : r'.idempotency_key ≡ r.idempotency_key
  pub payload : r'.payload ≡ r.payload
  pub sha : r'.payload_sha256 ≡ r.payload_sha256
  pub source : r'.source ≡ r.source
  pub received_at : r'.received_at_utc ≡ r.received_at_utc
  pub analyst : r'.analyst_id ≡ r.analyst_id
  pub refused : is_refused r.processing_status ≡ true → is_refused r'.processing_status ≡ true

IsLaterStateOf-Moves : (r s s' : Envelope) → IsLaterStateOf r s → Moves s s' → IsLaterStateOf r s'
IsLaterStateOf-Moves r s s' h m = record {
  key = m.key ∙ h.key;
  payload = m.payload ∙ h.payload;
  sha = m.sha ∙ h.sha;
  source = m.source ∙ h.source;
  received_at = m.received_at ∙ h.received_at;
  analyst = m.analyst ∙ h.analyst;
  refused = λ e. refused-Moves s.processing_status s'.processing_status m.status (h.refused e);
}

module _ (where_ : Envelope → Bool) (set_ : Envelope → Envelope) (u id : String) where
  -- An UPDATE that keeps the keys keeps which row an id finds.
  find-update :
      (rows : List Envelope) (r : Envelope)
      → All (λ r. where_ r ≡ true → Moves r (set_ r)) rows
      → find (has_id u id) rows ≡ some r
      → (find (has_id u id) (update where_ set_ rows) ≡ some (after where_ set_ r))
        × Moves r (after where_ set_ r)
  find-update [] r ms e = cc
  find-update (s ∷ rows) r (m, ms) e = elim (Bool-cases (has_id u id s)) [
    | inl hit ↦
        let n = after-Moves where_ set_ s m in
        let is_s : s ≡ r = ground arith in
        subst
          (λ x.
            (find (has_id u id) (update where_ set_ (s ∷ rows)) ≡ some (after where_ set_ x))
            × Moves x (after where_ set_ x))
          is_s (rw (n.tenant, n.id, hit) refl, n)
    | inr miss ↦
        let n = after-Moves where_ set_ s m in
        rw (n.tenant, n.id, miss) (find-update rows r ms (ground arith))
  ]

-- A step keeps the record of an envelope findable, and moves it as far as `Moves` allows.
pub find-Step :
    {t : String} {db db' : Db} (u id : String) (r : Envelope)
    → Step t db db'
    → find (has_id u id) db.envelopes ≡ some r
    → (r' : Envelope) × (find (has_id u id) db'.envelopes ≡ some r') × Moves r r'
find-Step u id r same e = (r, e, Moves-refl r)
find-Step {db = db} u id r (insert row _ _ new_id _) e = elim (Bool-cases (has_id u id row)) [
  | inl hit ↦
      let same_tenant : row.tenant_id ≡ u = ground (arith, eq_iff row.tenant_id u) in
      let same_id : row.envelope_id ≡ id = ground (arith, eq_iff row.envelope_id id) in
      absurd (cc (rw (same_tenant, same_id) at new_id, e))
  | inr miss ↦ (r, rw miss e, Moves-refl r)
]
find-Step {db = db} u id r (change where_ set_ _ moves) e =
    let (found, m) = find-update where_ set_ u id db.envelopes r moves e in
    (after where_ set_ r, found, m)

module _ (casts : Casts) (digests : Digests) where
  -- Intake is append-only: whatever calls follow, the envelope that a tenant has under an id is
  -- still there, with its payload, digest, source, key, time and analyst, and if it was refused
  -- (neither a preview nor approved nor applied) it is still refused.
  pub envelope_is_kept :
      (db : Db) (calls : List (Principal × Call)) (u id : String) (r : Envelope)
      → IsConsistent db
      → find (has_id u id) db.envelopes ≡ some r
      → (r' : Envelope) × (find (has_id u id) (serve casts digests db calls).envelopes ≡ some r')
        × IsLaterStateOf r r'
  envelope_is_kept db calls u id r c e =
      serve_induction casts digests
        (λ d. (r' : Envelope) × (find (has_id u id) d.envelopes ≡ some r') × IsLaterStateOf r r')
        (λ t d d' step (s, found, h).
          let (s', found', m) = find-Step u id s step found in
          (s', found', IsLaterStateOf-Moves r s s' h m))
        db calls c (r, e, ground arith)
