-- ===== src/Ingest/Envelopes/Steps.antt =====
-- The methods of `IngestRepository` (db.py) as steps of the table, each made for one tenant.
use dfir_evidence_workbench.Base.{
  String, ◌==◌, eq_iff, ◌≡◌, ◌∙◌, refl, Bool, true, false, Option, none, some, List, [], ◌∷◌, All,
  find, arith, Option-cases, Bool-cases, inl, inr, ap,
}
use mathlib.Core.Path.{subst}
use dfir_evidence_workbench.Base.Result.{Result, ok, err, ◌>>=◌}
use dfir_evidence_workbench.Ingest.Database.{
  Status, received, validated, preview, approved, applied, duplicate, rejected, quarantined,
  conflict, Envelope, Db, DbError, Casts, has_id, has_key, is_analyst, update,
}
use dfir_evidence_workbench.Ingest.Envelopes.{
  Principal, Drawn, Submission, Digests, as_conflict, as_duplicate, set_applied, set_quarantined,
  on_conflict, insert_row, envelope_row, store_preview, at_id, changed, returning, row_or,
  any_status, set_approved, approve, apply_commit, mark_quarantined, is_settled, is_preview,
  can_apply,
}

-- Where a status may go: any may be refused (conflict, quarantined), a settled one does nothing
-- else, and only a preview or an approved envelope is applied.
abbrev pub may_become : Status → Status → Bool
may_become s conflict = true
may_become s quarantined = true
may_become applied applied = true
may_become applied _ = false
may_become duplicate duplicate = true
may_become duplicate _ = false
may_become conflict _ = false
may_become s duplicate = true
may_become preview preview = true
may_become preview approved = true
may_become preview applied = true
may_become approved approved = true
may_become approved applied = true
may_become received received = true
may_become validated validated = true
may_become rejected rejected = true
may_become _ _ = false

-- What an intake record keeps for good, and how its status may change.
pub record Moves (r r' : Envelope) : Type 0 where
  pub tenant : r'.tenant_id ≡ r.tenant_id
  pub id : r'.envelope_id ≡ r.envelope_id
  pub key : r'.idempotency_key ≡ r.idempotency_key
  pub analyst : r'.analyst_id ≡ r.analyst_id
  pub payload : r'.payload ≡ r.payload
  pub sha : r'.payload_sha256 ≡ r.payload_sha256
  pub source : r'.source ≡ r.source
  pub received_at : r'.received_at_utc ≡ r.received_at_utc
  pub status : may_become r.processing_status r'.processing_status ≡ true

pub data Step (t : String) (db : Db) : Db → Type 0 where
  same : Step t db db
  insert :
      (row : Envelope)
      → row.tenant_id ≡ t
      → find (has_key row.tenant_id row.idempotency_key) db.envelopes ≡ none
      → find (has_id row.tenant_id row.envelope_id) db.envelopes ≡ none
      → is_analyst row.tenant_id row.analyst_id db.analysts ≡ true
      → Step t db (record db { envelopes = row ∷ db.envelopes })
  change :
      (where_ : Envelope → Bool) (set_ : Envelope → Envelope)
      → ((r : Envelope) → where_ r ≡ true → r.tenant_id ≡ t)
      → All (λ r. where_ r ≡ true → Moves r (set_ r)) db.envelopes
      → Step t db (record db { envelopes = update where_ set_ db.envelopes })

everywhere : (P : Envelope → Type 0) (rows : List Envelope) → ((r : Envelope) → P r) → All P rows
everywhere P [] h = tt
everywhere P (r ∷ rows) h = (h r, everywhere P rows h)

has_key-tenant : (t k : String) (r : Envelope) → has_key t k r ≡ true → r.tenant_id ≡ t
has_key-tenant t k r h = ground (arith, eq_iff r.tenant_id t)

conflict-Moves : (r : Envelope) → Moves r (as_conflict r)
conflict-Moves r = ground arith

duplicate-Moves : (r : Envelope) → is_settled r.processing_status ≡ false → Moves r (as_duplicate r)
duplicate-Moves r h = ground arith

-- The found row is the only one of its key.
abbrev pub IsOnly : String → String → Envelope → List Envelope → Type 0
IsOnly t k row rows = All (λ r. has_key t k r ≡ true → r ≡ row) rows

only-Moves :
    (t k : String) (row : Envelope) (rows : List Envelope)
    → is_settled row.processing_status ≡ false
    → IsOnly t k row rows
    → All (λ r. has_key t k r ≡ true → Moves r (as_duplicate r)) rows
only-Moves t k row [] u h = tt
only-Moves t k row (r ∷ rows) u (h, hs) = (
  (λ e. duplicate-Moves r (ap (λ (x : Envelope). is_settled x.processing_status) (h e) ∙ u)),
  only-Moves t k row rows u hs,
)

-- The state that a method leaves is one step away; an error leaves the state as it was.
abbrev pub Steps : String → Db → Result DbError (Envelope × Db) → Type 0
Steps t db (ok (row, db')) = Step t db db'
Steps t db (err e) = Unit {0}

on_conflict-Steps :
    (t k sha : String) (db : Db) (found : Option Envelope)
    → ((row : Envelope) → found ≡ some row → IsOnly t k row db.envelopes)
    → Steps t db (on_conflict t k sha db found)
unfolding on_conflict
on_conflict-Steps t k sha db none only = tt
on_conflict-Steps t k sha db (some row) only = elim (Bool-cases (row.payload_sha256 == sha)) [
  | inl same_sha ↦ rw same_sha (elim (Bool-cases (is_settled row.processing_status)) [
    | inl settled ↦ rw settled same
    | inr open_ ↦ rw open_ (
        change (has_key t k) as_duplicate (has_key-tenant t k)
          (only-Moves t k row db.envelopes open_ (only row refl)))
  ])
  | inr other_sha ↦ rw other_sha (
      change (has_key t k) as_conflict (has_key-tenant t k) (
        everywhere (λ r. has_key t k r ≡ true → Moves r (as_conflict r)) db.envelopes
          (λ r e. conflict-Moves r)))
]

-- The rows of one key, in every table.
abbrev pub HasOnly : List Envelope → Type 0
HasOnly rows =
    (t k : String) (row : Envelope) → find (has_key t k) rows ≡ some row → IsOnly t k row rows

pub insert_row-Steps :
    (db : Db) (row : Envelope) → HasOnly db.envelopes → Steps row.tenant_id db (insert_row db row)
unfolding insert_row
insert_row-Steps db row only =
    elim (Option-cases (find (has_key row.tenant_id row.idempotency_key) db.envelopes)) [
      | inr (r, e) ↦ rw e (
          on_conflict-Steps row.tenant_id row.idempotency_key row.payload_sha256 db (some r)
            (λ r' e'. only row.tenant_id row.idempotency_key r' (e ∙ e')))
      | inl new_key ↦
          rw new_key
            (elim (Option-cases (find (has_id row.tenant_id row.envelope_id) db.envelopes)) [
              | inr (r, e) ↦ rw e tt
              | inl new_id ↦
                  rw new_id
                    (elim (Bool-cases (is_analyst row.tenant_id row.analyst_id db.analysts)) [
                      | inl known ↦ rw known (insert row refl new_key new_id known)
                      | inr unknown ↦ rw unknown tt
                    ])
            ])
    ]

envelope_row-tenant :
    (casts : Casts) (digests : Digests) (p : Principal) (drawn : Drawn) (s : Submission)
    (t : String) (row : Envelope)
    → casts.uuid p.tenant_id ≡ some t
    → envelope_row casts digests p drawn s ≡ ok row
    → row.tenant_id ≡ t
unfolding envelope_row
envelope_row-tenant casts digests p drawn s t row e f = ground arith

module _ (casts : Casts) (p : Principal) (t : String) (is_t : casts.uuid p.tenant_id ≡ some t) where
  pub store_preview-Steps :
      (digests : Digests) (drawn : Drawn) (s : Submission) (db : Db)
      → HasOnly db.envelopes
      → Steps t db (store_preview casts digests p drawn s db)
  unfolding store_preview
  store_preview-Steps digests drawn s db only = go (envelope_row casts digests p drawn s) refl
    where
      go :
          (m : Result DbError Envelope)
          → envelope_row casts digests p drawn s ≡ m
          → Steps t db (m >>= insert_row db)
      go (err e) h = tt
      go (ok row) h =
          subst (λ u. Steps u db (insert_row db row))
            (envelope_row-tenant casts digests p drawn s t row is_t h)
            (insert_row-Steps db row only)

  returning-Steps :
      (id : String) (from : Status → Bool) (set_ : Envelope → Envelope) (e : DbError) (db : Db)
      → ((r : Envelope) → from r.processing_status ≡ true → Moves r (set_ r))
      → Steps t db (row_or e (returning (at_id t id from) set_ db))
  returning-Steps id from set_ e db moves = go (find (at_id t id from) db.envelopes)
    where
      go : (o : Option Envelope) → Steps t db (row_or e (changed (at_id t id from) set_ db o))
      go none = tt
      go (some row) =
          change (at_id t id from) set_ (λ r h. ground (arith, eq_iff r.tenant_id t))
            (everywhere (λ r. at_id t id from r ≡ true → Moves r (set_ r)) db.envelopes
              (λ r h. moves r (ground arith)))

  pub approve-Steps : (id : String) (db : Db) → Steps t db (approve casts p id db)
  unfolding approve
  approve-Steps id db =
      rw is_t (returning-Steps id is_preview set_approved _ db (λ r h. ground arith))

  pub apply_commit-Steps :
      (id : String) (target : Option String) (db : Db)
      → Steps t db (apply_commit casts p id target db)
  unfolding apply_commit
  apply_commit-Steps id target db =
      rw is_t (returning-Steps id can_apply (set_applied target) _ db (λ r h. ground arith))

  pub mark_quarantined-Steps :
      (id reference : String) (reason : Option String) (db : Db)
      → Steps t db (mark_quarantined casts p id reference reason db)
  unfolding mark_quarantined
  mark_quarantined-Steps id reference reason db =
      rw is_t (
        returning-Steps id any_status (set_quarantined reference reason) _ db (λ r h. ground arith))
