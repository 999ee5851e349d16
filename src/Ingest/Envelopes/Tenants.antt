-- ===== src/Ingest/Envelopes/Tenants.antt =====
-- Tenant isolation of `IngestRepository` (db.py): the scope of every method is its principal's.
use dfir_evidence_workbench.Base.{
  String, ◌==◌, eq_iff, ◌≡◌, ◌≢◌, refl, ◌∙◌, sym, ap, Option, some, List, [], ◌∷◌, All, find, keep,
  Bool, true, false, arith, Bool-cases, inl, inr,
}
use dfir_evidence_workbench.Base.Result.{Result, ok}
use dfir_evidence_workbench.Ingest.Database.{Envelope, Db, DbError, Casts, has_id, update}
use dfir_evidence_workbench.Ingest.Envelopes.{Principal, Digests, get}
use dfir_evidence_workbench.Ingest.Envelopes.Steps.{Moves, Step, same, insert, change}
use dfir_evidence_workbench.Ingest.Envelopes.Keys.{IsConsistent}
use dfir_evidence_workbench.Ingest.Envelopes.Calls.{
  Call, state_after, perform, serve, perform-Step, perform-IsConsistent,
}

-- What a tenant has in the table.
abbrev pub rows_of : String → Db → List Envelope
rows_of u db = keep (λ r. r.tenant_id == u) db.envelopes

not_text : (a b : String) → a ≢ b → (a == b) ≡ false
not_text a b ne = ground (arith, eq_iff a b)

module _ (t u : String) (ne : t ≢ u) (where_ : Envelope → Bool) (set_ : Envelope → Envelope)
    (scope : (r : Envelope) → where_ r ≡ true → r.tenant_id ≡ t) where
  update-rows_of :
      (rows : List Envelope)
      → All (λ r. where_ r ≡ true → Moves r (set_ r)) rows
      → keep (λ r. r.tenant_id == u) (update where_ set_ rows) ≡ keep (λ r. r.tenant_id == u) rows
  update-rows_of [] ms = refl
  update-rows_of (r ∷ rows) (m, ms) = elim (Bool-cases (where_ r)) [
    | inl hit ↦
        let foreign = not_text t u ne in
        rw (hit, (m hit).tenant, scope r hit, foreign) (update-rows_of rows ms)
    | inr miss ↦ rw (miss, update-rows_of rows ms) refl
  ]

Step-rows_of :
    {t : String} {db db' : Db} (u : String) → t ≢ u → Step t db db' → rows_of u db' ≡ rows_of u db
Step-rows_of u ne same = refl
Step-rows_of {t} u ne (insert row e _ _ _) = rw (e, not_text t u ne) refl
Step-rows_of {t} {db} u ne (change where_ set_ scope moves) =
    update-rows_of t u ne where_ set_ scope db.envelopes moves

-- None of the principals is of the tenant.
abbrev pub Foreign : Casts → String → List (Principal × Call) → Type 0
Foreign casts u [] = Unit {0}
Foreign casts u ((p, call) ∷ calls) =
    ((t : String) × (casts.uuid p.tenant_id ≡ some t) × (t ≢ u)) × Foreign casts u calls

find-rows_of :
    (u id : String) (rows : List Envelope)
    → find (has_id u id) (keep (λ r. r.tenant_id == u) rows) ≡ find (has_id u id) rows
find-rows_of u id [] = refl
find-rows_of u id (r ∷ rows) = elim (Bool-cases (r.tenant_id == u)) [
  | inl mine ↦ rw mine (elim (Bool-cases (r.envelope_id == id)) [
    | inl hit ↦ rw (mine, hit) refl
    | inr miss ↦ rw (mine, miss) (find-rows_of u id rows)
  ])
  | inr foreign ↦ rw foreign (find-rows_of u id rows)
]

module _ (casts : Casts) (digests : Digests) where
  serve-rows_of :
      (u : String) (db : Db) (calls : List (Principal × Call))
      → IsConsistent db
      → Foreign casts u calls
      → rows_of u (serve casts digests db calls) ≡ rows_of u db
  unfolding serve
  serve-rows_of u db [] c f = refl
  serve-rows_of u db ((p, call) ∷ calls) c ((t, e, ne), f) =
      serve-rows_of u (state_after casts digests db (perform casts digests p call db)) calls
        (perform-IsConsistent casts digests p call db c) f
      ∙ Step-rows_of u ne (perform-Step casts digests p call db c t e)

  -- Tenants are isolated: calls made by principals of other tenants, whatever they ask for, leave
  -- the envelopes of a tenant as they were, and so every `get` of its principals answers as before.
  pub tenant_isolation :
      (u : String) (p : Principal) (db : Db) (calls : List (Principal × Call))
      → casts.uuid p.tenant_id ≡ some u
      → IsConsistent db
      → Foreign casts u calls
      → (rows_of u (serve casts digests db calls) ≡ rows_of u db)
        × ((id : String) → get casts p id (serve casts digests db calls) ≡ get casts p id db)
  unfolding get
  tenant_isolation u p db calls e c f =
      let kept = serve-rows_of u db calls c f in
      (
        kept,
        λ id. rw e (
            ap {B = Result DbError (Option Envelope)} ok (
              sym (find-rows_of u id (serve casts digests db calls).envelopes)
              ∙ ap (find (has_id u id)) kept
              ∙ find-rows_of u id db.envelopes)),
      )
