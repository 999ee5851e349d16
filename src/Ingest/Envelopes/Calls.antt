-- ===== src/Ingest/Envelopes/Calls.antt =====
-- Sequences of calls of `IngestRepository` (db.py) by any principals. A call that raises leaves
-- the database as it was, and the service goes on with the next.
use mathlib.Core.Path.{subst}
use dfir_evidence_workbench.Base.{String, ◌≡◌, refl, sym, Option, none, some, List, [], ◌∷◌}
use dfir_evidence_workbench.Base.Result.{Result, ok, err}
use dfir_evidence_workbench.Ingest.Database.{Envelope, Db, DbError, Casts}
use dfir_evidence_workbench.Ingest.Envelopes.{
  Principal, Drawn, Submission, Digests, envelope_row, store_preview, approve, apply_commit,
  mark_quarantined,
}
use dfir_evidence_workbench.Ingest.Envelopes.Steps.{
  Step, same, Steps, store_preview-Steps, approve-Steps, apply_commit-Steps, mark_quarantined-Steps,
}
use dfir_evidence_workbench.Ingest.Envelopes.Keys.{
  IsConsistent, HasUniqueKeys-HasOnly, Step-IsConsistent,
}

pub data Call : Type 0 where
  store : Drawn → Submission → Call
  approval : String → Call
  commit : String → Option String → Call
  quarantine : (envelope_id reference : String) → Option String → Call

module _ (casts : Casts) (digests : Digests) where
  unfoldable pub perform : Principal → Call → Db → Result DbError (Envelope × Db)
  perform p (store drawn s) = store_preview casts digests p drawn s
  perform p (approval id) = approve casts p id
  perform p (commit id target) = apply_commit casts p id target
  perform p (quarantine id reference reason) = mark_quarantined casts p id reference reason

  abbrev pub state_after : Db → Result DbError (Envelope × Db) → Db
  state_after db (ok (row, db')) = db'
  state_after db (err e) = db

  unfoldable pub serve : Db → List (Principal × Call) → Db
  unfolding perform
  serve db [] = db
  serve db ((p, call) ∷ calls) = serve (state_after db (perform p call db)) calls

  perform-Steps :
      (t : String) (p : Principal) (call : Call) (db : Db)
      → casts.uuid p.tenant_id ≡ some t
      → IsConsistent db
      → Steps t db (perform p call db)
  unfolding perform
  perform-Steps t p (store drawn s) db e c =
      store_preview-Steps casts p t e digests drawn s db
        (HasUniqueKeys-HasOnly db.envelopes c.unique)
  perform-Steps t p (approval id) db e c = approve-Steps casts p t e id db
  perform-Steps t p (commit id target) db e c = apply_commit-Steps casts p t e id target db
  perform-Steps t p (quarantine id reference reason) db e c =
      mark_quarantined-Steps casts p t e id reference reason db

  Steps-state_after :
      (t : String) (db : Db) (m : Result DbError (Envelope × Db))
      → Steps t db m
      → Step t db (state_after db m)
  Steps-state_after t db (ok (row, db')) s = s
  Steps-state_after t db (err e) s = same

  -- a principal whose tenant is no uuid can do nothing
  perform_unscoped :
      (p : Principal) (call : Call) (db : Db)
      → casts.uuid p.tenant_id ≡ none
      → state_after db (perform p call db) ≡ db
  unfolding perform store_preview approve apply_commit mark_quarantined envelope_row
  perform_unscoped p (store drawn s) db e = rw e refl
  perform_unscoped p (approval id) db e = rw e refl
  perform_unscoped p (commit id target) db e = rw e refl
  perform_unscoped p (quarantine id reference reason) db e = rw e refl

  module _ (p : Principal) (call : Call) (db : Db) (c : IsConsistent db) where
    -- What a call does is one step for the tenant of its principal.
    pub perform-Step :
        (t : String)
        → casts.uuid p.tenant_id ≡ some t
        → Step t db (state_after db (perform p call db))
    perform-Step t e = Steps-state_after t db (perform p call db) (perform-Steps t p call db e c)

    pub perform-IsConsistent : IsConsistent (state_after db (perform p call db))
    perform-IsConsistent = go (casts.uuid p.tenant_id) refl
      where
        go :
            (o : Option String)
            → casts.uuid p.tenant_id ≡ o
            → IsConsistent (state_after db (perform p call db))
        go none e = subst IsConsistent (sym (perform_unscoped p call db e)) c
        go (some t) e = Step-IsConsistent (perform-Step t e) c

  -- Whatever the calls, by whichever principals, the keys of the table stay unique and every
  -- row's analyst stays known: if this holds of the database before, it holds after.
  pub serve-IsConsistent :
      (db : Db) (calls : List (Principal × Call)) → IsConsistent db → IsConsistent (serve db calls)
  unfolding serve
  serve-IsConsistent db [] c = c
  serve-IsConsistent db ((p, call) ∷ calls) c =
      serve-IsConsistent (state_after db (perform p call db)) calls
        (perform-IsConsistent p call db c)

  -- Induction over the calls for what every step keeps.
  pub serve_induction :
      (P : Db → Type 0)
      → ((t : String) (db db' : Db) → Step t db db' → P db → P db')
      → (db : Db) (calls : List (Principal × Call)) → IsConsistent db
      → P db
      → P (serve db calls)
  unfolding serve
  serve_induction P keep db [] c h = h
  serve_induction P keep db ((p, call) ∷ calls) c h =
      serve_induction P keep (state_after db (perform p call db)) calls
        (perform-IsConsistent p call db c) (go (casts.uuid p.tenant_id) refl)
    where
      go : (o : Option String) → casts.uuid p.tenant_id ≡ o → P (state_after db (perform p call db))
      go none e = subst P (sym (perform_unscoped p call db e)) h
      go (some t) e = keep t db _ (perform-Step p call db c t e) h
