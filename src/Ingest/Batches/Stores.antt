-- ===== src/Ingest/Batches/Stores.antt =====
-- What `ingest_preview_batch` (ingest.py) does to the table of envelopes.
use dfir_evidence_workbench.Base.{
  ◌==◌, ◌≡◌, refl, ap, ◌∙◌, Bool, true, false, String, Option, List, [], ◌∷◌, ◌++◌, if◌then◌else◌,
}
use dfir_evidence_workbench.Base.Text.{or_text}
use dfir_evidence_workbench.Base.Result.{Result, ok, err}
use dfir_evidence_workbench.Ingest.Database.{Envelope, Db, DbError, Casts}
use dfir_evidence_workbench.Ingest.Envelopes.{Principal, Digests, store_preview}
use dfir_evidence_workbench.Ingest.Envelopes.Calls.{Call, store, perform, state_after, serve}
use dfir_evidence_workbench.Ingest.Interop.{IngestError}
use dfir_evidence_workbench.Ingest.Previews.{
  Libraries, Intake, Drawing, PreviewEnvelope, submission_of,
}
use dfir_evidence_workbench.Ingest.Batches.{
  Item, ItemResult, preview_item, BatchError, unless, after_store, store_item, store_batch,
  ingest_preview_batch,
}

module _ (casts : Casts) (digests : Digests) (libs : Libraries) (intake : Intake)
    (p : Principal) where
  abbrev pub by_p : List Call → List (Principal × Call)
  by_p [] = []
  by_p (c ∷ cs) = (p, c) ∷ by_p cs

  -- An item is stored by one call if it has a preview.
  abbrev pub calls_for : Drawing → Result IngestError PreviewEnvelope → List Call
  calls_for drawing (err e) = []
  calls_for drawing (ok envelope) = store drawing.stored (submission_of libs envelope) ∷ []

  -- The calls for the items, up to the first that has no entity.
  abbrev pub calls_of : Option String → List Item → List Call
  calls_of entity [] = []
  calls_of entity (item ∷ items) =
      let kind = or_text item.item_entity (or_text entity "") in
      let rest = calls_of entity items in
      if kind == ""
      then []
      else calls_for item.drawing (preview_item digests libs intake item kind) ++ rest

  after_store-state :
      (db : Db) (m : Result DbError (Envelope × Db))
      → (after_store casts digests libs intake p db m).1 ≡ state_after casts digests db m
  unfolding after_store
  after_store-state db (ok (row, db')) = refl
  after_store-state db (err e) = refl

  store_item-serve :
      (drawing : Drawing) (db : Db) (m : Result IngestError PreviewEnvelope) (rest : List Call)
      → serve casts digests ((store_item casts digests libs intake p drawing db m).1) (by_p rest)
        ≡ serve casts digests db (by_p (calls_for drawing m ++ rest))
  unfolding store_item serve perform
  store_item-serve drawing db (err e) rest = refl
  store_item-serve drawing db (ok envelope) rest =
      ap (λ x. serve casts digests x (by_p rest))
        (after_store-state db
          (store_preview casts digests p drawing.stored (submission_of libs envelope) db))

  -- A batch, also one that raises, leads to the database that these calls of its principal lead to, each
  -- that raises being passed over: for each item in order, up to the first without an entity, the store
  -- of what its preview is, if it has one.
  pub ingest_preview_batch-serve :
      (entity : Option String) (items : List Item) (db : Db)
      → (ingest_preview_batch casts digests libs intake p entity items db).1
        ≡ serve casts digests db (by_p (calls_of entity items))
  unfolding ingest_preview_batch store_batch serve
  ingest_preview_batch-serve entity [] db = refl
  ingest_preview_batch-serve entity (item ∷ items) db =
      let kind = or_text item.item_entity (or_text entity "") in
      let preview = preview_item digests libs intake item kind in
      let done = store_item casts digests libs intake p item.drawing db preview in
      at (kind == "") _ _ (calls_for item.drawing preview ++ calls_of entity items) (
        ingest_preview_batch-serve entity items (done.1)
        ∙ store_item-serve item.drawing db preview (calls_of entity items))
    where
      at :
          (b : Bool) (m : Result BatchError (List ItemResult)) (db' : Db) (calls : List Call)
          → db' ≡ serve casts digests db (by_p calls)
          → (unless b db (m, db')).1 ≡ serve casts digests db (by_p (if b then [] else calls))
      at true m db' calls h = refl
      at false m db' calls h = h
