-- ===== src/Ingest/Batches/Refusals.antt =====
-- What `ingest_preview_batch` (ingest.py) answers for payloads with credentials.
use dfir_evidence_workbench.Base.{◌==◌, Bool, true, false, String, Option, List, [], ◌∷◌}
use dfir_evidence_workbench.Base.Text.{or_text}
use dfir_evidence_workbench.Base.Result.{Result, ok, err, ◌>>=◌, OnOk, >>=-OnOk}
use dfir_evidence_workbench.Ingest.Database.{Envelope, Db, DbError, Casts}
use dfir_evidence_workbench.Ingest.Envelopes.{Principal, Digests, store_preview}
use dfir_evidence_workbench.Ingest.Interop.{IngestError}
use dfir_evidence_workbench.Ingest.Interop.Secrets.{HasNoSecret}
use dfir_evidence_workbench.Ingest.Previews.{
  Libraries, Intake, PreviewEnvelope, submission_of, preview_vendor_payload,
}
use dfir_evidence_workbench.Ingest.Previews.Accepted.{preview_vendor_payload-IsFaithful}
use dfir_evidence_workbench.Ingest.Batches.{
  Item, ItemResult, stored_as, rejected_as, BatchError, unless, overrides_of, preview_item,
  after_store, store_item, store_batch, counts_of, ingest_preview_batch,
}

-- An item that is answered as stored has no credentials.
abbrev pub IsClean : Item → ItemResult → Type 0
IsClean item (stored_as row) = HasNoSecret item.raw
IsClean item (rejected_as e) = Unit {0}

-- The answers belong to the items one by one, in their order.
abbrev pub AreClean : List Item → List ItemResult → Type 0
AreClean [] [] = Unit {0}
AreClean [] (r ∷ rs) = ⊥
AreClean (item ∷ items) [] = ⊥
AreClean (item ∷ items) (r ∷ rs) = IsClean item r × AreClean items rs

module _ (casts : Casts) (digests : Digests) (libs : Libraries) (intake : Intake)
    (p : Principal) where
  preview_item-HasNoSecret :
      (item : Item) (kind : String)
      → OnOk (λ envelope. HasNoSecret item.raw) (preview_item digests libs intake item kind)
  unfolding preview_item
  preview_item-HasNoSecret item kind =
      >>=-OnOk _
        (preview_vendor_payload digests libs item.drawing intake (overrides_of item) item.raw kind)
        _
        λ (envelope, entity) e.
          (preview_vendor_payload-IsFaithful digests libs item.drawing intake (overrides_of item)
            item.raw kind envelope entity e).0

  store_item-IsClean :
      (item : Item) (db : Db) (m : Result IngestError PreviewEnvelope)
      → OnOk (λ envelope. HasNoSecret item.raw) m
      → IsClean item ((store_item casts digests libs intake p item.drawing db m).0)
  unfolding store_item after_store
  store_item-IsClean item db (err e) h = tt
  store_item-IsClean item db (ok envelope) h =
      at (store_preview casts digests p item.drawing.stored (submission_of libs envelope) db)
    where
      at :
          (m : Result DbError (Envelope × Db))
          → IsClean item ((after_store casts digests libs intake p db m).0)
      at (ok (row, db')) = h
      at (err e) = tt

  store_batch-AreClean :
      (entity : Option String) (items : List Item) (db : Db)
      → OnOk (AreClean items) ((store_batch casts digests libs intake p entity items db).0)
  unfolding store_batch
  store_batch-AreClean entity [] db = tt
  store_batch-AreClean entity (item ∷ items) db =
      let kind = or_text item.item_entity (or_text entity "") in
      let done =
        store_item casts digests libs intake p item.drawing db
          (preview_item digests libs intake item kind) in
      let rest = store_batch casts digests libs intake p entity items (done.1) in
      at (kind == "") (done.0) (rest.0) (rest.1)
        (store_item-IsClean item db (preview_item digests libs intake item kind)
          (preview_item-HasNoSecret item kind))
        (store_batch-AreClean entity items (done.1))
    where
      at :
          (b : Bool) (r : ItemResult) (m : Result BatchError (List ItemResult)) (db' : Db)
          → IsClean item r
          → OnOk (AreClean items) m
          → OnOk (AreClean (item ∷ items)) ((unless b db (m >>= λ rs. ok (r ∷ rs), db')).0)
      at true r m db' h hs = tt
      at false r (ok rs) db' h hs = (h, hs)
      at false r (err e) db' h hs = tt

  -- A batch that does not raise answers its items one by one, and the payload of each item that it
  -- answers as stored has no key that looks like a credential at any depth.
  pub ingest_preview_batch-AreClean :
      (entity : Option String) (items : List Item) (db : Db)
      → OnOk
          (λ (counts, rs). AreClean items rs)
          ((ingest_preview_batch casts digests libs intake p entity items db).0)
  unfolding ingest_preview_batch
  ingest_preview_batch-AreClean entity items db =
      at ((store_batch casts digests libs intake p entity items db).0)
        (store_batch-AreClean entity items db)
    where
      at :
          (m : Result BatchError (List ItemResult))
          → OnOk (AreClean items) m
          → OnOk (λ (counts, rs). AreClean items rs) (m >>= λ rs. ok (counts_of rs, rs))
      at (ok rs) h = h
      at (err e) h = tt
