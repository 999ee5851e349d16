-- ===== src/Ingest/Batches.antt =====
-- `ingest_preview_batch` of src/dfir_workbench/ingest.py: the previews of vendor payloads, stored
-- in the repository of envelopes.
pub mod Tally
pub mod Stores
pub mod Refusals
mod Tests
use dfir_evidence_workbench.Base.{
  ℕ, suc, ◌+◌, ◌==◌, Bool, String, Option, none, some, List, [], ◌∷◌, if◌then◌else◌,
}
use dfir_evidence_workbench.Base.Text.{or_text}
use dfir_evidence_workbench.Base.Result.{Result, ok, err, ◌>>=◌}
use dfir_evidence_workbench.Ingest.Database.{
  Status, received, validated, preview, approved, applied, duplicate, rejected, quarantined,
  conflict, Envelope, Db, DbError, Casts,
}
use dfir_evidence_workbench.Ingest.Envelopes.{Principal, Digests, store_preview}
use dfir_evidence_workbench.Base.Json.{Json}
use dfir_evidence_workbench.Ingest.Interop.{IngestError, invalid, internal}
use dfir_evidence_workbench.Ingest.Vendors.Entities.{Entity, Overrides}
use dfir_evidence_workbench.Ingest.Previews.{
  PreviewEnvelope, Libraries, Drawing, Intake, preview_vendor_payload, submission_of,
}

-- `raw` is what `it.get("raw") or it.get("payload") or it` gives; `drawing` is what its handling
-- draws from outside.
pub record Item : Type 0 where
  pub raw : Json
  pub item_entity : Option String
  pub source_id : Option String
  pub source_revision : Option String
  pub drawing : Drawing

pub data ItemResult : Type 0 where
  stored_as : Envelope → ItemResult
  rejected_as : IngestError → ItemResult

-- The error that a batch raises: "entity required per-item or at batch level".
pub data BatchError : Type 0 where
  entity_required : BatchError

unfoldable pub status_of_result : ItemResult → Status
status_of_result (stored_as row) = row.processing_status
status_of_result (rejected_as e) = rejected

pub record Counts : Type 0 where
  pub count_accepted : ℕ
  pub count_duplicate : ℕ
  pub count_rejected : ℕ
  pub count_conflict : ℕ
  pub count_quarantined : ℕ

abbrev accept : Counts → Counts
accept c = record c { count_accepted = suc c.count_accepted }

unfoldable pub count_status : Status → Counts → Counts
count_status received c = accept c
count_status validated c = accept c
count_status preview c = accept c
count_status approved c = accept c
count_status applied c = accept c
count_status duplicate c = record c { count_duplicate = suc c.count_duplicate }
count_status rejected c = record c { count_rejected = suc c.count_rejected }
count_status quarantined c = record c { count_quarantined = suc c.count_quarantined }
count_status conflict c = record c { count_conflict = suc c.count_conflict }

-- The loop over the results. (Sums do not depend on the order.)
unfoldable pub counts_of : List ItemResult → Counts
counts_of [] = record {
  count_accepted = 0;
  count_duplicate = 0;
  count_rejected = 0;
  count_conflict = 0;
  count_quarantined = 0;
}
counts_of (r ∷ rs) = count_status (status_of_result r) (counts_of rs)

abbrev pub unless :
    Bool → Db → Result BatchError (List ItemResult) × Db → Result BatchError (List ItemResult) × Db
unless b db done = if b then (err entity_required, db) else done

abbrev pub overrides_of : Item → Overrides
overrides_of item = record { source_id = item.source_id; source_revision = item.source_revision }

-- The preview of an item, of which the batch stores the envelope.
unfoldable pub preview_item :
    Digests → Libraries → Intake → Item → String → Result IngestError PreviewEnvelope
preview_item digests libs intake item kind = do
  (envelope, entity) ←
      preview_vendor_payload digests libs item.drawing intake (overrides_of item) item.raw kind
  ok envelope

module _ (casts : Casts) (digests : Digests) (libs : Libraries) (intake : Intake)
    (p : Principal) where
  unfoldable pub after_store : Db → Result DbError (Envelope × Db) → ItemResult × Db
  after_store db (ok (row, db')) = (stored_as row, db')
  after_store db (err e) = (rejected_as internal, db)

  -- The body of the `try`, with its handlers.
  unfoldable pub store_item : Drawing → Db → Result IngestError PreviewEnvelope → ItemResult × Db
  store_item drawing db (err e) = (rejected_as e, db)
  store_item drawing db (ok envelope) =
      after_store db (store_preview casts digests p drawing.stored (submission_of libs envelope) db)

  abbrev with_result :
      ItemResult → Result BatchError (List ItemResult) → Result BatchError (List ItemResult)
  with_result r rest = rest >>= λ rs. ok (r ∷ rs)

  -- The loop over the items. An item without an entity raises out of the loop, after the items
  -- before it were stored.
  unfoldable pub store_batch :
      Option String → List Item → Db → Result BatchError (List ItemResult) × Db
  store_batch entity [] db = (ok [], db)
  store_batch entity (item ∷ items) db =
      let kind = or_text item.item_entity (or_text entity "") in
      let done = store_item item.drawing db (preview_item digests libs intake item kind) in
      let rest = store_batch entity items (done.1) in
      unless (kind == "") db (with_result (done.0) (rest.0), rest.1)

  unfoldable pub ingest_preview_batch :
      Option String → List Item → Db → Result BatchError (Counts × List ItemResult) × Db
  ingest_preview_batch entity items db =
      let done = store_batch entity items db in ((done.0 >>= λ rs. ok (counts_of rs, rs)), done.1)
