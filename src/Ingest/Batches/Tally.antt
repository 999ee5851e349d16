-- ===== src/Ingest/Batches/Tally.antt =====
-- The counts of `ingest_preview_batch` (ingest.py).
use dfir_evidence_workbench.Base.{
  ℕ, suc, ◌+◌, ◌==◌, ◌≡◌, refl, ap, ◌∙◌, Bool, true, false, String, Option, List, [], ◌∷◌, length,
  arith,
}
use dfir_evidence_workbench.Base.Text.{or_text}
use dfir_evidence_workbench.Base.Result.{Result, ok, err, ◌>>=◌}
use dfir_evidence_workbench.Ingest.Database.{
  Status, received, validated, preview, approved, applied, duplicate, rejected, quarantined,
  conflict, Db, Casts,
}
use dfir_evidence_workbench.Ingest.Envelopes.{Principal, Digests}
use dfir_evidence_workbench.Ingest.Previews.{Libraries, Intake}
use dfir_evidence_workbench.Ingest.Batches.{
  Item, ItemResult, preview_item, BatchError, unless, Counts, status_of_result, count_status,
  counts_of, store_item, store_batch, ingest_preview_batch,
}

abbrev pub total : Counts → ℕ
total c =
    c.count_accepted + c.count_duplicate + c.count_rejected + c.count_conflict + c.count_quarantined

total-count_status : (s : Status) (c : Counts) → total (count_status s c) ≡ suc (total c)
unfolding count_status
total-count_status received c = omega arith
total-count_status validated c = omega arith
total-count_status preview c = omega arith
total-count_status approved c = omega arith
total-count_status applied c = omega arith
total-count_status duplicate c = omega arith
total-count_status rejected c = omega arith
total-count_status quarantined c = omega arith
total-count_status conflict c = omega arith

total-counts_of : (rs : List ItemResult) → total (counts_of rs) ≡ length rs
unfolding counts_of
total-counts_of [] = omega arith
total-counts_of (r ∷ rs) =
    total-count_status (status_of_result r) (counts_of rs) ∙ ap suc (total-counts_of rs)

-- What is known of the results of a batch that did not raise.
abbrev AllAnswered : ℕ → Result BatchError (List ItemResult) → Type 0
AllAnswered n (ok rs) = length rs ≡ n
AllAnswered n (err e) = Unit {0}

abbrev pub IsTallied : ℕ → Result BatchError (Counts × List ItemResult) → Type 0
IsTallied n (ok (c, rs)) = (total c ≡ n) × (length rs ≡ n)
IsTallied n (err e) = Unit {0}

module _ (casts : Casts) (digests : Digests) (libs : Libraries) (intake : Intake)
    (p : Principal) where
  store_batch-AllAnswered :
      (entity : Option String) (items : List Item) (db : Db)
      → AllAnswered (length items) ((store_batch casts digests libs intake p entity items db).0)
  unfolding store_batch
  store_batch-AllAnswered entity [] db = refl
  store_batch-AllAnswered entity (item ∷ items) db =
      let kind = or_text item.item_entity (or_text entity "") in
      let done =
        store_item casts digests libs intake p item.drawing db
          (preview_item digests libs intake item kind) in
      let rest = store_batch casts digests libs intake p entity items (done.1) in
      at (kind == "") (done.0) (rest.0) (rest.1) (store_batch-AllAnswered entity items (done.1))
    where
      at :
          (b : Bool) (r : ItemResult) (m : Result BatchError (List ItemResult)) (db' : Db)
          → AllAnswered (length items) m
          → AllAnswered (suc (length items)) ((unless b db (m >>= λ rs. ok (r ∷ rs), db')).0)
      at true r m db' h = tt
      at false r (ok rs) db' h = ap suc h
      at false r (err e) db' h = tt

  -- A batch that does not raise answers each of its items once, and its five counts add up to the
  -- number of items.
  ingest_preview_batch-IsTallied :
      (entity : Option String) (items : List Item) (db : Db)
      → IsTallied
          (length items)
          ((ingest_preview_batch casts digests libs intake p entity items db).0)
  unfolding ingest_preview_batch
  ingest_preview_batch-IsTallied entity items db =
      at ((store_batch casts digests libs intake p entity items db).0)
        (store_batch-AllAnswered entity items db)
    where
      at :
          (m : Result BatchError (List ItemResult))
          → AllAnswered (length items) m
          → IsTallied (length items) (m >>= λ rs. ok (counts_of rs, rs))
      at (ok rs) h = (total-counts_of rs ∙ h, h)
      at (err e) h = tt
