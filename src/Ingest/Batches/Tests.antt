-- ===== src/Ingest/Batches/Tests.antt =====
-- A batch of two items (ingest.py), of which the second is refused, and one of the refused item alone.
use dfir_evidence_workbench.Base.{◌≡◌, refl, map, none, some, List, [], ◌∷◌}
use dfir_evidence_workbench.Base.Result.{Result, ok, err, OnOk}
use dfir_evidence_workbench.Ingest.Database.{
  status_of, is_sha256, Status, quarantined, rejected, Db, Casts,
}
use dfir_evidence_workbench.Base.Json.{
  safe_str, truthy, value, show, Fields, object, field, str, end,
}
use dfir_evidence_workbench.Base.Text.{contains, lower, starts_with}
use dfir_evidence_workbench.Base.Strings.{
  strip, lower_text, show_int, all_digits, decimal, drop_last, ends, split_first,
}
use dfir_evidence_workbench.Ingest.Envelopes.{Principal, store_preview, envelope_row, insert_row}
use dfir_evidence_workbench.Ingest.Envelopes.Calls.{serve}
use dfir_evidence_workbench.Ingest.Interop.{
  text_part, idempotency_key, utc_timestamp, key_material, invalid, is_secret_key,
  reject_secret_keys,
}
use dfir_evidence_workbench.Ingest.Vendors.Entities.{provenance_of, first_true}
use dfir_evidence_workbench.Ingest.Vendors.IrisFields.{
  iris_source_id, iris_source_revision, first_present, iris_choose_ts, normalize_iris_ts, rstrip_z,
}
use dfir_evidence_workbench.Ingest.Vendors.IrisCases.{iris_case, iris_ioc}
use dfir_evidence_workbench.Ingest.Vendors.Iris.{iris_project}
use dfir_evidence_workbench.Ingest.Previews.{
  build_envelope_for_preview, require_source, first_quarantine, adapter_project,
  project_vendor_payload, preview_vendor_payload,
}
use dfir_evidence_workbench.Ingest.Previews.Samples.{digests, libs, drawing, intake_of, sample}
use dfir_evidence_workbench.Ingest.Batches.Refusals.{AreClean, ingest_preview_batch-AreClean}
use dfir_evidence_workbench.Ingest.Batches.{
  after_store, Item, ItemResult, BatchError, Counts, preview_item, rejected_as,
  ingest_preview_batch, store_batch, store_item, counts_of, count_status, status_of_result,
}
use dfir_evidence_workbench.Ingest.Batches.Stores.{by_p, calls_of, ingest_preview_batch-serve}

abbrev casts : Casts
casts = record { uuid = λ s. some s; timestamptz = λ s. some s }

abbrev eve : Principal
eve = record { tenant_id = "t1"; analyst_id = "eve" }

abbrev item : Fields → Item
item fs = record {
  raw = object fs;
  item_entity = none;
  source_id = none;
  source_revision = none;
  drawing = drawing;
}

abbrev leak : Fields
leak = field "case_name" (str "Intrusion") (field "api-token" (str "hunter2") end)

abbrev database : Db
database = record { analysts = ("t1", "eve") ∷ []; envelopes = [] }

runs : Unit {0}
unfolding ingest_preview_batch store_batch store_item counts_of count_status status_of_result
    preview_item preview_vendor_payload project_vendor_payload adapter_project iris_project iris_ioc
    strip lower_text reject_secret_keys is_secret_key contains lower safe_str truthy value show
    provenance_of text_part iris_source_id iris_source_revision idempotency_key first_true
    first_present show_int build_envelope_for_preview require_source iris_choose_ts
    normalize_iris_ts utc_timestamp all_digits decimal drop_last ends split_first starts_with
    key_material first_quarantine rstrip_z store_preview envelope_row insert_row is_sha256
    after_store status_of
runs = tt

abbrev items : List Item
items = item sample ∷ item leak ∷ []

-- An item with a credential is counted and stores nothing.
secret_is_rejected :
    ingest_preview_batch casts digests libs
      (intake_of "iris")
      eve
      (some "case")
      (item leak ∷ [])
      database
    ≡ (
      ok (
        record {
          count_accepted = 0;
          count_duplicate = 0;
          count_rejected = 1;
          count_conflict = 0;
          count_quarantined = 0;
        },
        rejected_as (invalid "forbidden secret field at payload.api-token") ∷ [],
      ),
      database,
    )
unfolding ingest_preview_batch store_batch store_item counts_of count_status status_of_result
    preview_item preview_vendor_payload project_vendor_payload adapter_project iris_project
    iris_case strip lower_text reject_secret_keys is_secret_key contains lower
secret_is_rejected = refl

abbrev statuses : Result BatchError (Counts × List ItemResult) → List Status
statuses (err e) = []
statuses (ok (counts, rs)) = map status_of_result rs

-- The first item is stored, and quarantined for its type; the second is refused.
first_is_stored :
    statuses (
      (ingest_preview_batch casts digests libs
        (intake_of "iris")
        eve
        (some "ioc")
        items
        database).0)
    ≡ quarantined ∷ rejected ∷ []
unfolding runs
first_is_stored = refl

ingest_preview_batch-serve_example :
    (ingest_preview_batch casts digests libs (intake_of "iris") eve (some "ioc") items database).1
    ≡ serve casts digests database (
        by_p casts digests libs
          (intake_of "iris")
          eve
          (calls_of casts digests libs (intake_of "iris") eve (some "ioc") items))
ingest_preview_batch-serve_example =
    ingest_preview_batch-serve casts digests libs (intake_of "iris") eve (some "ioc") items database

ingest_preview_batch-AreClean_example :
    OnOk
      (λ (counts, rs). AreClean items rs)
      ((ingest_preview_batch casts digests libs
        (intake_of "iris")
        eve
        (some "ioc")
        items
        database).0)
ingest_preview_batch-AreClean_example =
    ingest_preview_batch-AreClean casts digests libs (intake_of "iris") eve (some "ioc") items
      database
