-- ===== src/Ingest/Envelopes/Tests.antt =====
-- `IngestRepository` (db.py) at concrete submissions, and the theorems at these.
use dfir_evidence_workbench.Base.{
  String, eq_iff, ◌≡◌, ◌≢◌, refl, true, none, some, List, [], ◌∷◌, find, length, arith,
}
use dfir_evidence_workbench.Base.Result.{ok, err}
use dfir_evidence_workbench.Ingest.Database.{
  Status, preview, applied, quarantined, Envelope, Db, wrong_status, Casts, has_id, is_sha256,
  status_of,
}
use dfir_evidence_workbench.Ingest.Envelopes.{
  Principal, Drawn, Submission, Digests, as_duplicate, envelope_row, store_preview, get,
  apply_commit, mark_quarantined,
}
use dfir_evidence_workbench.Ingest.Envelopes.Keys.{IsConsistent}
use dfir_evidence_workbench.Ingest.Envelopes.Calls.{
  Call, store, approval, commit, quarantine, serve, serve-IsConsistent,
}
use dfir_evidence_workbench.Ingest.Envelopes.Tenants.{rows_of, tenant_isolation}
use dfir_evidence_workbench.Ingest.Envelopes.Lifecycle.{
  is_refused, IsLaterStateOf, envelope_is_kept,
}
use dfir_evidence_workbench.Ingest.Envelopes.Resubmission.{
  resubmitted, store_preview-resubmitted, resubmission_strands_envelope,
}

-- Casts that accept every text as it is, and two constant digests.
abbrev plain : Casts
plain = record { uuid = λ s. some s; timestamptz = λ s. some s }

abbrev sha_a : String
sha_a = "aaaaaaaaaaaaaaaaaaaaaaaaaaaaaaaaaaaaaaaaaaaaaaaaaaaaaaaaaaaaaaaa"

abbrev digests : Digests
digests = record { sha256 = λ s. sha_a; v1 = λ s. s }

abbrev ann : Principal
ann = record { tenant_id = "t1"; analyst_id = "ann" }

abbrev bob : Principal
bob = record { tenant_id = "t2"; analyst_id = "bob" }

abbrev drawn : Drawn
drawn = record { envelope_id = "env-1"; now = "2026-01-01"; created_at = "2026-01-02" }

abbrev alert : Submission
alert = record {
  envelope_id = some "e1";
  received_at_utc = none;
  system = some "hive";
  entity = some "alert";
  source_id = some "a-7";
  scope = some "org";
  revision = some "1";
  payload = some "{}";
  payload_sha256 = none;
  status = none;
  mapping_version = none;
  processing_key = some "k1";
  idempotency_key = none;
}

abbrev start : Db
start = record { analysts = ("t1", "ann") ∷ ("t2", "bob") ∷ []; envelopes = [] }

abbrev stored : Envelope
stored = record {
  tenant_id = "t1";
  envelope_id = "e1";
  received_at_utc = "2026-01-01";
  source = record { system = "hive"; entity = "alert"; id = "a-7"; scope = "org"; revision = "1" };
  payload_sha256 = sha_a;
  payload = "{}";
  processing_status = preview;
  mapping_version = "1.0.0";
  idempotency_key = "k1";
  target_id = none;
  error_code = none;
  quarantine_reference = none;
  analyst_id = "ann";
  created_at = "2026-01-02";
}

abbrev one : Db
one = record start { envelopes = stored ∷ [] }

row_of_alert : envelope_row plain digests ann drawn alert ≡ ok stored
unfolding envelope_row status_of is_sha256
row_of_alert = refl

stores_alert : store_preview plain digests ann drawn alert start ≡ ok (stored, one)
unfolding store_preview status_of is_sha256
stores_alert = refl

-- An envelope quarantined at intake can be committed no more.
quarantine_holds :
    serve plain digests start
      ((ann, store drawn alert) ∷ (ann, quarantine "e1" "q" none) ∷ (ann, commit "e1" none) ∷ [])
    ≡ record start {
      envelopes =
          record stored { processing_status = quarantined; quarantine_reference = some "q" } ∷ [];
    }
unfolding serve store_preview status_of is_sha256 mark_quarantined apply_commit
quarantine_holds = refl

-- A commit needs no approval.
commit_of_preview :
    apply_commit plain ann "e1" (some "case-9") one
    ≡ ok (
      record stored { processing_status = applied; target_id = some "case-9" },
      record start {
        envelopes = record stored { processing_status = applied; target_id = some "case-9" } ∷ [];
      },
    )
unfolding apply_commit
commit_of_preview = refl

foreign_get : get plain bob "e1" one ≡ ok none
unfolding get
foreign_get = refl

one-IsConsistent : IsConsistent one
one-IsConsistent = record { unique = (tt, tt); known = (refl, tt) }

abbrev bobs_calls : List (Principal × Call)
bobs_calls =
    (bob, store drawn alert) ∷ (bob, commit "e1" none) ∷ (bob, quarantine "e1" "q" none) ∷ []

t2_ne_t1 : ◌≢◌ {A = String} "t2" "t1"
t2_ne_t1 = ground (arith, eq_iff "t2" "t1")

serve-IsConsistent_example : IsConsistent (serve plain digests one bobs_calls)
serve-IsConsistent_example = serve-IsConsistent plain digests one bobs_calls one-IsConsistent

tenant_isolation_example :
    (rows_of "t1" (serve plain digests one bobs_calls) ≡ rows_of "t1" one)
    × ((id : String) → get plain ann id (serve plain digests one bobs_calls) ≡ get plain ann id one)
tenant_isolation_example =
    tenant_isolation plain digests "t1" ann one bobs_calls refl one-IsConsistent
      (("t2", refl, t2_ne_t1), (("t2", refl, t2_ne_t1), (("t2", refl, t2_ne_t1), tt)))

envelope_is_kept_example :
    (r : Envelope) × (find
        (has_id "t1" "e1")
        (serve plain digests one ((ann, commit "e1" none) ∷ [])).envelopes
      ≡ some r)
    × IsLaterStateOf stored r
envelope_is_kept_example =
    envelope_is_kept plain digests one ((ann, commit "e1" none) ∷ []) "t1" "e1" stored
      one-IsConsistent refl

store_preview-resubmitted_example :
    (db : Db) × (store_preview plain digests ann drawn alert one
      ≡ ok (resubmitted stored stored, db))
    × (length db.envelopes ≡ 1)
    × (find (has_id "t1" "e1") db.envelopes ≡ some (resubmitted stored stored))
store_preview-resubmitted_example =
    store_preview-resubmitted plain digests ann drawn alert one stored stored one-IsConsistent
      row_of_alert refl

resubmission_strands_envelope_example :
    (db : Db) × (store_preview plain digests ann drawn alert one ≡ ok (as_duplicate stored, db))
    × ((status : Status) × (is_refused status ≡ true)
        × (apply_commit plain ann "e1" none
              (serve plain digests db ((ann, approval "e1") ∷ (ann, commit "e1" none) ∷ []))
            ≡ err (wrong_status status)))
resubmission_strands_envelope_example =
    resubmission_strands_envelope plain digests ann ann drawn alert one stored stored none
      ((ann, approval "e1") ∷ (ann, commit "e1" none) ∷ []) one-IsConsistent refl refl row_of_alert
      refl refl refl
