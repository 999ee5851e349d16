-- ===== src/Ingest/Envelopes.antt =====
-- `IngestRepository` of src/dfir_workbench/db.py. A method is one transaction: it returns its
-- result with the new state of the database, or an error after which the database is as before.
-- The values that Python draws (a new id, the clock) are arguments, and so are the two digests.
pub mod Steps
pub mod Keys
pub mod Calls
pub mod Resubmission
pub mod Tenants
pub mod Lifecycle
mod Tests
use Prim.Native.String
use dfir_evidence_workbench.Base.{
  String, ◌==◌, Bool, true, false, not, ◌&&◌, Option, none, some, List, [], ◌∷◌, find, is_some,
  if◌then◌else◌,
}
use dfir_evidence_workbench.Base.Text.{or_text}
use dfir_evidence_workbench.Base.Result.{Result, ok, err, ◌>>=◌, ◌>>◌, raise_if}
use dfir_evidence_workbench.Ingest.Database.{
  Status, preview, approved, applied, duplicate, quarantined, conflict, Source, Envelope, Db,
  DbError, check_violation, unique_violation, foreign_key_violation, envelope_not_found,
  wrong_status, no_row, Casts, status_of, cast, required, is_sha256, has_id, has_key, is_analyst,
  update,
}

pub record Principal : Type 0 where
  pub tenant_id : String
  pub analyst_id : String

-- The dict that `store_preview` is given; a key that it lacks is `none`. The payload is its JSON
-- text with sorted keys.
pub record Submission : Type 0 where
  pub envelope_id : Option String
  pub received_at_utc : Option String
  pub system : Option String
  pub entity : Option String
  pub source_id : Option String
  pub scope : Option String
  pub revision : Option String
  pub payload : Option String
  pub payload_sha256 : Option String
  pub status : Option String
  pub mapping_version : Option String
  pub processing_key : Option String
  pub idempotency_key : Option String

-- What one call draws from outside: `env-` and a fresh uuid, Python's clock, the server's clock.
pub record Drawn : Type 0 where
  pub envelope_id : String
  pub now : String
  pub created_at : String

pub record Digests : Type 0 where
  -- the hexadecimal SHA-256 of a text
  pub sha256 : String → String
  -- "v1:" and the unpadded URL-safe base64 of the SHA-256 of a text
  pub v1 : String → String

abbrev default : Option String → String → String
default none d = d
default (some v) d = v

abbrev join : String → String → String
join a b = String.◌++◌ a (String.◌++◌ "|" b)

abbrev pub is_preview : Status → Bool
is_preview preview = true
is_preview _ = false

abbrev pub can_apply : Status → Bool
can_apply approved = true
can_apply preview = true
can_apply _ = false

-- processing_status in ("duplicate", "applied", "conflict")
abbrev pub is_settled : Status → Bool
is_settled duplicate = true
is_settled applied = true
is_settled conflict = true
is_settled _ = false

abbrev pub as_conflict : Envelope → Envelope
as_conflict row = record row {
  processing_status = conflict;
  error_code = some "idempotency_key_reuse_mismatch";
}

abbrev pub as_duplicate : Envelope → Envelope
as_duplicate row = record row { processing_status = duplicate }

abbrev checked : Option Status → Result DbError Status
checked none = err check_violation
checked (some v) = ok v

-- COALESCE(a, b)
abbrev coalesce : Option String → Option String → Option String
coalesce none b = b
coalesce (some a) b = some a

abbrev pub set_applied : Option String → Envelope → Envelope
set_applied target row = record row {
  processing_status = applied;
  target_id = coalesce target row.target_id;
}

abbrev pub set_quarantined : String → Option String → Envelope → Envelope
set_quarantined reference reason row = record row {
  processing_status = quarantined;
  quarantine_reference = some reference;
  error_code = coalesce reason row.error_code;
}

-- The branch of `store_preview` after ON CONFLICT DO NOTHING returned no row.
on_conflict : String → String → String → Db → Option Envelope → Result DbError (Envelope × Db)
on_conflict tenant key sha db none = err no_row
on_conflict tenant key sha db (some row) =
    if not (row.payload_sha256 == sha)
    then ok (
      as_conflict row,
      record db { envelopes = update (has_key tenant key) as_conflict db.envelopes },
    )
    else if not (is_settled row.processing_status)
    then ok (
      as_duplicate row,
      record db { envelopes = update (has_key tenant key) as_duplicate db.envelopes },
    )
    else ok (row, db)

module _ (casts : Casts) (digests : Digests) where
  -- The values of the INSERT.
  unfoldable pub envelope_row : Principal → Drawn → Submission → Result DbError Envelope
  envelope_row p drawn s = do
    let env_id = or_text s.envelope_id drawn.envelope_id
    let named = join (default s.system "other") (
        join (default s.entity "unknown")
          (join (default s.source_id env_id) (default s.revision "1")))
    let derived = digests.v1 (join p.tenant_id (join "in" named))
    let payload = default s.payload "{}"
    tenant ← cast (casts.uuid p.tenant_id)
    received ← cast (casts.timestamptz (or_text s.received_at_utc drawn.now))
    analyst ← cast (casts.uuid p.analyst_id)
    system ← required s.system
    entity ← required s.entity
    id ← required s.source_id
    scope ← required s.scope
    revision ← required s.revision
    let sha = or_text s.payload_sha256 (digests.sha256 payload)
    status ← checked (status_of (default s.status "preview"))
    raise_if (not (is_sha256 sha)) check_violation
    ok (record {
      tenant_id = tenant;
      envelope_id = env_id;
      received_at_utc = received;
      source = record {
        system = system;
        entity = entity;
        id = id;
        scope = scope;
        revision = revision;
      };
      payload_sha256 = sha;
      payload = payload;
      processing_status = status;
      mapping_version = default s.mapping_version "1.0.0";
      idempotency_key = or_text s.processing_key (or_text s.idempotency_key derived);
      target_id = none;
      error_code = none;
      quarantine_reference = none;
      analyst_id = analyst;
      created_at = drawn.created_at;
    })

-- INSERT … ON CONFLICT (tenant_id, idempotency_key) DO NOTHING RETURNING …, and what follows it.
unfoldable pub insert_row : Db → Envelope → Result DbError (Envelope × Db)
unfolding on_conflict
insert_row db row =
    let found = find (has_key row.tenant_id row.idempotency_key) db.envelopes in
    if is_some found
    then on_conflict row.tenant_id row.idempotency_key row.payload_sha256 db found
    else if is_some (find (has_id row.tenant_id row.envelope_id) db.envelopes)
    then err unique_violation
    else if is_analyst row.tenant_id row.analyst_id db.analysts
    then ok (row, record db { envelopes = row ∷ db.envelopes })
    else err foreign_key_violation

unfoldable pub store_preview :
    Casts → Digests → Principal → Drawn → Submission → Db → Result DbError (Envelope × Db)
unfolding envelope_row insert_row
store_preview casts digests p drawn s db = do
  row ← envelope_row casts digests p drawn s
  insert_row db row

-- The rows that an UPDATE of the three transitions selects.
abbrev pub at_id : String → String → (Status → Bool) → Envelope → Bool
at_id tenant id from row = has_id tenant id row && from row.processing_status

-- UPDATE … RETURNING: the row as it is after, and the table; `none` if no row qualifies.
abbrev pub changed :
    (Envelope → Bool) → (Envelope → Envelope) → Db → Option Envelope → Option (Envelope × Db)
changed where_ set_ db none = none
changed where_ set_ db (some row) =
    some (set_ row, record db { envelopes = update where_ set_ db.envelopes })

abbrev pub returning : (Envelope → Bool) → (Envelope → Envelope) → Db → Option (Envelope × Db)
returning where_ set_ db = changed where_ set_ db (find where_ db.envelopes)

abbrev pub row_or : DbError → Option (Envelope × Db) → Result DbError (Envelope × Db)
row_or e none = err e
row_or e (some done) = ok done

-- The ValueError of a transition whose UPDATE returned no row.
abbrev pub refused : Option Envelope → DbError
refused none = envelope_not_found
refused (some row) = wrong_status row.processing_status

abbrev pub any_status : Status → Bool
any_status s = true

abbrev pub set_approved : Envelope → Envelope
set_approved row = record row { processing_status = approved }

module _ (casts : Casts) (p : Principal) (envelope_id : String) where
  pub get : Db → Result DbError (Option Envelope)
  get db = do
    tenant ← cast (casts.uuid p.tenant_id)
    ok (find (has_id tenant envelope_id) db.envelopes)

  pub approve : Db → Result DbError (Envelope × Db)
  approve db = do
    tenant ← cast (casts.uuid p.tenant_id)
    row_or (refused (find (has_id tenant envelope_id) db.envelopes))
        (returning (at_id tenant envelope_id is_preview) set_approved db)

  pub apply_commit : Option String → Db → Result DbError (Envelope × Db)
  apply_commit target db = do
    tenant ← cast (casts.uuid p.tenant_id)
    row_or (refused (find (has_id tenant envelope_id) db.envelopes))
        (returning (at_id tenant envelope_id can_apply) (set_applied target) db)

  -- `reference` is the fresh quarantine reference.
  pub mark_quarantined : String → Option String → Db → Result DbError (Envelope × Db)
  mark_quarantined reference reason db = do
    tenant ← cast (casts.uuid p.tenant_id)
    row_or envelope_not_found
        (returning (at_id tenant envelope_id any_status) (set_quarantined reference reason) db)
