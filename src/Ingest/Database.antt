-- ===== src/Ingest/Database.antt =====
-- The table `dfir.ingest_envelope` that src/dfir_workbench/db.py reads and writes, with the
-- constraints of migrations/0002_create_ingest_envelopes.sql. The column `updated_at` is written
-- and never read back, and is left out. `created_at` is the database's clock at the insert.
use dfir_evidence_workbench.Base.{
  ℕ, String, ◌==◌, Bool, false, ◌&&◌, ◌||◌, Option, none, some, List, [], ◌∷◌, map, length, all,
  eqb, leb, if◌then◌else◌,
}
use dfir_evidence_workbench.Base.Text.{codes}
use dfir_evidence_workbench.Base.Result.{Result, ok, err}

-- CHECK ingest_envelope_status_check
pub data Status : Type 0 where
  received validated preview approved applied duplicate rejected quarantined conflict : Status

-- The text of a status column; `none` is a text that the CHECK refuses.
unfoldable pub status_of : String → Option Status
status_of s =
    if s == "received"
    then some received
    else if s == "validated"
    then some validated
    else if s == "preview"
    then some preview
    else if s == "approved"
    then some approved
    else if s == "applied"
    then some applied
    else if s == "duplicate"
    then some duplicate
    else if s == "rejected"
    then some rejected
    else if s == "quarantined"
    then some quarantined
    else if s == "conflict"
    then some conflict
    else none

pub record Source : Type 0 where
  pub system : String
  pub entity : String
  pub id : String
  pub scope : String
  pub revision : String

pub record Envelope : Type 0 where
  pub tenant_id : String
  pub envelope_id : String
  pub received_at_utc : String
  pub source : Source
  pub payload_sha256 : String
  pub payload : String
  pub processing_status : Status
  pub mapping_version : String
  pub idempotency_key : String
  pub target_id : Option String
  pub error_code : Option String
  pub quarantine_reference : Option String
  pub analyst_id : String
  pub created_at : String

pub record Db : Type 0 where
  pub analysts : List (String × String)
  pub envelopes : List Envelope

pub data DbError : Type 0 where
  -- a cast that the server refuses, and the violated constraints
  invalid_text not_null_violation check_violation unique_violation foreign_key_violation : DbError
  -- the ValueErrors of the repository
  envelope_not_found : DbError
  wrong_status : Status → DbError
  -- RuntimeError
  no_row : DbError

-- What the SQL relies on in PostgreSQL: the casts `::uuid` and `::timestamptz` followed by `::text`.
pub record Casts : Type 0 where
  pub uuid : String → Option String
  pub timestamptz : String → Option String

abbrev pub cast : Option String → Result DbError String
cast none = err invalid_text
cast (some v) = ok v

-- NOT NULL
abbrev pub required : Option String → Result DbError String
required none = err not_null_violation
required (some v) = ok v

abbrev is_hex : ℕ → Bool
is_hex c = (leb b'0' c && leb c b'9') || (leb b'a' c && leb c b'f') || (leb b'A' c && leb c b'F')

-- CHECK ingest_envelope_sha_check
unfoldable pub is_sha256 : String → Bool
is_sha256 s = eqb (length (codes s)) 64 && all is_hex (codes s)

-- The keys PRIMARY KEY (tenant_id, envelope_id) and UNIQUE (tenant_id, idempotency_key).
abbrev pub has_id : String → String → Envelope → Bool
has_id tenant id row = row.tenant_id == tenant && row.envelope_id == id

abbrev pub has_key : String → String → Envelope → Bool
has_key tenant key row = row.tenant_id == tenant && row.idempotency_key == key

-- FOREIGN KEY (tenant_id, analyst_id) REFERENCES dfir.analyst
abbrev pub is_analyst : String → String → List (String × String) → Bool
is_analyst tenant analyst [] = false
is_analyst tenant analyst ((t, a) ∷ rows) =
    (t == tenant && a == analyst) || is_analyst tenant analyst rows

-- UPDATE … SET … WHERE
abbrev pub update : (Envelope → Bool) → (Envelope → Envelope) → List Envelope → List Envelope
update where_ set_ = map (λ row. if where_ row then set_ row else row)
