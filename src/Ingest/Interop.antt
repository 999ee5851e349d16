-- ===== src/Ingest/Interop.antt =====
-- The helpers of src/dfir_workbench/interop.py: intake identity, time stamps, and the refusal of
-- keys that look like credentials. Digests, `json.dumps` and `datetime.fromisoformat` are arguments.
pub mod Secrets
pub mod Keys
use dfir_evidence_workbench.Base.{
  ℕ, suc, ◌==◌, ◌≡◌, refl, String, Bool, true, false, not, ◌||◌, Option, none, some, List, [], ◌∷◌,
  any, if◌then◌else◌,
}
use dfir_evidence_workbench.Base.Text.{codes, lower, replace_char, contains, is_blank}
use dfir_evidence_workbench.Base.Strings.{◌<>◌, decimal, strip, ends, drop_last}
use dfir_evidence_workbench.Base.Json.{
  Json, null, boolean, integer, float, str, array, object, Items, nil, cons, Fields, end, field,
}
use dfir_evidence_workbench.Base.Result.{Result, ok, err, ◌>>=◌, ◌>>◌, raise_if}

-- An `IngestValidationError` with its message, or any other exception.
pub data IngestError : Type 0 where
  invalid : String → IngestError
  internal : IngestError

abbrev secret_words : List String
secret_words =
    "password" ∷ "passwd" ∷ "token" ∷ "api_key" ∷ "apikey" ∷ "secret" ∷ "private_key" ∷ "cookie"
    ∷ []

unfoldable pub is_secret_key : String → Bool
unfolding contains lower
is_secret_key key =
    any (λ w. contains (codes w) (replace_char b'-' b'_' (lower (codes key)))) secret_words

abbrev pub forbidden : String → String → IngestError
forbidden path key = invalid ("forbidden secret field at " <> path <> "." <> key)

unfoldable mutual
  pub reject_secret_keys : String → Json → Result IngestError (Unit {0})
  reject_secret_keys path null = ok tt
  reject_secret_keys path (boolean b) = ok tt
  reject_secret_keys path (integer n) = ok tt
  reject_secret_keys path (float f) = ok tt
  reject_secret_keys path (str s) = ok tt
  reject_secret_keys path (array vs) = reject_items path 0 vs
  reject_secret_keys path (object fs) = reject_fields path fs

  pub reject_items : String → ℕ → Items → Result IngestError (Unit {0})
  reject_items path index nil = ok tt
  reject_items path index (cons v vs) =
      reject_secret_keys (path <> "[" <> decimal index <> "]") v >> reject_items path (suc index) vs

  pub reject_fields : String → Fields → Result IngestError (Unit {0})
  reject_fields path end = ok tt
  reject_fields path (field k v fs) =
      raise_if (is_secret_key k) (forbidden path k)
      >> (reject_secret_keys (path <> "." <> k) v >> reject_fields path fs)

-- The six inputs, of which the source's id and revision may be other values than texts.
pub record KeyParts : Type 0 where
  pub integration_id : String
  pub direction : String
  pub source_system : String
  pub source_entity : String
  pub source_id : String
  pub source_revision : String

abbrev bar : String → String → String
bar a b = a <> ("|" <> b)

unfoldable pub key_material : KeyParts → String
key_material k = bar k.integration_id (
    bar k.direction (bar k.source_system (bar k.source_entity (bar k.source_id k.source_revision))))

abbrev pub has_empty_part : KeyParts → Bool
has_empty_part k =
    k.integration_id == ""
    || k.direction == ""
    || k.source_system == ""
    || k.source_entity == ""
    || k.source_id == ""
    || k.source_revision == ""

-- `v1` is "v1:" and the unpadded URL-safe base64 of the SHA-256 of a text.
unfoldable pub idempotency_key : (v1 : String → String) → KeyParts → Result IngestError String
idempotency_key v1 k = do
  raise_if (has_empty_part k) (invalid "idempotency inputs must be non-empty strings")
  ok (v1 (key_material k))

-- `isinstance(part, str)` for the parts that come from the payload
unfoldable pub text_part : Json → Result IngestError String
text_part (str s) = ok s
text_part v = err (invalid "idempotency inputs must be non-empty strings")

-- What `datetime.fromisoformat` makes of a text: an error, a time without a zone, or a time with
-- its form in UTC.
pub data Parsed : Type 0 where
  malformed naive : Parsed
  aware : String → Parsed

-- (The first message shows the `repr` of the text.)
abbrev normalized : String → Parsed → Result IngestError (String × String)
normalized raw malformed = err (invalid ("invalid timestamp: " <> raw))
normalized raw naive = err (invalid "timestamp must include a timezone")
normalized raw (aware utc) = ok (raw, utc)

unfoldable pub utc_timestamp : (String → Parsed) → String → Result IngestError (String × String)
utc_timestamp fromisoformat raw = do
  raise_if (strip raw == "") (invalid "timestamp must be a non-empty string")
  let stamp = strip raw
  normalized raw (fromisoformat (if ends "Z" stamp then drop_last stamp <> "+00:00" else stamp))
