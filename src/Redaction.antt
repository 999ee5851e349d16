-- ===== src/Redaction.antt =====
-- What src/dfir_workbench/context_builder.py takes out of texts and values (_redact_string, _clean). The
-- patterns over texts, the pattern of credentials in texts, json.dumps and the digest are the site's.
pub mod Kept
use dfir_evidence_workbench.Base.{
  ℕ, zero, suc, ◌+◌, ◌==◌, String, Bool, not, ◌&&◌, ◌||◌, List, [], ◌∷◌, ◌++◌, any, map, leb, eqb,
  ltb, if◌then◌else◌,
}
use dfir_evidence_workbench.Base.Text.{codes, contains, utf8_size}
use dfir_evidence_workbench.Base.Strings.{◌<>◌, decimal, lower_text}
use dfir_evidence_workbench.Base.Json.{
  Json, str, array, object, Items, nil, cons, Fields, end, field,
}
use dfir_evidence_workbench.Base.Result.{Result, ok, ◌>>=◌, ◌>>◌, raise_if}

pub record ContextLimits : Type 0 where
  pub question_bytes : ℕ
  pub serialized_bytes : ℕ
  pub field_bytes : ℕ
  pub fields : ℕ
  pub records : ℕ
  pub depth : ℕ
  pub input_tokens : ℕ

-- The codes of a `ContextBuildError`.
pub data ContextError : Type 0 where
  field_limit_exceeded path_or_link_rejected nesting_limit_exceeded record_limit_exceeded :
      ContextError
  invalid_selection not_authorized malformed_context case_required question_limit_exceeded :
      ContextError
  context_limit_exceeded token_limit_exceeded : ContextError

pub data RedactionKind : Type 0 where
  credential prompt_injection : RedactionKind

pub record Audit : Type 0 where
  pub redactions : List (String × RedactionKind)
  pub excluded : List String
  pub prompt_injections : ℕ
  pub record_count : ℕ

pub record Prompt : Type 0 where
  pub question : String
  pub resource_class : String
  pub resource_id : String
  pub context_data : Fields

pub record Site : Type 0 where
  pub limits : ContextLimits
  pub is_path : String → Bool
  pub is_injection : String → Bool
  -- how many credentials a text holds, and the text with each of them replaced
  pub redacted : String → ℕ × String
  pub dumps : Prompt → String
  pub sha256 : String → String

abbrev credential_words : List String
credential_words =
    "pass" ∷ "secret" ∷ "token" ∷ "cookie" ∷ "authorization" ∷ "apikey" ∷ "api_key" ∷ "api-key"
    ∷ "accesskey" ∷ "access_key" ∷ "access-key" ∷ "privatekey" ∷ "private_key" ∷ "private-key"
    ∷ "credential" ∷ "session" ∷ "recoverycode" ∷ "recovery_code" ∷ "recovery-code"
    ∷ "connectionstring" ∷ "connection_string" ∷ "connection-string" ∷ []

-- the character that a search with `re.I` compares, where it is an ASCII letter
abbrev folded : ℕ → ℕ
folded c =
    if leb b'A' c && leb c b'Z'
    then c + 32
    else if eqb c 0x212a
    then b'k'
    else if eqb c 0x17f
    then b's'
    else if eqb c 0x130 || eqb c 0x131
    then b'i'
    else c

-- `_SECRET_KEY.search`
unfoldable pub is_secret_field : String → Bool
unfolding contains
is_secret_field key = any (λ w. contains (codes w) (map folded (codes key))) credential_words

abbrev excluded_names : List String
excluded_names =
    "bytes" ∷ "raw" ∷ "raw_bytes" ∷ "content" ∷ "body" ∷ "download_url" ∷ "source_mount"
    ∷ "directory_listing" ∷ "filesystem_path" ∷ "path" ∷ []

unfoldable pub is_excluded : String → Bool
is_excluded key = any (λ name. lower_text key == name) excluded_names

-- `n` entries of the audit for the credentials of one text
abbrev repeated : ℕ → String → List (String × RedactionKind)
repeated zero path = []
repeated (suc n) path = (path, credential) ∷ repeated n path

abbrev credentials : Site → String → String → Audit → Audit
credentials site path s audit = record audit {
  redactions = audit.redactions ++ repeated ((site.redacted s).0) path;
}

abbrev untrusted : String → Audit → Audit
untrusted path audit = record audit {
  redactions = audit.redactions ++ ((path, prompt_injection) ∷ []);
  prompt_injections = suc audit.prompt_injections;
}

unfoldable pub redact_string : Site → String → String → Audit → Result ContextError (String × Audit)
redact_string site path s audit = do
  raise_if (ltb site.limits.field_bytes (utf8_size (codes s))) field_limit_exceeded
  raise_if (not (path == "question") && site.is_path s) path_or_link_rejected
  let text = (site.redacted s).1
  ok (
      if site.is_injection text
      then (
        "[UNTRUSTED_EVIDENCE:prompt_injection] " <> text,
        untrusted path (credentials site path s audit),
      )
      else (text, credentials site path s audit))

abbrev pub item_count : Items → ℕ
item_count nil = 0
item_count (cons v vs) = suc (item_count vs)

abbrev pub counted : ℕ → Audit → Audit
counted n audit = record audit { record_count = audit.record_count + n }

abbrev pub without_credential : String → Audit → Audit
without_credential path audit = record audit {
  redactions = audit.redactions ++ ((path, credential) ∷ []);
}

abbrev pub without_field : String → Audit → Audit
without_field path audit = record audit { excluded = audit.excluded ++ (path ∷ []) }

abbrev pub too_deep : Site → ℕ → Bool
too_deep site depth = ltb site.limits.depth depth

module _ (site : Site) where
  -- `_clean`: the value without what may not leave, and the audit
  unfoldable mutual
    pub clean : String → ℕ → Json → Audit → Result ContextError (Json × Audit)
    clean path depth (str s) audit =
        raise_if (too_deep site depth) nesting_limit_exceeded
        >> (redact_string site path s audit >>= λ (text, after). ok (str text, after))
    clean path depth (array vs) audit =
        raise_if (too_deep site depth) nesting_limit_exceeded
        >> (raise_if (ltb site.limits.records (item_count vs)) record_limit_exceeded
            >> (clean_items path depth 0 vs (counted (item_count vs) audit) >>= λ (out, after).
                ok (array out, after)))
    clean path depth (object fs) audit =
        raise_if (too_deep site depth) nesting_limit_exceeded
        >> (clean_fields path depth fs audit >>= λ (out, after). ok (object out, after))
    clean path depth v audit =
        raise_if (too_deep site depth) nesting_limit_exceeded >> ok (v, audit)

    pub clean_items : String → ℕ → ℕ → Items → Audit → Result ContextError (Items × Audit)
    clean_items path depth index nil audit = ok (nil, audit)
    clean_items path depth index (cons v vs) audit =
        clean (path <> "[" <> decimal index <> "]") (suc depth) v audit >>= λ (w, next).
        clean_items path depth (suc index) vs next >>= λ (ws, after). ok (cons w ws, after)

    pub clean_fields : String → ℕ → Fields → Audit → Result ContextError (Fields × Audit)
    clean_fields path depth end audit = ok (end, audit)
    clean_fields path depth (field k v fs) audit =
        let kept = clean (path <> "." <> k) (suc depth) v audit >>= λ (w, next).
        clean_fields path depth fs next >>= λ (ws, after). ok (field k w ws, after) in
        let dropped = clean_fields path depth fs (without_credential (path <> "." <> k) audit) in
        let left_out = clean_fields path depth fs (without_field (path <> "." <> k) audit) in
        if is_secret_field k then dropped else if is_excluded k then left_out else kept
