-- ===== src/Context.antt =====
-- `build_context` of src/dfir_workbench/context_builder.py. Sorted names of fields and references to
-- the source, which are only reported, are left out.
pub mod Cleaned
mod Tests
use dfir_evidence_workbench.Base.{
  ℕ, zero, suc, ◌+◌, ◌/◌, ◌==◌, String, Bool, true, false, not, ◌||◌, ◌&&◌, Option, none, some,
  List, [], ◌∷◌, ◌++◌, any, all, ltb, leb, eqb, length, if◌then◌else◌,
}
use dfir_evidence_workbench.Base.Text.{codes, is_alnum, lower, contains, utf8_size}
use dfir_evidence_workbench.Base.Strings.{◌<>◌, decimal, lower_text}
use dfir_evidence_workbench.Base.Json.{
  Json, null, boolean, integer, float, str, array, object, Items, nil, cons, Fields, end, field,
  value, has_key, as_object, keep_fields,
}
use dfir_evidence_workbench.Base.Result.{Result, ok, err, ◌>>=◌, ◌>>◌, raise_if}
use dfir_evidence_workbench.Redaction.{
  ContextLimits, ContextError, field_limit_exceeded, path_or_link_rejected, nesting_limit_exceeded,
  record_limit_exceeded, invalid_selection, not_authorized, malformed_context, case_required,
  question_limit_exceeded, context_limit_exceeded, token_limit_exceeded, Audit, Prompt, Site,
  redact_string, clean_fields,
}

-- `d.get(key, default)`, which is the default only where the key is missing
abbrev get_or : Fields → String → Json → Json
get_or fs k default = if has_key fs k then value fs k else default

abbrev is_text : String → Json → Bool
is_text t (str s) = s == t
is_text t v = false

abbrev context_classes : List String
context_classes = "case" ∷ "evidence" ∷ "artifact" ∷ "timeline" ∷ "finding" ∷ "report_section" ∷ []

abbrev is_resource_char : ℕ → Bool
is_resource_char c = is_alnum c || eqb c b'_' || eqb c b'-'

-- 128 characters at most, of which the first is a letter or digit
abbrev is_resource_id : List ℕ → Bool
is_resource_id [] = false
is_resource_id (c ∷ s) = is_alnum c && (all is_resource_char s && leb (length s) 127)

abbrev class_text : Json → Result ContextError String
class_text (str s) = ok (if s == "report" then "report_section" else s)
class_text v = err invalid_selection

abbrev id_text : Json → Result ContextError String
id_text (str s) = ok s
id_text v = err invalid_selection

abbrev mapping : Option Fields → Result ContextError Fields
mapping none = err malformed_context
mapping (some fs) = ok fs

-- `_safe_selection`: the class and the id of the resource, and its data
unfoldable pub safe_selection :
    Fields → (tenant_id case_id : String) → Result ContextError (String × String × Fields)
safe_selection selection tenant_id case_id = do
  class ← class_text (get_or selection "resource_class" (value selection "class"))
  id ← id_text (get_or selection "resource_id" (value selection "id"))
  raise_if (not (any (λ c. c == class) context_classes) || not (is_resource_id (codes id)))
      invalid_selection
  raise_if
      (not (is_text tenant_id (value selection "tenant_id"))
        || not (is_text case_id (value selection "case_id")))
      not_authorized
  fs ←
      mapping (as_object (get_or selection "data" (get_or selection "resource" (object selection))))
  raise_if
      (not (is_text tenant_id (get_or fs "tenant_id" (str tenant_id)))
        || not (is_text case_id (get_or fs "case_id" (str case_id))))
      not_authorized
  ok (class, id, fs)

-- the values that `_walk` meets
unfoldable mutual
  pub count_values : Json → ℕ
  count_values (array vs) = suc (count_items vs)
  count_values (object fs) = suc (count_fields fs)
  count_values v = 1

  pub count_items : Items → ℕ
  count_items nil = 0
  count_items (cons v vs) = count_values v + count_items vs

  pub count_fields : Fields → ℕ
  count_fields end = 0
  count_fields (field k v fs) = count_values v + count_fields fs

pub record Package : Type 0 where
  pub prompt : Prompt
  pub audit : Audit
  pub field_count : ℕ
  pub input_bytes : ℕ
  pub package_sha256 : String

abbrev pub empty_audit : Audit
empty_audit = record { redactions = []; excluded = []; prompt_injections = 0; record_count = 0 }

abbrev pub unscoped : String → Bool
unscoped k = not (k == "tenant_id" || k == "case_id")

unfoldable pub build_context :
    Site → Fields → (question tenant_id case_id : String) → Result ContextError Package
build_context site selection question tenant_id case_id = do
  raise_if (case_id == "") case_required
  raise_if (ltb site.limits.question_bytes (utf8_size (codes question))) question_limit_exceeded
  (class, id, fs) ← safe_selection selection tenant_id case_id
  (cleaned, audit) ← clean_fields site "selection" 0 fs empty_audit
  raise_if (ltb site.limits.fields (suc (count_fields cleaned))) field_limit_exceeded
  (safe_question, after) ← redact_string site "question" question audit
  let prompt : Prompt = record {
    question = safe_question;
    resource_class = class;
    resource_id = id;
    context_data = keep_fields unscoped cleaned;
  }
  let size = utf8_size (codes (site.dumps prompt))
  raise_if (ltb site.limits.serialized_bytes size) context_limit_exceeded
  raise_if (ltb site.limits.input_tokens ((size + 3) / 4)) token_limit_exceeded
  ok (record {
    prompt = prompt;
    audit = after;
    field_count = suc (count_fields cleaned);
    input_bytes = size;
    package_sha256 = site.sha256 (site.dumps prompt);
  })
