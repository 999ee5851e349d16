-- ===== src/Context/Tests.antt =====
-- A package of a case whose data holds a token and a body.
use dfir_evidence_workbench.Base.{◌≡◌, refl, false, [], ◌∷◌}
use dfir_evidence_workbench.Base.Text.{contains}
use dfir_evidence_workbench.Base.Strings.{decimal, lower_text}
use dfir_evidence_workbench.Base.Json.{
  str, array, object, nil, cons, Fields, end, field, value, has_key, keep_fields,
}
use dfir_evidence_workbench.Base.Result.{ok}
use dfir_evidence_workbench.Redaction.{
  Site, ContextLimits, credential, redact_string, clean, clean_items, clean_fields, is_secret_field,
  is_excluded,
}
use dfir_evidence_workbench.Context.{
  Package, safe_selection, count_values, count_items, count_fields, build_context,
}
use dfir_evidence_workbench.Context.Cleaned.{IsMinimal, build_context-IsMinimal}

abbrev limits : ContextLimits
limits = record {
  question_bytes = 4000;
  serialized_bytes = 65536;
  field_bytes = 16384;
  fields = 200;
  records = 100;
  depth = 4;
  input_tokens = 8000;
}

abbrev site : Site
site = record {
  limits = limits;
  is_path = λ s. false;
  is_injection = λ s. false;
  redacted = λ s. (0, s);
  dumps = λ p. p.question;
  sha256 = λ s. s;
}

abbrev case_data : Fields
case_data = field "title" (str "logon") (
    field "api_token" (str "t") (
      field "rows" (array (cons (object (field "Body" (str "b") (field "n" (str "x") end))) nil))
        end))

abbrev selection : Fields
selection = field "resource_class" (str "case") (
    field "resource_id" (str "c1") (
      field "tenant_id" (str "t1")
        (field "case_id" (str "c1") (field "data" (object case_data) end))))

abbrev built : Package
built = record {
  prompt = record {
    question = "why";
    resource_class = "case";
    resource_id = "c1";
    context_data =
        field "title" (str "logon")
          (field "rows" (array (cons (object (field "n" (str "x") end)) nil)) end);
  };
  audit = record {
    redactions = ("selection.api_token", credential) ∷ [];
    excluded = "selection.rows[0].Body" ∷ [];
    prompt_injections = 0;
    record_count = 1;
  };
  field_count = 5;
  input_bytes = 3;
  package_sha256 = "why";
}

package_is_built : build_context site selection "why" "t1" "c1" ≡ ok built
unfolding build_context safe_selection clean clean_items clean_fields redact_string is_secret_field
    is_excluded contains lower_text has_key value keep_fields count_values count_items count_fields
    decimal
package_is_built = refl

build_context-IsMinimal_example : IsMinimal site built
build_context-IsMinimal_example =
    build_context-IsMinimal site selection "why" "t1" "c1" built package_is_built
