-- ===== src/Context/Cleaned.antt =====
-- What leaves in a package of src/dfir_workbench/context_builder.py.
use dfir_evidence_workbench.Base.{
  ℕ, suc, ◌+◌, ◌/◌, ◌≤◌, ◌==◌, ◌≡◌, refl, ap, String, Bool, true, false, List, [], ◌∷◌, ◌++◌,
  length, length-append, ltb, arith, if◌then◌else◌,
}
use dfir_evidence_workbench.Base.Text.{codes, utf8_size}
use dfir_evidence_workbench.Base.Json.{
  Json, null, boolean, integer, float, str, array, object, Items, nil, cons, Fields, end, field,
  keep_fields,
}
use dfir_evidence_workbench.Base.Result.{ok, raise_if, raise_if-passed, OnOk, >>=-OnOk, OnOk-ok}
use dfir_evidence_workbench.Redaction.{
  Site, ContextError, field_limit_exceeded, context_limit_exceeded, token_limit_exceeded, Prompt,
  redact_string, clean_fields,
}
use dfir_evidence_workbench.Context.{
  Package, empty_audit, safe_selection, count_values, count_items, count_fields, unscoped,
  build_context,
}
use dfir_evidence_workbench.Redaction.Kept.{
  AreCleanFields, CleanFields, clean_fields-AreCleanFields, keep_fields-AreCleanFields,
}

-- Each value that stands in a value, at whatever depth, with the value itself.
mutual
  pub values_in : Json → List Json
  values_in (array vs) = array vs ∷ values_of_items vs
  values_in (object fs) = object fs ∷ values_of_fields fs
  values_in v = v ∷ []

  pub values_of_items : Items → List Json
  values_of_items nil = []
  values_of_items (cons v vs) = values_in v ++ values_of_items vs

  pub values_of_fields : Fields → List Json
  values_of_fields end = []
  values_of_fields (field k v fs) = values_in v ++ values_of_fields fs

mutual
  unfolding count_values values_in

  length-values_in : (v : Json) → length (values_in v) ≡ count_values v
  length-values_in null = refl
  length-values_in (boolean b) = refl
  length-values_in (integer n) = refl
  length-values_in (float f) = refl
  length-values_in (str s) = refl
  length-values_in (array vs) = ap suc (length-values_of_items vs)
  length-values_in (object fs) = ap suc (length-values_of_fields fs)

  length-values_of_items : (vs : Items) → length (values_of_items vs) ≡ count_items vs
  length-values_of_items nil = refl
  length-values_of_items (cons v vs) = omega (
    arith,
    length-append (values_in v) (values_of_items vs),
    length-values_in v,
    length-values_of_items vs,
  )

  length-values_of_fields : (fs : Fields) → length (values_of_fields fs) ≡ count_fields fs
  length-values_of_fields end = refl
  length-values_of_fields (field k v fs) = omega (
    arith,
    length-append (values_in v) (values_of_fields fs),
    length-values_in v,
    length-values_of_fields fs,
  )

length-kept :
    (p : String → Bool) (fs : Fields)
    → length (values_of_fields (keep_fields p fs)) ≤ count_fields fs
unfolding keep_fields count_values values_in
length-kept p end = omega arith
length-kept p (field k v fs) = at (p k) (length-kept p fs)
  where
    at :
        (b : Bool)
        → length (values_of_fields (keep_fields p fs)) ≤ count_fields fs
        → length (values_of_fields (if b then field k v (keep_fields p fs) else keep_fields p fs))
          ≤ count_fields (field k v fs)
    at true h = omega (
      arith,
      length-append (values_in v) (values_of_fields (keep_fields p fs)),
      length-values_in v,
    )
    at false h = omega arith

-- A package whose data hold no key of a credential and no excluded key, and that is within the limits.
abbrev pub IsMinimal : Site → Package → Type 0
IsMinimal site p =
    AreCleanFields p.prompt.context_data
    × (p.field_count ≤ site.limits.fields)
    × (length (values_in (object p.prompt.context_data)) ≤ p.field_count)
    × (utf8_size (codes (site.dumps p.prompt)) ≤ site.limits.serialized_bytes)
    × ((utf8_size (codes (site.dumps p.prompt)) + 3) / 4 ≤ site.limits.input_tokens)
    × (p.package_sha256 ≡ site.sha256 (site.dumps p.prompt))

within :
    (size limit : ℕ) (e : ContextError) {done : Unit {0}}
    → raise_if (ltb limit size) e ≡ ok done
    → size ≤ limit
within size limit e h = let small : ltb limit size ≡ false = raise_if-passed _ e h in ground arith

build_context-OnOk :
    (site : Site) (selection : Fields) (question tenant_id case_id : String)
    → OnOk (IsMinimal site) (build_context site selection question tenant_id case_id)
unfolding build_context values_in count_fields
build_context-OnOk site selection question tenant_id case_id =
    >>=-OnOk (IsMinimal site) (raise_if (case_id == "") _) _ λ _ _.
      >>=-OnOk (IsMinimal site)
        (raise_if (ltb site.limits.question_bytes (utf8_size (codes question))) _) _
        λ _ _.
          >>=-OnOk (IsMinimal site) (safe_selection selection tenant_id case_id) _
            λ (class, id, fs) _.
              >>=-OnOk (IsMinimal site) (clean_fields site "selection" 0 fs _) _
                λ (cleaned, audit) c.
                  >>=-OnOk (IsMinimal site)
                    (raise_if (ltb site.limits.fields (suc (count_fields cleaned)))
                      field_limit_exceeded)
                    _
                    λ _ few.
                      >>=-OnOk (IsMinimal site) (redact_string site "question" question audit) _
                        λ (safe_question, after) _.
                          let prompt : Prompt = record {
                            question = safe_question;
                            resource_class = class;
                            resource_id = id;
                            context_data = keep_fields unscoped cleaned;
                          } in
                          let size = utf8_size (codes (site.dumps prompt)) in
                          >>=-OnOk (IsMinimal site)
                            (raise_if (ltb site.limits.serialized_bytes size)
                              context_limit_exceeded)
                            _
                            λ _ small.
                              >>=-OnOk (IsMinimal site)
                                (raise_if (ltb site.limits.input_tokens ((size + 3) / 4))
                                  token_limit_exceeded)
                                _
                                λ _ cheap. (
                                  keep_fields-AreCleanFields unscoped cleaned (
                                      OnOk-ok CleanFields _
                                        (clean_fields-AreCleanFields site "selection" 0 fs
                                          empty_audit)
                                        c),
                                  within (suc (count_fields cleaned)) site.limits.fields
                                      field_limit_exceeded few,
                                  omega (arith, length-kept unscoped cleaned),
                                  within size site.limits.serialized_bytes context_limit_exceeded
                                      small,
                                  within ((size + 3) / 4) site.limits.input_tokens
                                      token_limit_exceeded cheap,
                                  refl,
                                )

-- A package that is built holds no key of a credential and no excluded key at any depth of its data,
-- and the values that stand in its data, its bytes and its estimated tokens are within the limits; its
-- digest is that of the prompt that leaves.
pub build_context-IsMinimal :
    (site : Site) (selection : Fields) (question tenant_id case_id : String) (p : Package)
    → build_context site selection question tenant_id case_id ≡ ok p
    → IsMinimal site p
build_context-IsMinimal site selection question tenant_id case_id p h =
    OnOk-ok (IsMinimal site) _ (build_context-OnOk site selection question tenant_id case_id) h
