-- ===== src/Redaction/Kept.antt =====
-- The keys that cleaning keeps in a value (_clean of src/dfir_workbench/context_builder.py).
use dfir_evidence_workbench.Base.{ℕ, suc, ◌≡◌, refl, String, Bool, true, false, ltb, if◌then◌else◌}
use dfir_evidence_workbench.Base.Strings.{◌<>◌, decimal}
use dfir_evidence_workbench.Base.Json.{
  Json, null, boolean, integer, float, str, array, object, Items, nil, cons, Fields, end, field,
  keep_fields,
}
use dfir_evidence_workbench.Base.Result.{Result, ok, err, ◌>>=◌, raise_if, OnOk, >>=-OnOk, OnOk-ok}
use dfir_evidence_workbench.Ingest.Interop.Secrets.{
  Occurs, OccursIn, OccursAmong, in_array, in_object, first, later, here, under, other,
}
use dfir_evidence_workbench.Redaction.{
  Site, ContextError, nesting_limit_exceeded, record_limit_exceeded, Audit, is_secret_field,
  is_excluded, redact_string, item_count, counted, without_credential, without_field, too_deep,
  clean, clean_items, clean_fields,
}

abbrev pub MayLeave : String → Type 0
MayLeave k = (is_secret_field k ≡ false) × (is_excluded k ≡ false)

abbrev IsClean : Json → Type 0
IsClean v = (k : String) → Occurs k v → MayLeave k

abbrev AreClean : Items → Type 0
AreClean vs = (k : String) → OccursIn k vs → MayLeave k

abbrev pub AreCleanFields : Fields → Type 0
AreCleanFields fs = (k : String) → OccursAmong k fs → MayLeave k

-- The same of what is cleaned, beside its audit.
abbrev CleanValue : Json × Audit → Type 0
CleanValue r = IsClean (r.0)

abbrev CleanItems : Items × Audit → Type 0
CleanItems r = AreClean (r.0)

abbrev pub CleanFields : Fields × Audit → Type 0
CleanFields r = AreCleanFields (r.0)

array-IsClean : (vs : Items) → AreClean vs → IsClean (array vs)
array-IsClean vs h k (in_array o) = h k o

object-IsClean : (fs : Fields) → AreCleanFields fs → IsClean (object fs)
object-IsClean fs h k (in_object o) = h k o

cons-AreClean : (v : Json) (vs : Items) → IsClean v → AreClean vs → AreClean (cons v vs)
cons-AreClean v vs c h k (first o) = c k o
cons-AreClean v vs c h k (later o) = h k o

field-AreCleanFields :
    (j : String) (v : Json) (fs : Fields)
    → MayLeave j
    → IsClean v
    → AreCleanFields fs
    → AreCleanFields (field j v fs)
field-AreCleanFields j v fs may c h k here = may
field-AreCleanFields j v fs may c h k (under o) = c k o
field-AreCleanFields j v fs may c h k (other o) = h k o

array_of :
    (m : Result ContextError (Items × Audit))
    → OnOk CleanItems m
    → OnOk CleanValue (m >>= λ (out, after). ok (array out, after))
array_of (err e) h = tt
array_of (ok (out, after)) h = array-IsClean out h

object_of :
    (m : Result ContextError (Fields × Audit))
    → OnOk CleanFields m
    → OnOk CleanValue (m >>= λ (out, after). ok (object out, after))
object_of (err e) h = tt
object_of (ok (out, after)) h = object-IsClean out h

cons_of :
    (w : Json) (m : Result ContextError (Items × Audit))
    → IsClean w
    → OnOk CleanItems m
    → OnOk CleanItems (m >>= λ (ws, after). ok (cons w ws, after))
cons_of w (err e) c h = tt
cons_of w (ok (ws, after)) c h = cons-AreClean w ws c h

field_of :
    (j : String) (w : Json) (m : Result ContextError (Fields × Audit))
    → MayLeave j
    → IsClean w
    → OnOk CleanFields m
    → OnOk CleanFields (m >>= λ (ws, after). ok (field j w ws, after))
field_of j w (err e) may c h = tt
field_of j w (ok (ws, after)) may c h = field-AreCleanFields j w ws may c h

-- The three ways of a field.
field-cases :
    (j : String) (dropped left_out kept : Result ContextError (Fields × Audit))
    → OnOk CleanFields dropped
    → OnOk CleanFields left_out
    → (MayLeave j → OnOk CleanFields kept)
    → OnOk CleanFields
        (if is_secret_field j then dropped else if is_excluded j then left_out else kept)
field-cases j dropped left_out kept d l f = at (is_secret_field j) (is_excluded j) (λ a b. f (a, b))
  where
    at :
        (a b : Bool)
        → (a ≡ false → b ≡ false → OnOk CleanFields kept)
        → OnOk CleanFields (if a then dropped else if b then left_out else kept)
    at true b g = d
    at false true g = l
    at false false g = g refl refl

module _ (site : Site) where
  mutual
    unfolding clean

    clean-IsClean :
        (path : String) (depth : ℕ) (v : Json) (audit : Audit)
        → OnOk CleanValue (clean site path depth v audit)
    clean-IsClean path depth (str s) audit =
        >>=-OnOk CleanValue (raise_if (too_deep site depth) nesting_limit_exceeded) _
          λ _ _. >>=-OnOk CleanValue (redact_string site path s audit) _ λ r _. λ k o. elim o [ ]
    clean-IsClean path depth (array vs) audit =
        >>=-OnOk CleanValue (raise_if (too_deep site depth) nesting_limit_exceeded) _ λ _ _.
          >>=-OnOk CleanValue
            (raise_if (ltb site.limits.records (item_count vs)) record_limit_exceeded) _
            λ _ _.
              array_of (clean_items site path depth 0 vs (counted (item_count vs) audit))
                (clean_items-AreClean path depth 0 vs (counted (item_count vs) audit))
    clean-IsClean path depth (object fs) audit =
        >>=-OnOk CleanValue (raise_if (too_deep site depth) nesting_limit_exceeded) _ λ _ _.
          object_of (clean_fields site path depth fs audit)
            (clean_fields-AreCleanFields path depth fs audit)
    clean-IsClean path depth null audit =
        >>=-OnOk CleanValue (raise_if (too_deep site depth) nesting_limit_exceeded) _
          λ _ _. λ k o. elim o [ ]
    clean-IsClean path depth (boolean b) audit =
        >>=-OnOk CleanValue (raise_if (too_deep site depth) nesting_limit_exceeded) _
          λ _ _. λ k o. elim o [ ]
    clean-IsClean path depth (integer n) audit =
        >>=-OnOk CleanValue (raise_if (too_deep site depth) nesting_limit_exceeded) _
          λ _ _. λ k o. elim o [ ]
    clean-IsClean path depth (float f) audit =
        >>=-OnOk CleanValue (raise_if (too_deep site depth) nesting_limit_exceeded) _
          λ _ _. λ k o. elim o [ ]

    clean_items-AreClean :
        (path : String) (depth index : ℕ) (vs : Items) (audit : Audit)
        → OnOk CleanItems (clean_items site path depth index vs audit)
    clean_items-AreClean path depth index nil audit = λ k o. elim o [ ]
    clean_items-AreClean path depth index (cons v vs) audit =
        >>=-OnOk CleanItems (clean site (path <> "[" <> decimal index <> "]") (suc depth) v audit) _
          λ (w, next) e.
            cons_of w (clean_items site path depth (suc index) vs next)
              (OnOk-ok CleanValue _
                (clean-IsClean (path <> "[" <> decimal index <> "]") (suc depth) v audit) e)
              (clean_items-AreClean path depth (suc index) vs next)

    pub clean_fields-AreCleanFields :
        (path : String) (depth : ℕ) (fs : Fields) (audit : Audit)
        → OnOk CleanFields (clean_fields site path depth fs audit)
    clean_fields-AreCleanFields path depth end audit = λ k o. elim o [ ]
    clean_fields-AreCleanFields path depth (field j v fs) audit =
        field-cases j
          (clean_fields site path depth fs (without_credential (path <> "." <> j) audit))
          (clean_fields site path depth fs (without_field (path <> "." <> j) audit)) _
          (clean_fields-AreCleanFields path depth fs (without_credential (path <> "." <> j) audit))
          (clean_fields-AreCleanFields path depth fs (without_field (path <> "." <> j) audit))
          λ may.
            >>=-OnOk CleanFields (clean site (path <> "." <> j) (suc depth) v audit) _
              λ (w, next) e.
                field_of j w (clean_fields site path depth fs next) may
                  (OnOk-ok CleanValue _ (clean-IsClean (path <> "." <> j) (suc depth) v audit) e)
                  (clean_fields-AreCleanFields path depth fs next)

-- Fewer fields have fewer keys.
pub keep_fields-AreCleanFields :
    (test : String → Bool) (fs : Fields) → AreCleanFields fs → AreCleanFields (keep_fields test fs)
unfolding keep_fields
keep_fields-AreCleanFields test end h = h
keep_fields-AreCleanFields test (field j v fs) h =
    at (test j) (keep_fields-AreCleanFields test fs (λ k o. h k (other o)))
  where
    at :
        (b : Bool)
        → AreCleanFields (keep_fields test fs)
        → AreCleanFields (if b then field j v (keep_fields test fs) else keep_fields test fs)
    at true rest =
        field-AreCleanFields j v (keep_fields test fs) (h j here) (λ k o. h k (under o)) rest
    at false rest = rest
