-- ===== src/Audit/Redacted.antt =====
-- What `_redact` of src/dfir_workbench/audit.py leaves.
use dfir_evidence_workbench.Base.{◌≡◌, refl, Bool, true, false, if◌then◌else◌}
use dfir_evidence_workbench.Base.Json.{
  Json, null, boolean, integer, float, str, array, object, Items, nil, cons, Fields, end, field,
}
use dfir_evidence_workbench.Audit.{is_redacted, redact, redact_items, redact_fields}

-- At every depth, what stands under a key of credentials is masked.
abbrev mutual
  pub IsMasked : Json → Type 0
  IsMasked (object fs) = AreMaskedFields fs
  IsMasked (array vs) = AreMasked vs
  IsMasked v = Unit {0}

  pub AreMasked : Items → Type 0
  AreMasked nil = Unit {0}
  AreMasked (cons v vs) = IsMasked v × AreMasked vs

  pub AreMaskedFields : Fields → Type 0
  AreMaskedFields end = Unit {0}
  AreMaskedFields (field k v fs) =
      (is_redacted k ≡ true → v ≡ str "[REDACTED]") × IsMasked v × AreMaskedFields fs

mask :
    (b : Bool) (v : Json)
    → IsMasked v
    → (b ≡ true → (if b then str "[REDACTED]" else v) ≡ str "[REDACTED]")
      × IsMasked (if b then str "[REDACTED]" else v)
mask true v h = (λ e. refl, tt)
mask false v h = (λ e. cc, h)

mutual
  unfolding redact redact_items redact_fields

  pub redact-IsMasked : (v : Json) → IsMasked (redact v)
  redact-IsMasked (object fs) = redact_fields-AreMaskedFields fs
  redact-IsMasked (array vs) = redact_items-AreMasked vs
  redact-IsMasked null = tt
  redact-IsMasked (boolean b) = tt
  redact-IsMasked (integer n) = tt
  redact-IsMasked (float f) = tt
  redact-IsMasked (str s) = tt

  redact_items-AreMasked : (vs : Items) → AreMasked (redact_items vs)
  redact_items-AreMasked nil = tt
  redact_items-AreMasked (cons v vs) = (redact-IsMasked v, redact_items-AreMasked vs)

  redact_fields-AreMaskedFields : (fs : Fields) → AreMaskedFields (redact_fields fs)
  redact_fields-AreMaskedFields end = tt
  redact_fields-AreMaskedFields (field k v fs) =
      let m = mask (is_redacted k) (redact v) (redact-IsMasked v) in
      (m.0, m.1, redact_fields-AreMaskedFields fs)
