-- ===== src/Api/Auth/Shown.antt =====
-- What a caller of src/dfir_workbench/api.py has shown.
use dfir_evidence_workbench.Base.{
  String, ◌==◌, ◌≡◌, refl, Bool, true, false, not, ◌||◌, List, any, all, arith, eq_iff,
}
use dfir_evidence_workbench.Base.Strings.{lower_text}
use dfir_evidence_workbench.Base.Json.{
  Json, null, boolean, integer, float, str, array, object, Fields, value, ◌or◌,
}
use dfir_evidence_workbench.Base.Result.{
  ok, raise_if, raise_if-passed, OnOk, >>=-OnOk, OnOk-ok, OnOk-map, OnOk-if,
}
use dfir_evidence_workbench.Api.Tokens.{Libs, Settings, jwt_error, verify_jwt}
use dfir_evidence_workbench.Api.Auth.{
  Principal, insufficient_scope, text_of, principal_from_claims, partition_space, bearer,
  get_current_principal, require_scopes,
}
use dfir_evidence_workbench.Api.Tokens.Verified.{IsToken, eq_true_of_not, verify_jwt-IsToken}

-- A principal that a token names: its tenant, which is not empty, and its analyst are claims, and it is
-- not synthetic.
abbrev pub IsNamedBy : Fields → Principal → Type 0
IsNamedBy claims p =
    ((value claims "tid" or value claims "tenant_id") ≡ str p.tenant_id)
    × ((value claims "analyst_id" or value claims "sub") ≡ str p.analyst_id)
    × (p.tenant_id == "" ≡ false)
    × (p.is_synthetic ≡ false)

text_of-eq : (v : Json) {t : String} → text_of v ≡ ok t → (v ≡ str t) × (t == "" ≡ false)
text_of-eq (str s) h = ground arith
text_of-eq null h = cc
text_of-eq (boolean b) h = cc
text_of-eq (integer n) h = cc
text_of-eq (float f) h = cc
text_of-eq (array vs) h = cc
text_of-eq (object fs) h = cc

principal_from_claims-IsNamedBy :
    (claims : Fields) → OnOk (IsNamedBy claims) (principal_from_claims claims)
unfolding principal_from_claims
principal_from_claims-IsNamedBy claims =
    >>=-OnOk _ (text_of (value claims "tid" or value claims "tenant_id")) _ λ tenant t.
      >>=-OnOk _ (text_of (value claims "analyst_id" or value claims "sub")) _ λ analyst a.
        let tenant_of = text_of-eq (value claims "tid" or value claims "tenant_id") t in
        let analyst_of = text_of-eq (value claims "analyst_id" or value claims "sub") a in
        (tenant_of.0, analyst_of.0, tenant_of.1, refl)

-- What a caller in production has shown: the header holds a token that stands for the principal.
abbrev pub IsShown : Libs → Settings → String → Principal → Type 0
IsShown libs s auth p =
    (scheme : String) × (token : String) × (claims : Fields) × (partition_space auth
      ≡ (scheme, token))
    × (lower_text scheme ≡ "bearer")
    × IsToken libs s token claims
    × IsNamedBy claims p

bearer-IsShown :
    (libs : Libs) (s : Settings) (auth : String) (parts : String × String)
    → partition_space auth ≡ parts
    → OnOk (IsShown libs s auth) (bearer libs s parts)
bearer-IsShown libs s auth (scheme, token) e =
    >>=-OnOk _ (raise_if (not (lower_text scheme == "bearer") || token == "") jwt_error) _ λ _ h.
      >>=-OnOk _ (verify_jwt libs token s) _ λ claims v.
        OnOk-map (IsNamedBy claims) (IsShown libs s auth)
          (λ p n. (
            scheme,
            token,
            claims,
            e,
            (eq_iff _ _).0 (first_part (lower_text scheme == "bearer") _ (raise_if-passed _ _ h)),
            OnOk-ok (IsToken libs s token) _ (verify_jwt-IsToken libs s token) v,
            n,
          ))
          (principal_from_claims claims) (principal_from_claims-IsNamedBy claims)
  where
    first_part : (x y : Bool) → (not x || y) ≡ false → x ≡ true
    first_part x y h = ground arith

get_current_principal-IsShown :
    (libs : Libs) (s : Settings) (auth : String)
    → s.env ≡ "prod"
    → OnOk (IsShown libs s auth) (get_current_principal libs s auth)
unfolding get_current_principal
get_current_principal-IsShown libs s auth prod =
    OnOk-if _ (auth == "") _ _
      (λ _. OnOk-if _ (s.env == "prod") _ _ (λ _. tt) (λ h. cc ((eq_iff s.env "prod").1 prod)))
      (λ _. bearer-IsShown libs s auth (partition_space auth) refl)

-- The principal has every scope, as a scope or as a role.
abbrev pub HasScopes : List String → Principal → Type 0
HasScopes scopes p =
    all (λ r. any (λ t. t == r) p.scopes || any (λ t. t == r) p.roles) scopes ≡ true

-- In production a route with required scopes lets a caller pass only if the header is a bearer token of
-- three parts, signed by the configured secret or by an RSA key that the configured key set lists, with
-- the key id of the token if that names one, with claims of the configured issuer and audience whose
-- expiry lies ahead and whose start does not, the principal's tenant and analyst are those that the
-- claims name, and it has every required scope.
pub require_scopes-IsShown :
    (libs : Libs) (s : Settings) (auth : String) (scopes : List String) (p : Principal)
    → s.env ≡ "prod"
    → require_scopes libs scopes s auth ≡ ok p
    → IsShown libs s auth p × HasScopes scopes p
unfolding require_scopes
require_scopes-IsShown libs s auth scopes p prod h =
    OnOk-ok (λ q. IsShown libs s auth q × HasScopes scopes q) _
      (>>=-OnOk _ (get_current_principal libs s auth) _ λ q e.
        >>=-OnOk _
          (raise_if
            (not (all (λ r. any (λ t. t == r) q.scopes || any (λ t. t == r) q.roles) scopes))
            insufficient_scope)
          _
          λ _ some_missing. (
            OnOk-ok (IsShown libs s auth) _ (get_current_principal-IsShown libs s auth prod) e,
            eq_true_of_not _ (raise_if-passed _ _ some_missing),
          ))
      h
