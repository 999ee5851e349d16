-- ===== src/Api/Auth/Tests.antt =====
-- A token of three parts, of which base64 and json.loads are stood for by tables.
use dfir_evidence_workbench.Base.{
  ℕ, ◌==◌, ◌≡◌, refl, String, false, Option, none, some, List, [], ◌∷◌, eqb, if◌then◌else◌,
}
use dfir_evidence_workbench.Base.Strings.{pos, lower_text, split_first}
use dfir_evidence_workbench.Base.Json.{
  Json, integer, str, object, Fields, end, field, value, has_key, truthy,
}
use dfir_evidence_workbench.Base.Result.{ok, err}
use dfir_evidence_workbench.Api.Tokens.{
  Bytes, Libs, Settings, jwt_error, verify_signature, check_claims, verify_jwt,
}
use dfir_evidence_workbench.Api.Auth.{
  Principal, insufficient_scope, principal_from_claims, partition_space, get_current_principal,
  require_scopes,
}
use dfir_evidence_workbench.Api.Auth.Shown.{IsShown, HasScopes, require_scopes-IsShown}

abbrev header : Fields
header = field "alg" (str "HS256") end

abbrev claims : Fields
claims = field "iss" (str "issuer") (
    field "aud" (str "api") (
      field "exp" (integer (pos 100))
        (field "sub" (str "ana") (field "tid" (str "t1") (field "scp" (str "cases:read x") end)))))

abbrev decoded : String → Option Bytes
decoded s =
    if s == "h==="
    then some (1 ∷ [])
    else if s == "b==="
    then some (2 ∷ [])
    else if s == "s==="
    then some (3 ∷ [])
    else none

abbrev loaded : Bytes → Option Json
loaded (b ∷ []) =
    if eqb b 1 then some (object header) else if eqb b 2 then some (object claims) else none
loaded bs = none

abbrev at_time : ℕ → Libs
at_time now = record {
  b64decode = decoded;
  loads = loaded;
  hmac_sha256 = λ secret input. if input == "h.b" then 3 ∷ [] else 4 ∷ [];
  rsa_verifies = λ n e signature input. false;
  equals = λ a b. false;
  reaches = λ n f. false;
  precedes = λ n f. false;
  now = now;
}

abbrev settings : Settings
settings = record {
  env = "prod";
  synthetic_tenant = "synthetic-org-1";
  oidc_issuer = some "issuer";
  oidc_audience = some "api";
  oidc_hs256_secret = some "secret";
  oidc_jwks_json = none;
}

abbrev caller : Principal
caller = record {
  tenant_id = "t1";
  analyst_id = "ana";
  is_synthetic = false;
  subject = some "ana";
  roles = [];
  scopes = "cases:read" ∷ "x" ∷ [];
}

abbrev read_scope : List String
read_scope = "cases:read" ∷ []

runs : Unit {0}
unfolding verify_jwt verify_signature check_claims principal_from_claims partition_space
    get_current_principal require_scopes lower_text split_first value has_key truthy
runs = tt

passes : require_scopes (at_time 50) read_scope settings "Bearer h.b.s" ≡ ok caller
unfolding runs
passes = refl

expired : require_scopes (at_time 100) read_scope settings "Bearer h.b.s" ≡ err jwt_error
unfolding runs
expired = refl

forged : require_scopes (at_time 50) read_scope settings "Bearer b.h.s" ≡ err jwt_error
unfolding runs
forged = refl

may_not_write :
    require_scopes (at_time 50) ("cases:write" ∷ []) settings "Bearer h.b.s"
    ≡ err insufficient_scope
unfolding runs
may_not_write = refl

require_scopes-IsShown_example :
    IsShown (at_time 50) settings "Bearer h.b.s" caller × HasScopes read_scope caller
require_scopes-IsShown_example =
    require_scopes-IsShown (at_time 50) settings "Bearer h.b.s" read_scope caller refl passes
