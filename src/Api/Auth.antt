-- ===== src/Api/Auth.antt =====
-- Who calls: `_principal_from_claims`, `get_current_principal` and `require_scopes` of
-- src/dfir_workbench/api.py.
pub mod Shown
mod Tests
use dfir_evidence_workbench.Base.{
  ℕ, zero, suc, ◌+◌, ◌-◌, ◌%◌, String, ◌==◌, Bool, true, false, not, ◌&&◌, ◌||◌, Option, none, some,
  List, [], ◌∷◌, any, all, keep, leb, ltb, eqb, length, if◌then◌else◌,
}
use Prim.Native.Char.{code}
use Prim.Native.String
use dfir_evidence_workbench.Base.Text.{codes, is_space}
use dfir_evidence_workbench.Base.Strings.{◌<>◌, split, lower_text, pos, negsuc}
use dfir_evidence_workbench.Base.Json.{
  Json, null, boolean, integer, float, str, array, object, Float, Items, nil, cons, Fields, value,
  has_key, ◌or◌, as_object,
}
use dfir_evidence_workbench.Base.Result.{Result, ok, err, ◌>>=◌, ◌>>◌, raise_if}
use dfir_evidence_workbench.Api.Tokens.{
  Libs, Settings, HttpException, jwt_error, is_text, verify_jwt,
}

pub record Principal : Type 0 where
  pub tenant_id : String
  pub analyst_id : String
  pub is_synthetic : Bool
  pub subject : Option String
  pub roles : List String
  pub scopes : List String

abbrev no_authentication : HttpException
no_authentication = record { status_code = 401; detail = "authentication required" }

abbrev pub insufficient_scope : HttpException
insufficient_scope = record { status_code = 403; detail = "insufficient scope" }

-- `text.split()`
abbrev words : String → List String
words s = keep (λ w. not (w == "")) (split is_space s)

abbrev pub scopes_of : Json → List String
scopes_of (str s) = words s
scopes_of v = []

abbrev with_text : String → Option (List String) → Option (List String)
with_text s none = none
with_text s (some ss) = some (s ∷ ss)

abbrev all_texts : Items → Option (List String)
all_texts nil = some []
all_texts (cons (str s) vs) = with_text s (all_texts vs)
all_texts (cons v vs) = none

abbrev pub roles_of : Json → List String
roles_of (array vs) = or_empty (all_texts vs)
  where
    or_empty : Option (List String) → List String
    or_empty none = []
    or_empty (some ss) = ss
roles_of v = []

abbrev pub text_of : Json → Result HttpException String
text_of (str s) = if s == "" then err jwt_error else ok s
text_of v = err jwt_error

abbrev pub subject_of : Json → Option String
subject_of (str s) = some s
subject_of v = none

unfoldable pub principal_from_claims : Fields → Result HttpException Principal
principal_from_claims claims = do
  tenant ← text_of (value claims "tid" or value claims "tenant_id")
  analyst ← text_of (value claims "analyst_id" or value claims "sub")
  ok (record {
    tenant_id = tenant;
    analyst_id = analyst;
    is_synthetic = false;
    subject = subject_of (value claims "sub");
    roles = roles_of (value claims "roles");
    scopes = scopes_of (value claims "scp");
  })

-- `auth.partition(" ")`: what is before the first space, and after it
unfoldable pub partition_space : String → String × String
partition_space String.[] = ("", "")
partition_space (String.◌∷◌ c s) =
    let (scheme, token) = partition_space s in
    if eqb (code c) 32 then ("", s) else (String.◌∷◌ c scheme, token)

abbrev pub synthetic : Settings → Principal
synthetic s = record {
  tenant_id = s.synthetic_tenant;
  analyst_id = "bbbbbbbb-bbbb-bbbb-bbbb-bbbbbbbbbbbb";
  is_synthetic = true;
  subject = none;
  roles = [];
  scopes = "cases:read" ∷ "cases:write" ∷ [];
}

abbrev pub anonymous : Settings → Result HttpException Principal
anonymous s = if s.env == "prod" then err no_authentication else ok (synthetic s)

module _ (libs : Libs) where
  abbrev pub bearer : Settings → String × String → Result HttpException Principal
  bearer s (scheme, token) = do
    raise_if (not (lower_text scheme == "bearer") || token == "") jwt_error
    claims ← verify_jwt libs token s
    principal_from_claims claims

  -- with the text of the Authorization header, empty where there is none
  unfoldable pub get_current_principal : Settings → String → Result HttpException Principal
  get_current_principal s auth = if auth == "" then anonymous s else bearer s (partition_space auth)

  unfoldable pub require_scopes : List String → Settings → String → Result HttpException Principal
  require_scopes scopes s auth = do
    p ← get_current_principal s auth
    raise_if (not (all (λ r. any (λ t. t == r) p.scopes || any (λ t. t == r) p.roles) scopes))
        insufficient_scope
    ok p
