-- ===== src/Api/Asking.antt =====
-- What analysts ask the model: the AI routes of src/dfir_workbench/api.py, over `build_context`
-- (Context) and the gateway (Gateway/Completion).
pub mod Isolation
pub mod Answers
mod Tests
use dfir_evidence_workbench.Base.{
  ℕ, ◌-◌, String, ◌==◌, ◌≡◌, ◌↔◌, Bool, true, false, not, ◌&&◌, ◌||◌, Option, none, some, List, [],
  ◌∷◌, ◌++◌, any, keep, leb, ltb, length, arith, eq_iff, if◌then◌else◌,
}
use dfir_evidence_workbench.Base.Dict.{Dict, Eq, get, put, string_eq}
use dfir_evidence_workbench.Base.Json.{
  Json, null, boolean, integer, float, str, array, object, Fields, end, field, value, has_key,
}
use dfir_evidence_workbench.Base.Result.{Result, ok, err, ◌>>=◌, ◌>>◌, raise_if}
use dfir_evidence_workbench.Redaction.{Prompt, Site, ContextError}
use dfir_evidence_workbench.Context.{Package, build_context}
use dfir_evidence_workbench.Gateway.Config.{GatewayError}
use dfir_evidence_workbench.Gateway.Completion.{
  Message, Network, ModelGateway, Usage, Answer, complete,
}
use dfir_evidence_workbench.Api.Tokens.{HttpException}
use dfir_evidence_workbench.Api.Auth.{Principal}
use dfir_evidence_workbench.Api.Requests.{
  Key, same_key, key_eq, Approval, AiRequest, Asking, purge, begin_ai_request, end_ai_request,
  or_empty,
}

-- The settings and what the routes call. `dumps` is json.dumps of a question with its context.
pub record Ai : Type 0 where
  pub ai_enabled : Bool
  pub has_pool : Bool
  pub is_uuid : String → Bool
  pub context : Site
  pub network : Network
  pub system : String
  pub dumps : Prompt → String

-- An answer with a status, or the NameError of a name that is not global.
pub data Failure : Type 0 where
  http : HttpException → Failure
  name_error : Failure

abbrev pub fail : ℕ → String → Failure
fail status detail = http (record { status_code = status; detail = detail })

abbrev pub disabled : Failure
disabled = fail 503 "AI assistance is disabled by operator policy"

abbrev pub rejected : Failure
rejected = fail 400 "context rejected"

abbrev not_found : Failure
not_found = fail 404 "AI request not found"

-- `d.get(key, default)`, which is the default only where the key is missing
abbrev pub get_or : Fields → String → Json → Json
get_or fs k default = if has_key fs k then value fs k else default

abbrev pub class_of : Json → Result Failure String
class_of (str s) = ok (if s == "report" then "report_section" else s)
class_of v = err rejected

abbrev pub id_of : Json → Result Failure String
id_of (str s) = if s == "" then err rejected else ok s
id_of v = err rejected

-- `v not in (None, text)`
abbrev pub is_foreign : String → Json → Bool
is_foreign t null = false
is_foreign t (str s) = not (s == t)
is_foreign t v = true

abbrev pub known_classes : List String
known_classes = "case" ∷ "evidence" ∷ "artifact" ∷ "finding" ∷ []

-- The query of the database stands behind `_db_uuid`, which only `create_app` knows.
abbrev pub from_database : Ai → String → Result Failure Fields
from_database ai class =
    if not ai.has_pool
    then err (fail 503 "AI resource store unavailable")
    else if any (λ c. c == class) known_classes
    then err name_error
    else err rejected

-- `_AI_SYNTHETIC_RESOURCES`
abbrev pub synthetic_resource : (tenant case_id class id : String) → Option Fields
synthetic_resource tenant case_id class id =
    if tenant == "synthetic-test-tenant"
      && (case_id == "case-demo" && (class == "artifact" && id == "artifact-1"))
    then some (
        field "id" (str "artifact-1") (
          field "case_id" (str "case-demo")
            (field "description" (str "server-authoritative synthetic artifact") end)))
    else none

abbrev pub or_rejected : {A : Type 0} → Option A → Result Failure A
or_rejected none = err rejected
or_rejected (some a) = ok a

abbrev pub selection_of : (class id tenant_id case_id : String) → Fields → Fields
selection_of class id tenant_id case_id fs = field "resource_class" (str class) (
    field "resource_id" (str id) (
      field "tenant_id" (str tenant_id)
        (field "case_id" (str case_id) (field "data" (object fs) end))))

-- `_resolve_ai_resource`
unfoldable pub resolve_ai_resource : Ai → Principal → Fields → String → Result Failure Fields
resolve_ai_resource ai p selection case_id = do
  class ← class_of (get_or selection "resource_class" (value selection "class"))
  id ← id_of (get_or selection "resource_id" (value selection "id"))
  raise_if
      (is_foreign p.tenant_id (value selection "tenant_id")
        || is_foreign case_id (value selection "case_id"))
      rejected
  fs ←
      (if ai.is_uuid p.tenant_id
        then from_database ai class
        else or_rejected (synthetic_resource p.tenant_id case_id class id))
  ok (selection_of class id p.tenant_id case_id fs)

abbrev pub context_result : Result ContextError Package → Result Failure Package
context_result (ok b) = ok b
context_result (err e) = err rejected

abbrev pub provider_result : Result GatewayError (String × Usage) → Result Failure (String × Usage)
provider_result (ok a) = ok a
provider_result (err e) = err (fail 503 "AI provider unavailable or budget exceeded")

abbrev pub messages_of : Ai → Prompt → List Message
messages_of ai prompt =
    record { role = some "system"; content = some ai.system }
    ∷ record { role = some "user"; content = some (ai.dumps prompt) }
    ∷ []

unfoldable pub package_for :
    Ai → Principal → Fields → (question case_id : String) → Result Failure Package
package_for ai p selection question case_id = do
  server_selection ← resolve_ai_resource ai p selection case_id
  context_result (build_context ai.context server_selection question p.tenant_id case_id)

-- what the provider makes of a package
abbrev pub completed :
    Ai
    → Result Failure Package
    → ModelGateway
    → Result Failure (Package × String × Usage) × ModelGateway
completed ai (err f) g = (err f, g)
completed ai (ok b) g =
    let a = complete ai.network g "local-mock" (messages_of ai b.prompt) in
    (provider_result a.result >>= λ (text, usage). ok (b, text, usage), a.gateway)

abbrev pub of_tenant : String → Asking → Dict String AiRequest
of_tenant tenant s = or_empty (get s.requests tenant)

abbrev pub store_request : (tenant id : String) → AiRequest → Asking → Asking
store_request tenant id r s = record s {
  requests = put s.requests tenant (put (of_tenant tenant s) id r);
}

abbrev pub concluded :
    ℕ
    → String
    → Principal
    → String
    → Result Failure (Package × String × Usage)
    → Asking
    → Result Failure AiRequest × Asking
concluded now id p case_id (err f) s = (err f, s)
concluded now id p case_id (ok (b, text, usage)) s =
    let r : AiRequest = record {
      request_id = id;
      tenant_id = p.tenant_id;
      analyst_id = p.analyst_id;
      created_at_epoch = now;
      case_id = case_id;
      built = b;
      answer = text;
      usage = usage;
      approval = none;
    } in
    (ok r, store_request p.tenant_id id r s)

abbrev pub begun :
    Ai
    → ℕ
    → String
    → Principal
    → Fields
    → (question case_id : String) → Bool × Asking
    → Result Failure AiRequest × Asking
begun ai now id p selection question case_id (false, s) =
    (err (fail 429 "AI request limit exceeded"), s)
begun ai now id p selection question case_id (true, s) =
    let (result, g) = completed ai (package_for ai p selection question case_id) s.gateway in
    concluded now id p case_id result
      (end_ai_request (p.tenant_id, p.analyst_id) (record s { gateway = g }))

abbrev pub Question : Type 0
Question = String × Fields × String

abbrev pub texts_of : Json → Json → Json → Option Question
texts_of (str q) (object selection) (str c) = if c == "" then none else some (q, selection, c)
texts_of q s c = none

abbrev pub question_of : Fields → Option Question
question_of payload =
    texts_of (value payload "question") (value payload "selection") (value payload "case_id")

abbrev pub asked :
    Ai → ℕ → String → Principal → Option Question → Asking → Result Failure AiRequest × Asking
asked ai now id p none s = (err (fail 400 "question, case_id, and selection are required"), s)
asked ai now id p (some (question, selection, case_id)) s =
    begun ai now id p selection question case_id
      (begin_ai_request now (p.tenant_id, p.analyst_id) (purge now s))

-- `ask_ai`, with the id that is drawn
unfoldable pub ask_ai :
    Ai → ℕ → String → Principal → Fields → Asking → Result Failure AiRequest × Asking
ask_ai ai now id p payload s =
    if ai.ai_enabled then asked ai now id p (question_of payload) s else (err disabled, s)

abbrev pub find_request : String → String → Asking → Option AiRequest
find_request tenant id s = get (of_tenant tenant s) id

abbrev or_not_found : Option AiRequest → Result Failure AiRequest
or_not_found none = err not_found
or_not_found (some r) = ok r

-- `get_ai_request`, and `cancel_ai_request`, which finds no request in processing
unfoldable pub get_ai_request :
    Ai → ℕ → Principal → String → Asking → Result Failure AiRequest × Asking
get_ai_request ai now p id s =
    if ai.ai_enabled
    then (or_not_found (find_request p.tenant_id id (purge now s)), purge now s)
    else (err disabled, s)

abbrev pub is_target : String → Bool
is_target t = t == "report" || t == "finding"

abbrev pub approved_by :
    Principal → (id target : String) → Option AiRequest → Asking → Result Failure AiRequest × Asking
approved_by p id target none s = (err not_found, s)
approved_by p id target (some r) s =
    let r' : AiRequest = record r {
      approval = some (record { target = target; approved_by = p.analyst_id });
    } in
    if is_target target
    then (ok r', store_request p.tenant_id id r' s)
    else (err (fail 400 "target must be report or finding"), s)

unfoldable pub approve_ai_request :
    Ai → ℕ → Principal → (id target : String) → Asking → Result Failure AiRequest × Asking
approve_ai_request ai now p id target s =
    if ai.ai_enabled
    then approved_by p id target (find_request p.tenant_id id (purge now s)) (purge now s)
    else (err disabled, s)
