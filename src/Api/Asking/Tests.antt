-- ===== src/Api/Asking/Tests.antt =====
-- An analyst of the synthetic tenant asks, reads and approves, and asks too often.
use dfir_evidence_workbench.Base.{
  ℕ, zero, suc, ◌≤◌, ◌==◌, ◌≡◌, refl, String, true, false, none, some, List, [], ◌∷◌, arith,
}
use dfir_evidence_workbench.Base.Text.{contains}
use dfir_evidence_workbench.Base.Strings.{decimal, lower_text}
use dfir_evidence_workbench.Base.Json.{str, object, Fields, end, field, value, has_key, keep_fields}
use dfir_evidence_workbench.Base.Dict.{get, put, string_eq}
use dfir_evidence_workbench.Base.Result.{Result, ok, err}
use dfir_evidence_workbench.Redaction.{
  Site, redact_string, clean, clean_items, clean_fields, is_secret_field, is_excluded,
}
use dfir_evidence_workbench.Context.{
  Package, safe_selection, count_values, count_items, count_fields, build_context,
}
use dfir_evidence_workbench.Gateway.Config.{Url, ProviderConfig}
use dfir_evidence_workbench.Gateway.Completion.{
  Network, unreachable, complete, complete_with, with_budget, answer_with, reserve_if,
  estimate_tokens, cost, mock_text,
}
use dfir_evidence_workbench.Api.Requests.{
  AiRequest, Asking, Key, key_eq, fresh, purged, drop_old, begin_ai_request, end_ai_request,
}
use dfir_evidence_workbench.Api.Requests.Rate.{
  Event, begins, ends, begun_at, count, begun_at_limited,
}
use dfir_evidence_workbench.Api.Auth.{Principal}
use dfir_evidence_workbench.Api.Asking.{
  Ai, Failure, name_error, resolve_ai_resource, package_for, ask_ai, get_ai_request,
  approve_ai_request, find_request,
}
use dfir_evidence_workbench.Api.Asking.Isolation.{
  Call, ask_call, get_call, approve_call, perform, serve, foreign_calls_keep_request,
}
use dfir_evidence_workbench.Api.Asking.Answers.{IsGrounded, ask_ai-IsGrounded}

abbrev site : Site
site = record {
  limits = record {
    question_bytes = 4000;
    serialized_bytes = 65536;
    field_bytes = 16384;
    fields = 200;
    records = 100;
    depth = 4;
    input_tokens = 8000;
  };
  is_path = λ s. false;
  is_injection = λ s. false;
  redacted = λ s. (0, s);
  dumps = λ p. p.question;
  sha256 = λ s. s;
}

abbrev url : Url
url = record {
  scheme = "mock";
  username = none;
  password = none;
  query = "";
  fragment = "";
  hostname = some "local";
  port = none;
  address = none;
}

abbrev mock : ProviderConfig
mock = record {
  provider_id = "local-mock";
  base_url = url;
  model = "deterministic-mock";
  timeout_ms = 15000;
  max_retries = 1;
  max_output_tokens = 2000;
  secret_ref = none;
  external = false;
  cost_per_1k_tokens = none;
  policy_id = "default";
}

abbrev network : Network
network = record { resolve = λ host port. none; secret_resolver = none; reply = λ r n. unreachable }

abbrev ai : Ai
ai = record {
  ai_enabled = true;
  has_pool = true;
  is_uuid = λ s. s == "uuid";
  context = site;
  network = network;
  system = "Answer.";
  dumps = λ p. p.question;
}

abbrev analyst : String → Principal
analyst tenant = record {
  tenant_id = tenant;
  analyst_id = "ana";
  is_synthetic = true;
  subject = none;
  roles = [];
  scopes = "cases:read" ∷ "cases:write" ∷ [];
}

abbrev tenant : String
tenant = "synthetic-test-tenant"

abbrev question : Fields
question = field "question" (str "why") (
    field "case_id" (str "case-demo") (
      field "selection"
        (object
          (field "resource_class" (str "artifact") (field "resource_id" (str "artifact-1") end)))
        end))

abbrev start : Asking
start = record {
  requests = [];
  rate = [];
  in_flight = [];
  gateway = record { providers = ("local-mock", mock) ∷ []; budget = none };
}

runs : Unit {0}
unfolding build_context safe_selection clean clean_items clean_fields redact_string is_secret_field
    is_excluded contains lower_text has_key value keep_fields count_values count_items count_fields
    decimal complete complete_with with_budget answer_with reserve_if estimate_tokens cost mock_text
    fresh purged drop_old begin_ai_request end_ai_request get put resolve_ai_resource package_for
    ask_ai get_ai_request approve_ai_request perform serve
runs = tt

asked : Result Failure AiRequest × Asking
asked = ask_ai ai 100 "r1" (analyst tenant) question start

abbrev text_of : Result Failure AiRequest → Result Failure String
text_of (ok r) = ok r.answer
text_of (err f) = err f

is_answered : text_of asked.0 ≡ ok mock_text
unfolding runs asked
is_answered = refl

-- The same question for a tenant with a UUID meets the name that is not global.
uuid_tenant_fails : (ask_ai ai 100 "r1" (analyst "uuid") question start).0 ≡ err name_error
unfolding runs
uuid_tenant_fails = refl

ask_ai-IsGrounded_example :
    IsGrounded ai
      (analyst tenant)
      "r1"
      question
      start
      (ask_ai ai 100 "r1" (analyst tenant) question start)
ask_ai-IsGrounded_example = ask_ai-IsGrounded ai 100 "r1" (analyst tenant) question start

abbrev built : Package
built = record {
  prompt = record {
    question = "why";
    resource_class = "artifact";
    resource_id = "artifact-1";
    context_data = end;
  };
  audit = record { redactions = []; excluded = []; prompt_injections = 0; record_count = 0 };
  field_count = 1;
  input_bytes = 3;
  package_sha256 = "why";
}

abbrev stored : AiRequest
stored = record {
  request_id = "r1";
  tenant_id = tenant;
  analyst_id = "ana";
  created_at_epoch = 100;
  case_id = "case-demo";
  built = built;
  answer = "fine";
  usage = record { input_tokens = 1; output_tokens = 1; total_tokens = 2; estimated = true };
  approval = none;
}

abbrev kept : Asking
kept = record start { requests = (tenant, ("r1", stored) ∷ []) ∷ [] }

abbrev foreign : List Call
foreign =
    ask_call 200 "r1" (analyst "other") question
    ∷ approve_call 3000 (analyst "other") "r1" "finding"
    ∷ get_call 3700 (analyst "other") "r1"
    ∷ []

foreign_calls_keep_request_example : find_request tenant "r1" (serve ai foreign kept) ≡ some stored
unfolding runs
foreign_calls_keep_request_example =
    foreign_calls_keep_request ai tenant "r1" stored foreign kept
      (refl, omega arith, (refl, omega arith, (refl, omega arith, tt))) refl

-- A second later it is gone.
expires :
    find_request tenant "r1" (serve ai (get_call 3701 (analyst "other") "r1" ∷ []) kept) ≡ none
unfolding runs
expires = refl

abbrev key : Key
key = (tenant, "ana")

abbrev often : ℕ → List Event
often zero = []
often (suc n) = begins 5 key ∷ ends key ∷ often n

at_most_20 : count 5 (begun_at key (often 25) start) ≡ 20
unfolding runs begun_at count
at_most_20 = refl

-- A slot that is not freed is not given twice.
held : begun_at key (begins 5 key ∷ begins 6 key ∷ []) start ≡ 5 ∷ []
unfolding runs begun_at
held = refl

abbrev events : List Event
events = begins 0 key ∷ ends key ∷ begins 10 key ∷ begins 4000 key ∷ []

begun_at_limited_example : count 3600 (begun_at key events start) ≤ 20
begun_at_limited_example = begun_at_limited key events start 0 3600 (omega arith) refl
