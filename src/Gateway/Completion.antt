-- ===== src/Gateway/Completion.antt =====
-- `ModelGateway` of src/dfir_workbench/model_gateway.py: `complete` with its budget, and the retry
-- loop of `_request`. A request is what is given to the opener of urllib; redirects that the opener
-- follows by itself are no requests here. The network is a parameter: the resolver of host names and the reply to each
-- attempt. A reply stands as what `_parse_response` reads from it. The answer of `complete` comes
-- with the budget and with the requests that left the process.
use dfir_evidence_workbench.Base.{
  ℕ, zero, suc, ◌+◌, ◌*◌, ◌/◌, ◌==◌, String, Bool, true, false, not, ◌&&◌, ◌||◌, Option, none, some,
  List, [], ◌∷◌, any, ltb, eqb, is_some, if◌then◌else◌,
}
use dfir_evidence_workbench.Base.Dict.{Dict, get, string_eq}
use dfir_evidence_workbench.Base.Text.{codes, or_text, utf8_size}
use dfir_evidence_workbench.Base.Result.{Result, ok, err, ◌>>=◌}
use dfir_evidence_workbench.Gateway.Config.{
  GatewayError, request_error, IpAddress, Url, blocked_ip, ProviderConfig, is_set,
}
use dfir_evidence_workbench.Gateway.Budget.{TokenCostBudget, reserve}

pub record Usage : Type 0 where
  pub input_tokens : ℕ
  pub output_tokens : ℕ
  pub total_tokens : ℕ
  pub estimated : Bool

-- `m.get("role")` and `m.get("content")`, where they are texts.
pub record Message : Type 0 where
  pub role : Option String
  pub content : Option String

-- What is sent: the URL, the bearer token, and the body.
pub record Request : Type 0 where
  pub url : Url
  pub bearer : Option String
  pub model : String
  pub max_tokens : ℕ
  pub messages : List Message

-- A field of the reply's usage: absent, no number, or a number.
pub data Field : Type 0 where
  absent malformed : Field
  number : ℕ → Field

-- The bytes that were read, and what they say as JSON.
pub record Body : Type 0 where
  pub size : ℕ
  pub content : Option String
  pub prompt_tokens : Field
  pub completion_tokens : Field
  pub total_tokens : Field

-- What an attempt comes to: a response, an `HTTPError`, a `URLError` or timeout, another exception.
pub data Reply : Type 0 where
  answered : Body → Reply
  http_error : ℕ → Reply
  unreachable crashed : Reply

abbrev int_of : Field → ℕ → Result GatewayError ℕ
int_of absent default = ok default
int_of malformed default = err request_error
int_of (number n) default = ok n

abbrev text_of : Option String → Result GatewayError String
text_of none = err request_error
text_of (some s) = if s == "" then err request_error else ok s

unfoldable pub parse_response : Body → Result GatewayError (String × Usage)
parse_response body = do
  text ← text_of body.content
  input ← int_of body.prompt_tokens 0
  output ← int_of body.completion_tokens 0
  total ← int_of body.total_tokens (input + output)
  ok (
    text,
    record {
      input_tokens = input;
      output_tokens = output;
      total_tokens = total;
      estimated = false;
    },
  )

abbrev is_transient_code : ℕ → Bool
is_transient_code c = eqb c 408 || eqb c 429 || eqb c 500 || eqb c 502 || eqb c 503 || eqb c 504

-- The replies after which `_request` goes on to its next attempt, if there is one.
unfoldable pub is_transient : Reply → Bool
is_transient (answered body) = false
is_transient (http_error c) = is_transient_code c
is_transient unreachable = true
is_transient crashed = false

unfoldable pub outcome : Reply → Result GatewayError (String × Usage)
unfolding parse_response
outcome (answered body) = if ltb 262144 body.size then err request_error else parse_response body
outcome (http_error c) = err request_error
outcome unreachable = err request_error
outcome crashed = err request_error

-- The loop over `range(max_retries + 1)` from `attempt` on, with `left` attempts left, and how many
-- requests it sends.
unfoldable pub attempts : (ℕ → Reply) → ℕ → ℕ → Result GatewayError (String × Usage) × ℕ
unfolding is_transient outcome
attempts reply attempt zero = (err request_error, 0)
attempts reply attempt (suc left) =
    let rest = attempts reply (suc attempt) left in
    if is_transient (reply attempt) && not (eqb left 0)
    then (rest.0, suc (rest.1))
    else (outcome (reply attempt), 1)

abbrev blocked_destination : Option IpAddress → Bool
blocked_destination none = true
blocked_destination (some ip) = blocked_ip ip

abbrev no_address : List (Option IpAddress) → Bool
no_address [] = true
no_address (a ∷ rest) = false

-- What the process asks of its surroundings: host names, secrets, and the replies to a request.
-- An address that is none does not parse, which is an error too.
pub record Network : Type 0 where
  pub resolve : String → ℕ → Option (List (Option IpAddress))
  pub secret_resolver : Option (String → Option String)
  pub reply : Request → ℕ → Reply

abbrev or_port : Option ℕ → ℕ
or_port none = 443
or_port (some p) = if eqb p 0 then 443 else p

abbrev refused_addresses : Option (List (Option IpAddress)) → Bool
refused_addresses none = true
refused_addresses (some addresses) = no_address addresses || any blocked_destination addresses

-- `_validate_resolved_destination`, as a test: each of its failures is a request error.
unfoldable pub refused_destination : Network → Url → Bool
unfolding blocked_ip
refused_destination net url =
    refused_addresses (net.resolve (or_text url.hostname "") (or_port url.port))

abbrev key : Option (String → Option String) → Option String → Option String
key none r = none
key (some f) none = none
key (some f) (some r) = if r == "" then none else f r

unfoldable pub api_key : Network → Option String → Option String
api_key net secret_ref = key net.secret_resolver secret_ref

abbrev bearer_of : Option String → Option String
bearer_of k = if is_set k then k else none

abbrev pub request_for : Network → ProviderConfig → List Message → Request
request_for net config messages = record {
  url = config.base_url;
  bearer = bearer_of (api_key net config.secret_ref);
  model = config.model;
  max_tokens = config.max_output_tokens;
  messages = messages;
}

abbrev pub replicate : ℕ → Request → List Request
replicate zero r = []
replicate (suc n) r = r ∷ replicate n r

-- `_request`, and the requests it sends.
unfoldable pub request :
    Network → ProviderConfig → List Message → Result GatewayError (String × Usage) × List Request
request net config messages =
    if refused_destination net config.base_url
      || (config.external && not (is_set (api_key net config.secret_ref)))
    then (err request_error, [])
    else let req = request_for net config messages in
      let tried = attempts (net.reply req) 0 (suc config.max_retries) in
      (tried.0, replicate (tried.1) req)

abbrev is_role : String → Bool
is_role r = r == "system" || r == "user" || r == "assistant"

abbrev bad_message : Message → Bool
bad_message m = not (is_role (or_text m.role "")) || not (is_some m.content)

abbrev pub bad_messages : List Message → Bool
bad_messages [] = true
bad_messages (m ∷ ms) = any bad_message (m ∷ ms)

abbrev content_size : List Message → ℕ
content_size [] = 0
content_size (m ∷ ms) = utf8_size (codes (or_text m.content "")) + content_size ms

unfoldable pub estimate_tokens : List Message → ℕ
estimate_tokens ms = let n = content_size ms / 4 in if ltb n 1 then 1 else n

-- `_cost`, in thousandths of the unit of the rate, so that nothing is rounded
unfoldable pub cost : Option ℕ → ℕ → Option ℕ
cost none tokens = none
cost (some rate) tokens = some (rate * tokens)

pub record ModelGateway : Type 0 where
  pub providers : Dict String ProviderConfig
  pub budget : Option TokenCostBudget

-- `self._budget.reserve(...)`, if there is a budget
unfoldable pub reserve_if :
    Option TokenCostBudget → ℕ → Option ℕ → Result GatewayError (Option TokenCostBudget)
reserve_if none tokens c = ok none
reserve_if (some b) tokens c = reserve b tokens c >>= λ b'. ok (some b')

pub record Answer : Type 0 where
  pub result : Result GatewayError (String × Usage)
  pub gateway : ModelGateway
  pub sent : List Request

unfoldable pub mock_text : String
mock_text =
    "[local-mock] Advisory answer generated from redacted context; verify against source evidence."

abbrev mock_usage : ℕ → Usage
mock_usage n = record {
  input_tokens = n;
  output_tokens = 1;
  total_tokens = n + 1;
  estimated = true;
}

-- After the reservation. A configuration is of the mock if its URL starts with mock://.
unfoldable pub answer_with : Network → ProviderConfig → List Message → ModelGateway → Answer
answer_with net config messages g =
    if config.base_url.scheme == "mock"
    then record {
      result = ok (mock_text, mock_usage (estimate_tokens messages));
      gateway = g;
      sent = [];
    }
    else let tried = request net config messages in
      record { result = tried.0; gateway = g; sent = tried.1 }

abbrev refuse : ModelGateway → GatewayError → Answer
refuse g e = record { result = err e; gateway = g; sent = [] }

unfoldable pub with_budget :
    Network
    → ProviderConfig
    → List Message
    → ModelGateway
    → Result GatewayError (Option TokenCostBudget)
    → Answer
with_budget net config messages g (err e) = refuse g e
with_budget net config messages g (ok b) = answer_with net config messages record g { budget = b }

unfoldable pub complete_with :
    Network → Option ProviderConfig → List Message → ModelGateway → Answer
complete_with net none messages g = refuse g request_error
complete_with net (some config) messages g =
    if bad_messages messages
    then refuse g request_error
    else let tokens = estimate_tokens messages + 1 in
      with_budget net config messages g
        (reserve_if g.budget tokens (cost config.cost_per_1k_tokens tokens))

unfoldable pub complete : Network → ModelGateway → String → List Message → Answer
complete net g provider_id messages = complete_with net (get g.providers provider_id) messages g
