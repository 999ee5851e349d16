-- ===== src/Gateway/Tests.antt =====
-- The gateway on concrete inputs: a provider, a network whose second attempt answers, a budget.
use dfir_evidence_workbench.Base.{
  ℕ, zero, suc, ◌+◌, ◌≤◌, ◌≡◌, refl, true, false, Option, none, some, List, [], ◌∷◌, arith,
}
use dfir_evidence_workbench.Base.Dict.{get, string_eq}
use dfir_evidence_workbench.Base.Result.{ok}
use dfir_evidence_workbench.Gateway.Config.{
  IpAddress, Url, ProviderConfig, post_init, validate_url, blocked_ip,
}
use dfir_evidence_workbench.Gateway.Budget.{
  TokenCostBudget, new_budget, IsWithin, reserve, reserve_all, granted_all, granted_costs, granted,
  kept, reserve_all-IsWithin,
}
use dfir_evidence_workbench.Gateway.Completion.{
  Network, Message, Request, Reply, answered, http_error, absent, number, ModelGateway, complete,
  complete_with, with_budget, answer_with, reserve_if, request, attempts, is_transient, outcome,
  parse_response, refused_destination, api_key, estimate_tokens, cost, request_for,
}
use dfir_evidence_workbench.Gateway.Retries.{IsSettled, attempts-IsSettled}
use dfir_evidence_workbench.Gateway.Egress.{IsCleared, complete-IsCleared}

abbrev public_ip : IpAddress
public_ip = record {
  is_private = false;
  is_loopback = false;
  is_link_local = false;
  is_multicast = false;
  is_reserved = false;
  is_unspecified = false;
}

abbrev loopback_ip : IpAddress
loopback_ip = record public_ip { is_loopback = true }

abbrev url : Url
url = record {
  scheme = "https";
  username = none;
  password = none;
  query = "";
  fragment = "";
  hostname = some "llm.example.org";
  port = none;
  address = none;
}

abbrev provider : ProviderConfig
provider = record {
  provider_id = "llm";
  base_url = url;
  model = "m1";
  timeout_ms = 15000;
  max_retries = 1;
  max_output_tokens = 2000;
  secret_ref = some "llm-key";
  external = true;
  cost_per_1k_tokens = some 2;
  policy_id = "default";
}

abbrev budget : TokenCostBudget
budget = new_budget 100 (some 50)

abbrev gateway : ModelGateway
gateway = record { providers = ("llm", provider) ∷ []; budget = some budget }

abbrev reply : ℕ → Reply
reply zero = http_error 503
reply (suc n) = answered record {
  size = 64;
  content = some "fine";
  prompt_tokens = number 3;
  completion_tokens = absent;
  total_tokens = absent;
}

abbrev network : List (Option IpAddress) → Network
network addresses = record {
  resolve = λ host port. some addresses;
  secret_resolver = some (λ r. some "s3cret");
  reply = λ r. reply;
}

abbrev messages : List Message
messages = record { role = some "user"; content = some "what ran on host A?" } ∷ []

runs : Unit {0}
unfolding post_init validate_url blocked_ip reserve reserve_all granted_all granted kept complete
    complete_with with_budget answer_with reserve_if request attempts is_transient outcome
    parse_response refused_destination api_key estimate_tokens cost get
runs = tt

abbrev req : Request
req = request_for (network (some public_ip ∷ [])) provider messages

accepted : post_init provider ≡ ok tt
unfolding post_init validate_url blocked_ip
accepted = refl

answered_second :
    (complete (network (some public_ip ∷ [])) gateway "llm" messages).sent ≡ req ∷ req ∷ []
unfolding runs api_key
answered_second = refl

private_address_sends_nothing :
    (complete (network (some loopback_ip ∷ [])) gateway "llm" messages).sent ≡ []
unfolding runs api_key
private_address_sends_nothing = refl

budget-IsWithin : IsWithin budget
budget-IsWithin = record { tokens_bound = omega arith; cost_bound = omega arith }

reserve_all-IsWithin_example :
    IsWithin (reserve_all budget ((60, some 20) ∷ (60, some 20) ∷ (40, none) ∷ []))
    × ((reserve_all budget ((60, some 20) ∷ (60, some 20) ∷ (40, none) ∷ [])).tokens
        ≡ 0 + granted_all budget ((60, some 20) ∷ (60, some 20) ∷ (40, none) ∷ []))
    × (0 + granted_all budget ((60, some 20) ∷ (60, some 20) ∷ (40, none) ∷ []) ≤ 100)
    × ((reserve_all budget ((60, some 20) ∷ (60, some 20) ∷ (40, none) ∷ [])).cost
        ≡ 0 + granted_costs budget ((60, some 20) ∷ (60, some 20) ∷ (40, none) ∷ []))
reserve_all-IsWithin_example =
    reserve_all-IsWithin budget ((60, some 20) ∷ (60, some 20) ∷ (40, none) ∷ []) budget-IsWithin

attempts-IsSettled_example : (last : ℕ) × IsSettled reply 0 2 last
attempts-IsSettled_example = attempts-IsSettled reply 0 1

complete-IsCleared_example :
    (config : ProviderConfig) × (get gateway.providers "llm" ≡ some config)
    × IsCleared
        (network (some public_ip ∷ []))
        gateway
        config
        messages
        (complete (network (some public_ip ∷ [])) gateway "llm" messages).sent
complete-IsCleared_example =
    complete-IsCleared (network (some public_ip ∷ [])) gateway "llm" messages req (req ∷ [])
      answered_second
