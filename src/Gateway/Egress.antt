-- ===== src/Gateway/Egress.antt =====
-- What leaves the process through `ModelGateway.complete` of src/dfir_workbench/model_gateway.py.
use dfir_evidence_workbench.Gateway.Retries.{attempts-IsSettled}
use mathlib.Core.Path.{subst}
use dfir_evidence_workbench.Base.{
  ℕ, zero, suc, ◌+◌, ◌≤◌, ◌==◌, ◌≡◌, refl, sym, ap, ◌∙◌, String, Bool, true, false, not, ◌&&◌, ◌||◌,
  Option, none, some, List, ◌∷◌, All, length, arith,
}
use dfir_evidence_workbench.Base.Dict.{get, string_eq}
use dfir_evidence_workbench.Base.Result.{Result, ok, err, >>=-eq-ok}
use dfir_evidence_workbench.Gateway.Config.{GatewayError, ProviderConfig, is_set}
use dfir_evidence_workbench.Gateway.Budget.{TokenCostBudget, reserve, IsWithin, kept-IsWithin, kept}
use dfir_evidence_workbench.Gateway.Completion.{
  Network, Message, Request, ModelGateway, Answer, complete, complete_with, with_budget,
  answer_with, reserve_if, request, attempts, refused_destination, api_key, request_for,
  estimate_tokens, cost, bad_messages, replicate, Reply,
}

abbrev pub IsBudgetWithin : Option TokenCostBudget → Type 0
IsBudgetWithin none = Unit {0}
IsBudgetWithin (some b) = IsWithin b

-- A request to the host of the configuration for its model, with the messages as they were given, and
-- with the secret of the provider as its bearer token if there is one.
pub record IsRequestOf (net : Network) (config : ProviderConfig) (messages : List Message)
    (r : Request) : Type 0 where
  pub url_is : r.url ≡ config.base_url
  pub model_is : r.model ≡ config.model
  pub limit_is : r.max_tokens ≡ config.max_output_tokens
  pub messages_are : r.messages ≡ messages
  pub with_secret :
      is_set (api_key net config.secret_ref) ≡ true → r.bearer ≡ api_key net config.secret_ref
  pub without_secret : is_set (api_key net config.secret_ref) ≡ false → r.bearer ≡ none

-- What holds when requests have left: where they go, what they carry, how many they are, and what
-- was reserved for them.
pub record IsCleared (net : Network) (g : ModelGateway) (config : ProviderConfig)
    (messages : List Message) (sent : List Request) : Type 0 where
  pub messages_valid : bad_messages messages ≡ false
  pub destination : refused_destination net config.base_url ≡ false
  pub authorized : config.external ≡ true → is_set (api_key net config.secret_ref) ≡ true
  pub bound : length sent ≤ suc config.max_retries
  pub addressed : All (IsRequestOf net config messages) sent
  pub budget : Option TokenCostBudget
  pub reserved :
      reserve_if g.budget
        (estimate_tokens messages + 1)
        (cost config.cost_per_1k_tokens (estimate_tokens messages + 1))
      ≡ ok budget

length-replicate : (n : ℕ) (r : Request) → length (replicate n r) ≡ n
length-replicate zero r = refl
length-replicate (suc n) r = ap suc (length-replicate n r)

attempts-bound : (reply : ℕ → Reply) (n : ℕ) → (attempts reply 0 (suc n)).1 ≤ suc n
attempts-bound reply n = let s = (attempts-IsSettled reply 0 n).1 in omega (arith, s.sent, s.bound)

pub record IsPermitted (net : Network) (config : ProviderConfig) (messages : List Message)
    (sent : List Request) : Type 0 where
  pub destination : refused_destination net config.base_url ≡ false
  pub authorized : config.external ≡ true → is_set (api_key net config.secret_ref) ≡ true
  pub bound : length sent ≤ suc config.max_retries
  pub addressed : All (IsRequestOf net config messages) sent

request_for-IsRequestOf :
    (net : Network) (config : ProviderConfig) (messages : List Message)
    → IsRequestOf net config messages (request_for net config messages)
request_for-IsRequestOf net config messages = record {
  url_is = refl;
  model_is = refl;
  limit_is = refl;
  messages_are = refl;
  with_secret = λ h. rw h refl;
  without_secret = λ h. rw h refl;
}

All-replicate : (P : Request → Type 0) (n : ℕ) (r : Request) → P r → All P (replicate n r)
All-replicate P zero r h = tt
All-replicate P (suc n) r h = (h, All-replicate P n r h)

guard : (d e k : Bool) → (d || (e && not k)) ≡ false → (d ≡ false) × (e ≡ true → k ≡ true)
guard false true true h = (refl, λ p. refl)
guard false true false h = cc
guard false false k h = (refl, λ p. cc)
guard true e k h = cc

module _ (net : Network) (config : ProviderConfig) (messages : List Message) where
  request_at :
      (b : Bool)
      → (refused_destination net config.base_url
          || (config.external && not (is_set (api_key net config.secret_ref))))
        ≡ b
      → (r : Request) (rs : List Request) → (request net config messages).1 ≡ r ∷ rs
      → IsPermitted net config messages ((request net config messages).1)
  unfolding request
  request_at true h r rs e = cc
  request_at false h r rs e =
      let tests =
        guard (refused_destination net config.base_url) config.external
          (is_set (api_key net config.secret_ref)) h in
      let req = request_for net config messages in
      record {
        destination = tests.0;
        authorized = tests.1;
        bound =
            rw (h, length-replicate ((attempts (net.reply req) 0 (suc config.max_retries)).1) req)
              (attempts-bound (net.reply req) config.max_retries);
        addressed = rw h (
            All-replicate (IsRequestOf net config messages)
              ((attempts (net.reply req) 0 (suc config.max_retries)).1) req
              (request_for-IsRequestOf net config messages));
      }

  request-IsPermitted :
      (r : Request) (rs : List Request)
      → (request net config messages).1 ≡ r ∷ rs
      → IsPermitted net config messages ((request net config messages).1)
  request-IsPermitted =
      request_at
        (refused_destination net config.base_url
          || (config.external && not (is_set (api_key net config.secret_ref))))
        refl

  answer_with_at :
      (b : Bool) (g : ModelGateway) (r : Request) (rs : List Request)
      → (config.base_url.scheme == "mock") ≡ b
      → (answer_with net config messages g).sent ≡ r ∷ rs
      → IsPermitted net config messages (answer_with net config messages g).sent
  unfolding answer_with
  answer_with_at true g r rs h e = cc
  answer_with_at false g r rs h e = rw h (request-IsPermitted r rs (sym (rw h refl) ∙ e))

  with_budget_at :
      (g : ModelGateway) (m : Result GatewayError (Option TokenCostBudget))
      → (r : Request) (rs : List Request) → (with_budget net config messages g m).sent ≡ r ∷ rs
      → (b : Option TokenCostBudget) × (m ≡ ok b)
        × IsPermitted net config messages (with_budget net config messages g m).sent
  unfolding with_budget
  with_budget_at g (err x) r rs e = cc
  with_budget_at g (ok b) r rs e = (
    b,
    refl,
    answer_with_at (config.base_url.scheme == "mock") record g { budget = b } r rs refl e,
  )

  complete_with_at :
      (v : Bool) (g : ModelGateway) (r : Request) (rs : List Request)
      → bad_messages messages ≡ v
      → (complete_with net (some config) messages g).sent ≡ r ∷ rs
      → IsCleared net g config messages (complete_with net (some config) messages g).sent
  unfolding complete_with
  complete_with_at true g r rs h e = cc
  complete_with_at false g r rs h e =
      let tokens = estimate_tokens messages + 1 in
      let m = reserve_if g.budget tokens (cost config.cost_per_1k_tokens tokens) in
      let t = with_budget_at g m r rs (sym (rw h refl) ∙ e) in
      rw h record {
        messages_valid = h;
        destination = (t.2).destination;
        authorized = (t.2).authorized;
        bound = (t.2).bound;
        addressed = (t.2).addressed;
        budget = t.0;
        reserved = t.1;
      }

found-IsCleared :
    (net : Network) (g : ModelGateway) (messages : List Message) (o : Option ProviderConfig)
    → (r : Request) (rs : List Request) → (complete_with net o messages g).sent ≡ r ∷ rs
    → (config : ProviderConfig) × (o ≡ some config)
      × IsCleared net g config messages (complete_with net o messages g).sent
unfolding complete_with
found-IsCleared net g messages none r rs e = cc
found-IsCleared net g messages (some config) r rs e =
    (config, refl, complete_with_at net config messages (bad_messages messages) g r rs refl e)

-- Requests leave only for a registered provider with valid messages, to a host that resolved to
-- addresses none of which is blocked, with a secret if the provider is external, after the tokens
-- and their cost were reserved; there are at most `max_retries + 1` of them, and each goes to the URL of
-- the provider with its model and limit, the messages, and the secret as bearer token if there is one.
pub complete-IsCleared :
    (net : Network) (g : ModelGateway) (provider_id : String) (messages : List Message)
    → (r : Request) (rs : List Request) → (complete net g provider_id messages).sent ≡ r ∷ rs
    → (config : ProviderConfig) × (get g.providers provider_id ≡ some config)
      × IsCleared net g config messages (complete net g provider_id messages).sent
unfolding complete
complete-IsCleared net g provider_id messages r rs e =
    found-IsCleared net g messages (get g.providers provider_id) r rs e

abbrev IsGranted : Result GatewayError (Option TokenCostBudget) → Type 0
IsGranted (ok b) = IsBudgetWithin b
IsGranted (err x) = Unit {0}

reserve_if-IsBudgetWithin :
    (b c : Option TokenCostBudget) (tokens : ℕ) (price : Option ℕ)
    → reserve_if b tokens price ≡ ok c
    → IsBudgetWithin b
    → IsBudgetWithin c
unfolding reserve_if kept
reserve_if-IsBudgetWithin none none tokens price h w = tt
reserve_if-IsBudgetWithin none (some c) tokens price h w = cc
reserve_if-IsBudgetWithin (some b) c tokens price h w =
    let r = >>=-eq-ok (reserve b tokens price) _ h in
    let w' = kept-IsWithin b tokens price w in
    subst IsGranted (r.2) (subst (λ x. IsWithin (kept b x)) (r.1) w')

module _ (net : Network) (messages : List Message) (g : ModelGateway)
    (w : IsBudgetWithin g.budget) where
  abbrev IsKept : Answer → Type 0
  IsKept a = IsBudgetWithin a.gateway.budget × (a.gateway.providers ≡ g.providers)

  answered :
      (config : ProviderConfig) (b : Option TokenCostBudget) (v : Bool)
      → IsBudgetWithin b
      → (config.base_url.scheme == "mock") ≡ v
      → IsKept (answer_with net config messages record g { budget = b })
  unfolding answer_with
  answered config b true w h = rw h (w, refl)
  answered config b false w h = rw h (w, refl)

  budgeted :
      (config : ProviderConfig) (tokens : ℕ) (price : Option ℕ)
      → (m : Result GatewayError (Option TokenCostBudget)) → reserve_if g.budget tokens price ≡ m
      → IsKept (with_budget net config messages g m)
  unfolding with_budget
  budgeted config tokens price (err x) h = (w, refl)
  budgeted config tokens price (ok b) h =
      answered config b (config.base_url.scheme == "mock")
        (reserve_if-IsBudgetWithin g.budget b tokens price h w) refl

  found-IsKept :
      (o : Option ProviderConfig) (v : Bool)
      → bad_messages messages ≡ v
      → IsKept (complete_with net o messages g)
  unfolding complete_with
  found-IsKept none v h = (w, refl)
  found-IsKept (some config) true h = rw h (w, refl)
  found-IsKept (some config) false h =
      let tokens = estimate_tokens messages + 1 in
      rw h (budgeted config tokens (cost config.cost_per_1k_tokens tokens) _ refl)

-- A completion keeps the budget of its gateway within its limits, and the providers as they are,
-- whatever the provider, the messages and the network.
complete-IsBudgetWithin :
    (net : Network) (g : ModelGateway) (provider_id : String) (messages : List Message)
    → IsBudgetWithin g.budget
    → IsBudgetWithin (complete net g provider_id messages).gateway.budget
      × ((complete net g provider_id messages).gateway.providers ≡ g.providers)
unfolding complete
complete-IsBudgetWithin net g provider_id messages w =
    found-IsKept net messages g w (get g.providers provider_id) (bad_messages messages) refl
