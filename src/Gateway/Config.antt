-- ===== src/Gateway/Config.antt =====
-- `ProviderConfig` and the checks of provider URLs in src/dfir_workbench/model_gateway.py. A URL
-- stands as what `urlsplit` and `ipaddress` read from it, timeouts in milliseconds and rates in
-- millionths, so that the floats of the source are natural numbers here.
use Prim.Native.String.{String}
use dfir_evidence_workbench.Base.{
  ℕ, ◌≤◌, ◌==◌, ◌≡◌, refl, sym, ap, eq_iff, Bool, true, false, not, ◌&&◌, ◌||◌, Option, none, some,
  length, all, leb, ltb, eqb, arith,
}
use dfir_evidence_workbench.Base.Text.{codes, or_text}
use dfir_evidence_workbench.Base.Result.{Result, ok, ◌>>◌, raise_if, raise_if-ok, >>=-eq-ok}

-- What `_blocked_ip` asks of an address.
pub record IpAddress : Type 0 where
  pub is_private : Bool
  pub is_loopback : Bool
  pub is_link_local : Bool
  pub is_multicast : Bool
  pub is_reserved : Bool
  pub is_unspecified : Bool

unfoldable pub blocked_ip : IpAddress → Bool
blocked_ip ip =
    ip.is_private || ip.is_loopback || ip.is_link_local || ip.is_multicast || ip.is_reserved
    || ip.is_unspecified

-- `urlsplit(value)`, its host lowered, and the host's address if it is one.
pub record Url : Type 0 where
  pub scheme : String
  pub username : Option String
  pub password : Option String
  pub query : String
  pub fragment : String
  pub hostname : Option String
  pub port : Option ℕ
  pub address : Option IpAddress

-- The errors of the gateway, as far as callers tell them apart.
pub data GatewayError : Type 0 where
  configuration_error request_error budget_exceeded : GatewayError

abbrev pub is_set : Option String → Bool
is_set o = not (or_text o "" == "")

abbrev bad_port : Option ℕ → Bool
bad_port none = false
bad_port (some p) = not (eqb p 0) && not (leb 1 p && leb p 65535)

abbrev blocked_address : Option IpAddress → Bool
blocked_address none = false
blocked_address (some ip) = blocked_ip ip

abbrev has_extras : Url → Bool
has_extras url =
    is_set url.username
    || is_set url.password
    || not (url.query == "")
    || not (url.fragment == "")
    || not (is_set url.hostname)

abbrev is_localhost : Url → Bool
is_localhost url =
    or_text url.hostname "" == "localhost" || or_text url.hostname "" == "localhost.localdomain"

unfoldable pub validate_url : Url → Bool → Result GatewayError (Unit {0})
validate_url url external = do
  raise_if (has_extras url) configuration_error
  raise_if (external && is_localhost url) configuration_error
  raise_if (external && not (url.scheme == "https")) configuration_error
  raise_if (not external && not (url.scheme == "mock")) configuration_error
  raise_if (bad_port url.port) configuration_error
  raise_if (blocked_address url.address) configuration_error
  ok tt

pub record ProviderConfig : Type 0 where
  pub provider_id : String
  pub base_url : Url
  pub model : String
  pub timeout_ms : ℕ
  pub max_retries : ℕ
  pub max_output_tokens : ℕ
  pub secret_ref : Option String
  pub external : Bool
  pub cost_per_1k_tokens : Option ℕ
  pub policy_id : String

-- abcdefghijklmnopqrstuvwxyz0123456789-_
abbrev is_id_char : ℕ → Bool
is_id_char c = (leb b'a' c && leb c b'z') || (leb b'0' c && leb c b'9') || eqb c b'-' || eqb c b'_'

abbrev bad_id : String → Bool
bad_id s = s == "" || not (all is_id_char (codes s))

abbrev bad_model : String → Bool
bad_model s = s == "" || ltb 200 (length (codes s))

abbrev is_outside : ℕ → ℕ → ℕ → Bool
is_outside lo hi n = not (leb lo n && leb n hi)

-- `__post_init__`: a configuration that is refused is never constructed. A rate is a natural
-- number, so the check that it is not negative is left out.
unfoldable pub post_init : ProviderConfig → Result GatewayError (Unit {0})
post_init c = do
  raise_if (bad_id c.provider_id) configuration_error
  raise_if (bad_model c.model) configuration_error
  raise_if (is_outside 100 30000 c.timeout_ms) configuration_error
  raise_if (is_outside 0 3 c.max_retries) configuration_error
  raise_if (is_outside 1 2000 c.max_output_tokens) configuration_error
  validate_url c.base_url c.external
  raise_if (c.external && not (is_set c.secret_ref)) configuration_error
  ok tt

-- What a configuration that was constructed promises.
pub record IsAllowed (c : ProviderConfig) : Type 0 where
  pub timeout : (100 ≤ c.timeout_ms) × (c.timeout_ms ≤ 30000)
  pub retries : c.max_retries ≤ 3
  pub tokens : (1 ≤ c.max_output_tokens) × (c.max_output_tokens ≤ 2000)
  pub https : c.external ≡ true → c.base_url.scheme ≡ "https"
  pub mock : c.external ≡ false → c.base_url.scheme ≡ "mock"
  pub secret : c.external ≡ true → is_set c.secret_ref ≡ true
  pub address : (ip : IpAddress) → c.base_url.address ≡ some ip → blocked_ip ip ≡ false

inside : (lo hi n : ℕ) → is_outside lo hi n ≡ false → (lo ≤ n) × (n ≤ hi)
inside lo hi n h = ground arith

demanded : (a b : Bool) → (a && not b) ≡ false → a ≡ true → b ≡ true
demanded true true h e = refl
demanded true false h e = cc
demanded false b h e = cc

module _ (u : Url) (external : Bool) (h : validate_url u external ≡ ok tt) where
  accepted_tests :
      ((external && not (u.scheme == "https")) ≡ false)
      × ((not external && not (u.scheme == "mock")) ≡ false)
      × (blocked_address u.address ≡ false)
  unfolding validate_url
  accepted_tests =
      let e = configuration_error in
      let h1 = (raise_if-ok (has_extras u) e _ h).1 in
      let h2 = (raise_if-ok (external && is_localhost u) e _ h1).1 in
      let h3 = raise_if-ok (external && not (u.scheme == "https")) e _ h2 in
      let h4 = raise_if-ok (not external && not (u.scheme == "mock")) e _ h3.1 in
      let h5 = (raise_if-ok (bad_port u.port) e _ h4.1).1 in
      (h3.0, h4.0, (raise_if-ok (blocked_address u.address) e (ok tt) h5).0)

  validate_url-https : external ≡ true → u.scheme ≡ "https"
  validate_url-https e =
      (eq_iff u.scheme "https").0 (demanded external (u.scheme == "https") accepted_tests.0 e)

  validate_url-mock : external ≡ false → u.scheme ≡ "mock"
  validate_url-mock e =
      (eq_iff u.scheme "mock").0
        (demanded (not external) (u.scheme == "mock") accepted_tests.1 (rw e refl))

  validate_url-address : (ip : IpAddress) → u.address ≡ some ip → blocked_ip ip ≡ false
  validate_url-address ip e = rw (sym (ap blocked_address e)) accepted_tests.2

-- An accepted configuration has its timeout, retries and output tokens in range, goes out over
-- HTTPS with a secret or stays with the mock, and names no blocked address.
post_init-IsAllowed : (c : ProviderConfig) → post_init c ≡ ok tt → IsAllowed c
unfolding post_init
post_init-IsAllowed c h =
    let e = configuration_error in
    let h1 = (raise_if-ok (bad_id c.provider_id) e _ h).1 in
    let h2 = (raise_if-ok (bad_model c.model) e _ h1).1 in
    let h3 = raise_if-ok (is_outside 100 30000 c.timeout_ms) e _ h2 in
    let h4 = raise_if-ok (is_outside 0 3 c.max_retries) e _ h3.1 in
    let h5 = raise_if-ok (is_outside 1 2000 c.max_output_tokens) e _ h4.1 in
    let url = >>=-eq-ok (validate_url c.base_url c.external) _ h5.1 in
    let secret = (raise_if-ok (c.external && not (is_set c.secret_ref)) e (ok tt) url.2).0 in
    record {
      timeout = inside 100 30000 c.timeout_ms h3.0;
      retries = (inside 0 3 c.max_retries h4.0).1;
      tokens = inside 1 2000 c.max_output_tokens h5.0;
      https = validate_url-https c.base_url c.external url.1;
      mock = validate_url-mock c.base_url c.external url.1;
      secret = λ e. demanded c.external (is_set c.secret_ref) secret e;
      address = validate_url-address c.base_url c.external url.1;
    }
