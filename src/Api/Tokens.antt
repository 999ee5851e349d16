-- ===== src/Api/Tokens.antt =====
-- `_verify_jwt` of src/dfir_workbench/api.py. Bytes are lists of numbers. Base64, json.loads, HMAC, RSA,
-- `==` on JSON values that are neither texts nor None, and the order of floats are parameters, as is
-- the clock.
pub mod Verified
use dfir_evidence_workbench.Base.{
  ℕ, zero, suc, ◌+◌, ◌-◌, ◌%◌, String, ◌==◌, Bool, true, false, not, ◌&&◌, ◌||◌, Option, none, some,
  List, [], ◌∷◌, any, all, keep, leb, ltb, eqb, length, if◌then◌else◌,
}
use Prim.Native.Char.{code}
use Prim.Native.String
use dfir_evidence_workbench.Base.Text.{codes, is_space}
use dfir_evidence_workbench.Base.Strings.{◌<>◌, split, lower_text, pos, negsuc}
use dfir_evidence_workbench.Base.Json.{
  Json, null, boolean, integer, float, str, array, object, Float, Items, nil, cons, Fields, value,
  has_key, ◌or◌, as_object,
}
use dfir_evidence_workbench.Base.Result.{Result, ok, err, ◌>>=◌, ◌>>◌, raise_if}

abbrev pub Bytes : Type 0
Bytes = List ℕ

pub record Libs : Type 0 where
  -- base64.urlsafe_b64decode and json.loads, `none` where they raise
  pub b64decode : String → Option Bytes
  pub loads : Bytes → Option Json
  pub hmac_sha256 : (secret input : String) → Bytes
  -- whether a key with this modulus and exponent verifies a signature of a text
  pub rsa_verifies : (n e signature : Bytes) → String → Bool
  pub equals : Json → Json → Bool
  -- `now >= f` and `now < f`
  pub reaches : ℕ → Float → Bool
  pub precedes : ℕ → Float → Bool
  pub now : ℕ

pub record Settings : Type 0 where
  pub env : String
  pub synthetic_tenant : String
  pub oidc_issuer : Option String
  pub oidc_audience : Option String
  pub oidc_hs256_secret : Option String
  pub oidc_jwks_json : Option Bytes

pub record HttpException : Type 0 where
  pub status_code : ℕ
  pub detail : String

abbrev pub jwt_error : HttpException
jwt_error = record { status_code = 401; detail = "invalid bearer token" }

abbrev equals_signs : ℕ → String
equals_signs zero = ""
equals_signs (suc n) = String.◌∷◌ "=" (equals_signs n)

-- `"=" * (-len(value) % 4)` after the value
abbrev pub padded : String → String
padded s = s <> equals_signs ((4 - length (codes s) % 4) % 4)

-- what `_verify_jwt` catches, whatever was raised
abbrev pub required : {A : Type 0} → Option A → Result HttpException A
required none = err jwt_error
required (some a) = ok a

abbrev pub same_bytes : Bytes → Bytes → Bool
same_bytes [] [] = true
same_bytes [] (b ∷ bs) = false
same_bytes (a ∷ as_) [] = false
same_bytes (a ∷ as_) (b ∷ bs) = eqb a b && same_bytes as_ bs

abbrev pub is_text : String → Json → Bool
is_text t (str s) = s == t
is_text t v = false

abbrev pub key_set : Json → Result HttpException Items
key_set (array ks) = ok ks
key_set v = err jwt_error

abbrev pub set_secret : Option String → Result HttpException String
set_secret none = err jwt_error
set_secret (some s) = if s == "" then err jwt_error else ok s

abbrev pub set_jwks : Option Bytes → Result HttpException Bytes
set_jwks none = err jwt_error
set_jwks (some []) = err jwt_error
set_jwks (some (b ∷ bs)) = ok (b ∷ bs)

-- `isinstance(v, (int, float))`, of which `bool` is one
abbrev pub is_number : Json → Bool
is_number (integer n) = true
is_number (float f) = true
is_number (boolean b) = true
is_number v = false

abbrev pub is_set_text : Option String → Json → Bool
is_set_text none v = false
is_set_text (some t) v = is_text t v

abbrev pub any_item : (Json → Bool) → Items → Bool
any_item test nil = false
any_item test (cons v vs) = test v || any_item test vs

abbrev pub has_audience : Option String → Json → Bool
has_audience t (array vs) = any_item (is_set_text t) vs
has_audience t v = is_set_text t v

abbrev pub is_named : Json → Bool
is_named (str s) = not (s == "")
is_named v = false

abbrev pub three_parts : List String → Result HttpException (String × String × String)
three_parts (head ∷ body ∷ signature ∷ []) = ok (head, body, signature)
three_parts parts = err jwt_error

abbrev pub is_dot : ℕ → Bool
is_dot c = eqb c b'.'

module _ (libs : Libs) where
  abbrev pub b64url_decode : String → Result HttpException Bytes
  b64url_decode s = required (libs.b64decode (padded s))

  abbrev pub json_part : String → Result HttpException Json
  json_part s = b64url_decode s >>= λ b. required (libs.loads b)

  -- `a == b`
  abbrev pub same_json : Json → Json → Bool
  same_json (str s) (str t) = s == t
  same_json null null = true
  same_json a b = libs.equals a b

  -- the first key of the set with the id of the header
  unfoldable pub find_key : Json → Items → Result HttpException Fields
  find_key kid nil = err jwt_error
  find_key kid (cons (object fs) ks) =
      let others = find_key kid ks in
      if same_json (value fs "kid") kid && is_text "RSA" (value fs "kty") then ok fs else others
  find_key kid (cons k ks) = err jwt_error

  -- the bytes of a text in base64
  abbrev pub number_of : Json → Result HttpException Bytes
  number_of (str s) = b64url_decode s
  number_of v = err jwt_error

  abbrev pub hs256 : Settings → (input signature : String) → Result HttpException (Unit {0})
  hs256 s input signature = do
    secret ← set_secret s.oidc_hs256_secret
    given ← b64url_decode signature
    raise_if (not (same_bytes (libs.hmac_sha256 secret input) given)) jwt_error

  abbrev pub rs256 :
      Settings → Fields → (input signature : String) → Result HttpException (Unit {0})
  rs256 s header input signature = do
    json ← set_jwks s.oidc_jwks_json
    jwks ← required (libs.loads json)
    fs ← required (as_object jwks)
    ks ← key_set (value fs "keys")
    key ← find_key (value header "kid") ks
    n ← number_of (value key "n")
    e ← number_of (value key "e")
    given ← b64url_decode signature
    raise_if (not (libs.rsa_verifies n e given input)) jwt_error

  unfoldable pub verify_signature :
      Settings → Fields → (input signature : String) → Result HttpException (Unit {0})
  verify_signature s header input signature =
      if is_text "HS256" (value header "alg")
      then hs256 s input signature
      else if is_text "RS256" (value header "alg")
      then rs256 s header input signature
      else err jwt_error

  -- `now >= v`
  abbrev pub reached : Json → Bool
  reached (integer (pos n)) = leb n libs.now
  reached (integer (negsuc n)) = true
  reached (boolean b) = leb (if b then 1 else 0) libs.now
  reached (float f) = libs.reaches libs.now f
  reached v = false

  -- `now < v`
  abbrev pub in_future : Json → Bool
  in_future (integer (pos n)) = ltb libs.now n
  in_future (integer (negsuc n)) = false
  in_future (boolean b) = ltb libs.now (if b then 1 else 0)
  in_future (float f) = libs.precedes libs.now f
  in_future v = false

  unfoldable pub check_claims : Settings → Fields → Result HttpException (Unit {0})
  check_claims s claims = do
    raise_if (not (is_set_text s.oidc_issuer (value claims "iss"))) jwt_error
    raise_if (not (has_audience s.oidc_audience (value claims "aud"))) jwt_error
    raise_if (not (is_number (value claims "exp")) || reached (value claims "exp")) jwt_error
    raise_if
        (has_key claims "nbf"
          && (not (is_number (value claims "nbf")) || in_future (value claims "nbf")))
        jwt_error
    raise_if (not (is_named (value claims "sub"))) jwt_error

  unfoldable pub verify_jwt : String → Settings → Result HttpException Fields
  verify_jwt token s = do
    (head, body, signature) ← three_parts (split is_dot token)
    header_json ← json_part head
    claims_json ← json_part body
    header ← required (as_object header_json)
    verify_signature s header (head <> ("." <> body)) signature
    claims ← required (as_object claims_json)
    check_claims s claims
    ok claims
