-- ===== src/Api/Tokens/Verified.antt =====
-- What a token shows that src/dfir_workbench/api.py accepts.
use mathlib.Core.Path.{subst}
use dfir_evidence_workbench.Base.{
  sym, ◌∙◌, String, ◌≡◌, refl, ap, Bool, true, false, not, ◌&&◌, ◌||◌, Option, none, some, List, [],
  ◌∷◌, inl, inr, Bool-cases, arith, eq_iff,
}
use dfir_evidence_workbench.Base.Strings.{◌<>◌, split}
use dfir_evidence_workbench.Base.Json.{
  Json, null, boolean, integer, float, str, array, object, Items, nil, cons, Fields, end, field,
  value, has_key, as_object,
}
use dfir_evidence_workbench.Base.Result.{
  ok, raise_if, raise_if-passed, raise_if-OnOk, OnOk, >>=-OnOk, OnOk-ok, OnOk-if, OnOk-map,
}
use dfir_evidence_workbench.Api.Tokens.{
  Bytes, Libs, Settings, jwt_error, required, b64url_decode, json_part, same_bytes, is_text,
  same_json, find_key, key_set, number_of, set_secret, set_jwks, hs256, rs256, verify_signature,
  is_number, reached, in_future, is_set_text, any_item, has_audience, is_named, check_claims,
  three_parts, is_dot, verify_jwt,
}

-- A key that is listed.
pub data IsListed (key : Fields) : Items → Type 0 where
  is_first : {ks : Items} → IsListed key (cons (object key) ks)
  is_later : {v : Json} {ks : Items} → IsListed key ks → IsListed key (cons v ks)

-- A signature by the configured secret, or by an RSA key of the configured set that has the `kid` of
-- the header.
pub data IsSigned (libs : Libs) (s : Settings) (header : Fields) (input signature : String)
    : Type 0 where
  by_secret :
      (secret : String) (given : Bytes)
      → value header "alg" ≡ str "HS256"
      → s.oidc_hs256_secret ≡ some secret
      → b64url_decode libs signature ≡ ok given
      → libs.hmac_sha256 secret input ≡ given
      → IsSigned libs s header input signature
  by_key :
      (json : Bytes) (set : Fields) (keys : Items) (key : Fields) (n e given : Bytes)
      → value header "alg" ≡ str "RS256"
      → s.oidc_jwks_json ≡ some json
      → libs.loads json ≡ some (object set)
      → value set "keys" ≡ array keys
      → IsListed key keys
      → same_json libs (value key "kid") (value header "kid") ≡ true
      → value key "kty" ≡ str "RSA"
      → number_of libs (value key "n") ≡ ok n
      → number_of libs (value key "e") ≡ ok e
      → b64url_decode libs signature ≡ ok given
      → libs.rsa_verifies n e given input ≡ true
      → IsSigned libs s header input signature

-- A text, alone or in a list.
pub data Names (t : String) : Json → Type 0 where
  alone : Names t (str t)
  first : {vs : Items} → Names t (array (cons (str t) vs))
  later : {v : Json} {vs : Items} → Names t (array vs) → Names t (array (cons v vs))

abbrev pub IsCurrent : Libs → Settings → Fields → Type 0
IsCurrent libs s claims =
    ((issuer : String) × (s.oidc_issuer ≡ some issuer) × (value claims "iss" ≡ str issuer))
    × ((audience : String) × (s.oidc_audience ≡ some audience)
        × Names audience (value claims "aud"))
    × (is_number (value claims "exp") ≡ true)
    × (reached libs (value claims "exp") ≡ false)
    × (in_future libs (value claims "nbf") ≡ false)

-- A token of three parts, of which the third signs the others, with current claims.
abbrev pub IsToken : Libs → Settings → String → Fields → Type 0
IsToken libs s token claims =
    (head : String) × (body : String) × (signature : String) × (header : Fields) × (split is_dot
        token
      ≡ head ∷ body ∷ signature ∷ [])
    × (json_part libs head ≡ ok (object header))
    × (json_part libs body ≡ ok (object claims))
    × IsSigned libs s header (head <> ("." <> body)) signature
    × IsCurrent libs s claims

is_text-eq : (t : String) (v : Json) → is_text t v ≡ true → v ≡ str t
is_text-eq t (str s) h = ap str ((eq_iff s t).0 h)
is_text-eq t null h = cc
is_text-eq t (boolean b) h = cc
is_text-eq t (integer n) h = cc
is_text-eq t (float f) h = cc
is_text-eq t (array vs) h = cc
is_text-eq t (object fs) h = cc

same_bytes-eq : (a b : Bytes) → same_bytes a b ≡ true → a ≡ b
same_bytes-eq [] [] h = refl
same_bytes-eq [] (y ∷ b) h = cc
same_bytes-eq (x ∷ a) [] h = cc
same_bytes-eq (x ∷ a) (y ∷ b) h = ground (arith, same_bytes-eq a b)

set_secret-eq : (o : Option String) (secret : String) → set_secret o ≡ ok secret → o ≡ some secret
set_secret-eq none secret h = cc
set_secret-eq (some s) secret h = ground arith

pub eq_true_of_not : (b : Bool) → not b ≡ false → b ≡ true
eq_true_of_not true h = refl
eq_true_of_not false h = cc

-- A key of the set for the `kid`.
abbrev IsRsa : Libs → Json → Items → Fields → Type 0
IsRsa libs kid ks key =
    IsListed key ks × (same_json libs (value key "kid") kid ≡ true) × (value key "kty" ≡ str "RSA")

find_key-later :
    (libs : Libs) (kid v : Json) (ks : Items)
    → OnOk (IsRsa libs kid ks) (find_key libs kid ks)
    → OnOk (IsRsa libs kid (cons v ks)) (find_key libs kid ks)
find_key-later libs kid v ks =
    OnOk-map (IsRsa libs kid ks) _ (λ key h. (is_later (h.0), h.1, h.2)) (find_key libs kid ks)

find_key-IsRsa :
    (libs : Libs) (kid : Json) (ks : Items) → OnOk (IsRsa libs kid ks) (find_key libs kid ks)
unfolding find_key
find_key-IsRsa libs kid nil = tt
find_key-IsRsa libs kid (cons (object fs) ks) =
    let rest = find_key-later libs kid (object fs) ks (find_key-IsRsa libs kid ks) in
    OnOk-if (IsRsa libs kid (cons (object fs) ks))
      (same_json libs (value fs "kid") kid && is_text "RSA" (value fs "kty")) _ _
      (λ h. (is_first, ground arith, is_text-eq "RSA" (value fs "kty") (ground arith))) (λ h. rest)
find_key-IsRsa libs kid (cons null ks) = tt
find_key-IsRsa libs kid (cons (boolean b) ks) = tt
find_key-IsRsa libs kid (cons (integer n) ks) = tt
find_key-IsRsa libs kid (cons (float f) ks) = tt
find_key-IsRsa libs kid (cons (str s) ks) = tt
find_key-IsRsa libs kid (cons (array vs) ks) = tt

object_of : (v : Json) {fs : Fields} → required (as_object v) ≡ ok fs → v ≡ object fs
object_of (object gs) h = cc
object_of null h = cc
object_of (boolean b) h = cc
object_of (integer n) h = cc
object_of (float f) h = cc
object_of (str s) h = cc
object_of (array vs) h = cc

set_jwks-eq : (o : Option Bytes) (json : Bytes) → set_jwks o ≡ ok json → o ≡ some json
set_jwks-eq none json h = cc
set_jwks-eq (some []) json h = cc
set_jwks-eq (some (b ∷ bs)) json h = cc

required-eq : {A : Type 0} (o : Option A) {a : A} → required o ≡ ok a → o ≡ some a
required-eq none h = cc
required-eq (some a) h = cc

key_set-eq : (v : Json) {ks : Items} → key_set v ≡ ok ks → v ≡ array ks
key_set-eq (array vs) h = cc
key_set-eq v h = cc

hs256-IsSigned :
    (libs : Libs) (s : Settings) (header : Fields) (input signature : String)
    → value header "alg" ≡ str "HS256"
    → OnOk (λ done. IsSigned libs s header input signature) (hs256 libs s input signature)
hs256-IsSigned libs s header input signature alg =
    >>=-OnOk _ (set_secret s.oidc_hs256_secret) _ λ secret set.
      >>=-OnOk _ (b64url_decode libs signature) _ λ given decoded.
        raise_if-OnOk (not (same_bytes (libs.hmac_sha256 secret input) given)) _ λ same.
          by_secret secret given alg (set_secret-eq s.oidc_hs256_secret secret set) decoded
            (same_bytes-eq _ _ (eq_true_of_not _ same))

rs256-IsSigned :
    (libs : Libs) (s : Settings) (header : Fields) (input signature : String)
    → value header "alg" ≡ str "RS256"
    → OnOk (λ done. IsSigned libs s header input signature) (rs256 libs s header input signature)
rs256-IsSigned libs s header input signature alg =
    >>=-OnOk _ (set_jwks s.oidc_jwks_json) _ λ json configured.
      >>=-OnOk _ (required (libs.loads json)) _ λ jwks loaded.
        >>=-OnOk _ (required (as_object jwks)) _ λ fs set.
          >>=-OnOk _ (key_set (value fs "keys")) _ λ ks keys.
            >>=-OnOk _ (find_key libs (value header "kid") ks) _ λ key found.
              >>=-OnOk _ (number_of libs (value key "n")) _ λ n modulus.
                >>=-OnOk _ (number_of libs (value key "e")) _ λ e exponent.
                  >>=-OnOk _ (b64url_decode libs signature) _ λ given decoded.
                    raise_if-OnOk (not (libs.rsa_verifies n e given input)) _ λ verified.
                      let is_rsa =
                        OnOk-ok (IsRsa libs (value header "kid") ks) _
                          (find_key-IsRsa libs (value header "kid") ks) found in
                      by_key json fs ks key n e given alg
                        (set_jwks-eq s.oidc_jwks_json json configured)
                        (required-eq (libs.loads json) loaded ∙ ap some (object_of jwks set))
                        (key_set-eq (value fs "keys") keys) (is_rsa.0) (is_rsa.1) (is_rsa.2) modulus
                        exponent decoded (eq_true_of_not _ verified)

verify_signature-IsSigned :
    (libs : Libs) (s : Settings) (header : Fields) (input signature : String)
    → OnOk
        (λ done. IsSigned libs s header input signature)
        (verify_signature libs s header input signature)
unfolding verify_signature
verify_signature-IsSigned libs s header input signature =
    OnOk-if _ (is_text "HS256" (value header "alg")) _ _
      (λ h. hs256-IsSigned libs s header input signature (is_text-eq _ _ h))
      λ _.
        OnOk-if _ (is_text "RS256" (value header "alg")) _ _
          (λ h. rs256-IsSigned libs s header input signature (is_text-eq _ _ h)) (λ _. tt)

is_set_text-eq :
    (o : Option String) (v : Json)
    → is_set_text o v ≡ true
    → (t : String) × (o ≡ some t) × (v ≡ str t)
is_set_text-eq none v h = cc
is_set_text-eq (some t) v h = (t, refl, is_text-eq t v h)

any_item-Names : (t : String) (vs : Items) → any_item (is_text t) vs ≡ true → Names t (array vs)
any_item-Names t nil h = cc
any_item-Names t (cons v vs) h = elim (Bool-cases (is_text t v)) [
  | inl e ↦ subst (λ w. Names t (array (cons w vs))) (sym (is_text-eq t v e)) first
  | inr e ↦ later (any_item-Names t vs (ground arith))
]

named : (t : String) (v : Json) → is_text t v ≡ true → Names t v
named t v h = subst (Names t) (sym (is_text-eq t v h)) alone

no_audience : (vs : Items) → any_item (is_set_text none) vs ≡ false
no_audience nil = refl
no_audience (cons v vs) = no_audience vs

has_audience-Names :
    (o : Option String) (v : Json)
    → has_audience o v ≡ true
    → (t : String) × (o ≡ some t) × Names t v
has_audience-Names none (array vs) h = cc (no_audience vs)
has_audience-Names (some t) (array vs) h = (t, refl, any_item-Names t vs h)
has_audience-Names none v h = cc
has_audience-Names (some t) v h = (t, refl, named t v h)

absent-value : (fs : Fields) (k : String) → has_key fs k ≡ false → value fs k ≡ null
unfolding has_key value
absent-value end k h = refl
absent-value (field j v fs) k h = ground (arith, absent-value fs k)

check_claims-IsCurrent :
    (libs : Libs) (s : Settings) (claims : Fields)
    → OnOk (λ done. IsCurrent libs s claims) (check_claims libs s claims)
unfolding check_claims
check_claims-IsCurrent libs s claims =
    >>=-OnOk _ (raise_if (not (is_set_text s.oidc_issuer (value claims "iss"))) jwt_error) _ λ _ a.
      >>=-OnOk _ (raise_if (not (has_audience s.oidc_audience (value claims "aud"))) jwt_error) _
        λ _ b.
          >>=-OnOk _
            (raise_if (not (is_number (value claims "exp")) || reached libs (value claims "exp"))
              jwt_error)
            _
            λ _ c.
              >>=-OnOk _
                (raise_if
                  (has_key claims "nbf"
                    && (not (is_number (value claims "nbf"))
                        || in_future libs (value claims "nbf")))
                  jwt_error)
                _
                λ _ d. raise_if-OnOk (not (is_named (value claims "sub"))) _ λ _. (
                  is_set_text-eq s.oidc_issuer _ (eq_true_of_not _ (raise_if-passed _ _ a)),
                  has_audience-Names s.oidc_audience _ (eq_true_of_not _ (raise_if-passed _ _ b)),
                  number (is_number (value claims "exp")) _ (raise_if-passed _ _ c),
                  unexpired (is_number (value claims "exp")) _ (raise_if-passed _ _ c),
                  begun claims (raise_if-passed _ _ d),
                )
  where
    number : (x y : Bool) → (not x || y) ≡ false → x ≡ true
    number x y h = ground arith

    unexpired : (x y : Bool) → (not x || y) ≡ false → y ≡ false
    unexpired x y h = ground arith

    begun :
        (claims : Fields)
        → (has_key claims "nbf"
            && (not (is_number (value claims "nbf")) || in_future libs (value claims "nbf")))
          ≡ false
        → in_future libs (value claims "nbf") ≡ false
    begun claims h = elim (Bool-cases (has_key claims "nbf")) [
      | inl e ↦ ground arith
      | inr e ↦ rw (absent-value claims "nbf" e) refl
    ]

three_parts-eq :
    (l : List String) {head body signature : String}
    → three_parts l ≡ ok (head, body, signature)
    → l ≡ head ∷ body ∷ signature ∷ []
three_parts-eq [] h = cc
three_parts-eq (a ∷ []) h = cc
three_parts-eq (a ∷ b ∷ []) h = cc
three_parts-eq (a ∷ b ∷ c ∷ []) h = cc
three_parts-eq (a ∷ b ∷ c ∷ d ∷ l) h = cc

pub verify_jwt-IsToken :
    (libs : Libs) (s : Settings) (token : String)
    → OnOk (IsToken libs s token) (verify_jwt libs token s)
unfolding verify_jwt
verify_jwt-IsToken libs s token =
    >>=-OnOk _ (three_parts (split is_dot token)) _ λ (head, body, signature) parts.
      >>=-OnOk _ (json_part libs head) _ λ header_json h.
        >>=-OnOk _ (json_part libs body) _ λ claims_json b.
          >>=-OnOk _ (required (as_object header_json)) _ λ header e.
            >>=-OnOk _ (verify_signature libs s header (head <> ("." <> body)) signature) _ λ _ v.
              >>=-OnOk _ (required (as_object claims_json)) _ λ claims f.
                >>=-OnOk _ (check_claims libs s claims) _ λ _ c. (
                  head,
                  body,
                  signature,
                  header,
                  three_parts-eq _ parts,
                  h ∙ ap ok (object_of header_json e),
                  b ∙ ap ok (object_of claims_json f),
                  OnOk-ok (λ done. IsSigned libs s header (head <> ("." <> body)) signature) _
                      (verify_signature-IsSigned libs s header (head <> ("." <> body)) signature) v,
                  OnOk-ok (λ done. IsCurrent libs s claims) _ (check_claims-IsCurrent libs s claims)
                      c,
                )
