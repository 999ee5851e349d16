-- ===== src/Api/Requests.antt =====
-- What the AI routes of src/dfir_workbench/api.py keep: the requests of a tenant until they expire, and
-- the requests of an analyst within the last hour. A call takes one instant, given in seconds.
pub mod Rate
use dfir_evidence_workbench.Base.{
  ℕ, ◌-◌, String, ◌==◌, ◌≡◌, ◌↔◌, Bool, true, false, not, ◌&&◌, ◌||◌, Option, none, some, List, [],
  ◌∷◌, ◌++◌, any, keep, leb, ltb, length, arith, eq_iff, if◌then◌else◌,
}
use dfir_evidence_workbench.Base.Dict.{Dict, Eq, get, put, string_eq}
use dfir_evidence_workbench.Base.Json.{
  Json, null, boolean, integer, float, str, array, object, Fields, end, field, value, has_key,
}
use dfir_evidence_workbench.Base.Result.{Result, ok, err, ◌>>=◌, ◌>>◌, raise_if}
use dfir_evidence_workbench.Redaction.{Prompt, Site, ContextError}
use dfir_evidence_workbench.Context.{Package, build_context}
use dfir_evidence_workbench.Gateway.Config.{GatewayError}
use dfir_evidence_workbench.Gateway.Completion.{
  Message, Network, ModelGateway, Usage, Answer, complete,
}
use dfir_evidence_workbench.Api.Tokens.{HttpException}
use dfir_evidence_workbench.Api.Auth.{Principal}

abbrev pub Key : Type 0
Key = String × String

abbrev pub same_key : Key → Key → Bool
same_key (a, b) (c, d) = a == c && b == d

pub same_key_iff : (j k : Key) → (same_key j k ≡ true) ↔ (j ≡ k)
same_key_iff (a, b) (c, d) =
    (λ h. ground (arith, eq_iff a c, eq_iff b d), λ h. ground (arith, eq_iff a c, eq_iff b d))

instance abbrev pub key_eq : Eq Key
key_eq = record { beq = same_key; beq_iff = same_key_iff }

pub record Approval : Type 0 where
  pub target : String
  pub approved_by : String

-- `status` is "completed" from the start.
pub record AiRequest : Type 0 where
  pub request_id : String
  pub tenant_id : String
  pub analyst_id : String
  pub created_at_epoch : ℕ
  pub case_id : String
  pub built : Package
  pub answer : String
  pub usage : Usage
  pub approval : Option Approval

pub record Asking : Type 0 where
  pub requests : Dict String (Dict String AiRequest)
  pub rate : Dict Key (List ℕ)
  pub in_flight : List Key
  pub gateway : ModelGateway

abbrev pub ttl : ℕ
ttl = 3600

abbrev pub rate_limit : ℕ
rate_limit = 20

abbrev pub rate_window : ℕ
rate_window = 3600

abbrev pub is_expired : ℕ → AiRequest → Bool
is_expired now r = ltb ttl (now - r.created_at_epoch)

unfoldable pub fresh : ℕ → Dict String AiRequest → Dict String AiRequest
fresh now [] = []
fresh now ((id, r) ∷ rs) =
    let rest = fresh now rs in if is_expired now r then rest else (id, r) ∷ rest

abbrev pub with_tenant :
    String
    → Dict String AiRequest
    → Dict String (Dict String AiRequest)
    → Dict String (Dict String AiRequest)
with_tenant tenant [] ts = ts
with_tenant tenant (r ∷ rs) ts = (tenant, r ∷ rs) ∷ ts

-- `_purge_ai_requests`
unfoldable pub purged :
    ℕ → Dict String (Dict String AiRequest) → Dict String (Dict String AiRequest)
purged now [] = []
purged now ((tenant, rs) ∷ ts) = with_tenant tenant (fresh now rs) (purged now ts)

abbrev pub purge : ℕ → Asking → Asking
purge now s = record s { requests = purged now s.requests }

-- `timestamps.popleft()` while the first is old
unfoldable pub drop_old : ℕ → List ℕ → List ℕ
drop_old now [] = []
drop_old now (t ∷ ts) =
    let rest = drop_old now ts in if leb rate_window (now - t) then rest else t ∷ ts

abbrev pub or_empty : {A : Type 0} → Option (List A) → List A
or_empty none = []
or_empty (some l) = l

abbrev pub admit : ℕ → Key → List ℕ → Asking → Bool × Asking
admit now key ts s =
    if leb rate_limit (length ts) then (false, record s { rate = put s.rate key ts }) else (
      true,
      record s { rate = put s.rate key (ts ++ (now ∷ [])); in_flight = key ∷ s.in_flight },
    )

-- whether a slot is reserved
unfoldable pub begin_ai_request : ℕ → Key → Asking → Bool × Asking
begin_ai_request now key s =
    if any (same_key key) s.in_flight
    then (false, s)
    else admit now key (drop_old now (or_empty (get s.rate key))) s

unfoldable pub end_ai_request : Key → Asking → Asking
end_ai_request key s = record s { in_flight = keep (λ k. not (same_key key k)) s.in_flight }
