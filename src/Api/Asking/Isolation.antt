-- ===== src/Api/Asking/Isolation.antt =====
-- What other tenants can do to a request of src/dfir_workbench/api.py: nothing.
use dfir_evidence_workbench.Base.{
  ℕ, ◌+◌, ◌-◌, ◌≤◌, ◌==◌, ◌≡◌, refl, ap, ◌∙◌, String, Bool, true, false, Option, none, some, List,
  [], ◌∷◌, ltb, arith, Bool-cases, inl, inr, if◌then◌else◌,
}
use dfir_evidence_workbench.Base.Dict.{Dict, get, get-put, string_eq}
use dfir_evidence_workbench.Base.Json.{Fields}
use dfir_evidence_workbench.Base.Result.{Result, ok, err}
use dfir_evidence_workbench.Api.Requests.{
  AiRequest, Asking, ttl, is_expired, fresh, with_tenant, purged, purge, or_empty, begin_ai_request,
  end_ai_request, Key,
}
use dfir_evidence_workbench.Context.{Package}
use dfir_evidence_workbench.Gateway.Completion.{Usage}
use dfir_evidence_workbench.Api.Auth.{Principal}
use dfir_evidence_workbench.Api.Asking.{
  Ai, Question, Failure, completed, concluded, begun, asked, question_of, ask_ai, find_request,
  store_request, get_ai_request, approved_by, is_target, approve_ai_request, package_for,
}

pub data Call : Type 0 where
  ask_call : ℕ → String → Principal → Fields → Call
  get_call : ℕ → Principal → String → Call
  approve_call : ℕ → Principal → (id target : String) → Call

unfoldable pub perform : Ai → Call → Asking → Asking
unfolding ask_ai get_ai_request approve_ai_request
perform ai (ask_call now id p payload) s = (ask_ai ai now id p payload s).1
perform ai (get_call now p id) s = (get_ai_request ai now p id s).1
perform ai (approve_call now p id target) s = (approve_ai_request ai now p id target s).1

unfoldable pub serve : Ai → List Call → Asking → Asking
serve ai [] s = s
serve ai (c ∷ cs) s = serve ai cs (perform ai c s)

abbrev caller : Call → Principal
caller (ask_call now id p payload) = p
caller (get_call now p id) = p
caller (approve_call now p id target) = p

abbrev time_of : Call → ℕ
time_of (ask_call now id p payload) = now
time_of (get_call now p id) = now
time_of (approve_call now p id target) = now

-- Calls of other tenants that come before a request expires.
abbrev pub AreForeign : String → AiRequest → List Call → Type 0
AreForeign tenant r [] = Unit {0}
AreForeign tenant r (c ∷ cs) =
    ((caller c).tenant_id == tenant ≡ false)
    × (time_of c ≤ r.created_at_epoch + ttl)
    × AreForeign tenant r cs

fresh-keeps :
    (now : ℕ) (rs : Dict String AiRequest) (id : String) (r : AiRequest)
    → is_expired now r ≡ false
    → get rs id ≡ some r
    → get (fresh now rs) id ≡ some r
unfolding fresh get
fresh-keeps now [] id r live h = h
fresh-keeps now ((j, q) ∷ rs) id r live h = ground (arith, fresh-keeps now rs id r live)

abbrev found : String → String → Dict String (Dict String AiRequest) → Option AiRequest
found tenant id ts = get (or_empty (get ts tenant)) id

with_tenant-own :
    (tenant id : String) (rs : Dict String AiRequest) (ts : Dict String (Dict String AiRequest))
    (r : AiRequest)
    → get rs id ≡ some r
    → (t : String) → t == tenant ≡ true
    → found tenant id (with_tenant t rs ts) ≡ some r
unfolding get
with_tenant-own tenant id [] ts r h t e = cc
with_tenant-own tenant id (q ∷ rs) ts r h t e = rw e h

with_tenant-other :
    (tenant t : String) (rs : Dict String AiRequest) (ts : Dict String (Dict String AiRequest))
    → t == tenant ≡ false
    → get (with_tenant t rs ts) tenant ≡ get ts tenant
unfolding get
with_tenant-other tenant t [] ts e = refl
with_tenant-other tenant t (q ∷ rs) ts e = rw e refl

purged-keeps :
    (now : ℕ) (ts : Dict String (Dict String AiRequest)) (tenant id : String) (r : AiRequest)
    → is_expired now r ≡ false
    → found tenant id ts ≡ some r
    → found tenant id (purged now ts) ≡ some r
unfolding purged get
purged-keeps now [] tenant id r live h = h
purged-keeps now ((t, rs) ∷ ts) tenant id r live h = elim (Bool-cases (t == tenant)) [
  | inl e ↦
      let there : get rs id ≡ some r = rw e at h in
      with_tenant-own tenant id (fresh now rs) (purged now ts) r
        (fresh-keeps now rs id r live there) t e
  | inr e ↦
      let there : found tenant id ts ≡ some r = rw e at h in
      rw (with_tenant-other tenant t (fresh now rs) (purged now ts) e)
        (purged-keeps now ts tenant id r live there)
]

store-other :
    (tenant id other i : String) (q : AiRequest) (s : Asking)
    → other == tenant ≡ false
    → find_request tenant id (store_request other i q s) ≡ find_request tenant id s
store-other tenant id other i q s e = rw (get-put, e) refl

begin-requests :
    (now : ℕ) (k : Key) (s : Asking) → (begin_ai_request now k s).1.requests ≡ s.requests
unfolding begin_ai_request
begin-requests now k s = ground arith

module _ (ai : Ai) (tenant id : String) (r : AiRequest) where
  abbrev Has : Asking → Type 0
  Has s = find_request tenant id s ≡ some r

  if-Has :
      (b : Bool) (x y : Result Failure AiRequest × Asking)
      → Has (x.1)
      → Has (y.1)
      → Has ((if◌then◌else◌ {A = Result Failure AiRequest × Asking} b x y).1)
  if-Has true x y h k = h
  if-Has false x y h k = k

  purge-Has : (now : ℕ) (s : Asking) → now ≤ r.created_at_epoch + ttl → Has s → Has (purge now s)
  purge-Has now s early h =
      purged-keeps now s.requests tenant id r (not_expired (r.created_at_epoch) early) h
    where
      not_expired : (made : ℕ) → now ≤ made + ttl → ltb ttl (now - made) ≡ false
      not_expired made e = ground arith

  concluded-Has :
      (now : ℕ) (i : String) (p : Principal) (case_id : String) (s : Asking)
      → p.tenant_id == tenant ≡ false
      → Has s
      → (m : Result Failure (Package × String × Usage)) → Has ((concluded now i p case_id m s).1)
  concluded-Has now i p case_id s foreign h (err f) = h
  concluded-Has now i p case_id s foreign h (ok (b, text, usage)) =
      store-other tenant id p.tenant_id i _ s foreign ∙ h

  begun-Has :
      (now : ℕ) (i : String) (p : Principal) (selection : Fields) (question case_id : String)
      → p.tenant_id == tenant ≡ false
      → (b : Bool × Asking) → Has (b.1)
      → Has ((begun ai now i p selection question case_id b).1)
  unfolding end_ai_request
  begun-Has now i p selection question case_id foreign (false, s) h = h
  begun-Has now i p selection question case_id foreign (true, s) h =
      let m = completed ai (package_for ai p selection question case_id) s.gateway in
      concluded-Has now i p case_id
        (end_ai_request (p.tenant_id, p.analyst_id) (record s { gateway = m.1 })) foreign h (m.0)

  asked-Has :
      (now : ℕ) (i : String) (p : Principal) (s : Asking)
      → p.tenant_id == tenant ≡ false
      → now ≤ r.created_at_epoch + ttl
      → Has s
      → (q : Option Question) → Has ((asked ai now i p q s).1)
  asked-Has now i p s foreign early h none = h
  asked-Has now i p s foreign early h (some (question, selection, case_id)) =
      let key : Key = (p.tenant_id, p.analyst_id) in
      begun-Has now i p selection question case_id foreign (begin_ai_request now key (purge now s))
        (ap (found tenant id) (begin-requests now key (purge now s)) ∙ purge-Has now s early h)

  approved_by-Has :
      (p : Principal) (i target : String) (s : Asking)
      → p.tenant_id == tenant ≡ false
      → Has s
      → (o : Option AiRequest) → Has ((approved_by p i target o s).1)
  approved_by-Has p i target s foreign h none = h
  approved_by-Has p i target s foreign h (some q) =
      if-Has (is_target target) (_, store_request p.tenant_id i _ s) _
        (store-other tenant id p.tenant_id i _ s foreign ∙ h) h

  perform-Has :
      (c : Call) (s : Asking)
      → (caller c).tenant_id == tenant ≡ false
      → time_of c ≤ r.created_at_epoch + ttl
      → Has s
      → Has (perform ai c s)
  unfolding perform
  perform-Has (ask_call now i p payload) s foreign early h =
      if-Has ai.ai_enabled (asked ai now i p (question_of payload) s) _
        (asked-Has now i p s foreign early h (question_of payload)) h
  perform-Has (get_call now p i) s foreign early h =
      if-Has ai.ai_enabled (_, purge now s) _ (purge-Has now s early h) h
  perform-Has (approve_call now p i target) s foreign early h =
      if-Has ai.ai_enabled
        (approved_by p i target (find_request p.tenant_id i (purge now s)) (purge now s)) _
        (approved_by-Has p i target (purge now s) foreign (purge-Has now s early h)
          (find_request p.tenant_id i (purge now s)))
        h

-- Calls of other tenants, whatever they ask, read or approve, leave a request as it is until it expires.
pub foreign_calls_keep_request :
    (ai : Ai) (tenant id : String) (r : AiRequest) (calls : List Call) (s : Asking)
    → AreForeign tenant r calls
    → find_request tenant id s ≡ some r
    → find_request tenant id (serve ai calls s) ≡ some r
unfolding serve
foreign_calls_keep_request ai tenant id r [] s f h = h
foreign_calls_keep_request ai tenant id r (c ∷ cs) s f h =
    foreign_calls_keep_request ai tenant id r cs (perform ai c s) (f.2)
      (perform-Has ai tenant id r c s (f.0) (f.1) h)
