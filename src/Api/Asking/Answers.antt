-- ===== src/Api/Asking/Answers.antt =====
-- What a question to the model is answered from in src/dfir_workbench/api.py.
use mathlib.Core.Path.{subst}
use dfir_evidence_workbench.Base.{
  ℕ, ◌==◌, ◌≡◌, refl, String, Bool, true, false, not, ◌||◌, Option, none, some, List, [], ◌∷◌, any,
  keep, arith, if◌then◌else◌,
}
use dfir_evidence_workbench.Base.Dict.{get-put_self, string_eq}
use dfir_evidence_workbench.Base.Json.{Json, str, object, Fields, value}
use dfir_evidence_workbench.Base.Result.{
  Result, ok, err, ◌>>=◌, raise_if, OnOk, >>=-OnOk, OnOk-if, OnOk-ok, OnOk-map,
}
use dfir_evidence_workbench.Redaction.{ContextError}
use dfir_evidence_workbench.Context.{Package, build_context}
use dfir_evidence_workbench.Context.Cleaned.{IsMinimal, build_context-IsMinimal}
use dfir_evidence_workbench.Gateway.Config.{GatewayError}
use dfir_evidence_workbench.Gateway.Completion.{Usage, ModelGateway, complete}
use dfir_evidence_workbench.Api.Requests.{
  AiRequest, Asking, Key, same_key, purge, begin_ai_request, end_ai_request,
}
use dfir_evidence_workbench.Api.Auth.{Principal}
use dfir_evidence_workbench.Api.Asking.{
  Ai, disabled, Question, Failure, rejected, from_database, known_classes, get_or, class_of, id_of,
  is_foreign, or_rejected, synthetic_resource, selection_of, resolve_ai_resource, context_result,
  provider_result, messages_of, package_for, completed, concluded, begun, asked, question_of,
  texts_of, ask_ai, find_request,
}

module _ (ai : Ai) (p : Principal) where
  -- A selection of the server's own resource for the tenant and the case, of the class and the id
  -- that were asked for.
  abbrev pub IsOwnResource : Fields → String → Fields → Type 0
  IsOwnResource wish case_id selection =
      (class : String) × (id : String) × (fs : Fields) × (class_of
          (get_or wish "resource_class" (value wish "class"))
        ≡ ok class)
      × (id_of (get_or wish "resource_id" (value wish "id")) ≡ ok id)
      × (synthetic_resource p.tenant_id case_id class id ≡ some fs)
      × (selection ≡ selection_of class id p.tenant_id case_id fs)

  abbrev pub IsResolved : Fields → String → Fields → Type 0
  IsResolved wish case_id selection =
      (ai.is_uuid p.tenant_id ≡ false) × IsOwnResource wish case_id selection

  from_database-fails : (P : Fields → Type 0) (class : String) → OnOk P (from_database ai class)
  from_database-fails P class =
      OnOk-if P (not ai.has_pool) _ _ (λ _. tt)
        λ _. OnOk-if P (any (λ c. c == class) known_classes) _ _ (λ _. tt) (λ _. tt)

  or_rejected-eq : (o : Option Fields) → OnOk (λ fs. o ≡ some fs) (or_rejected o)
  or_rejected-eq none = tt
  or_rejected-eq (some fs) = refl

  -- Only the synthetic store answers.
  source-OnOk :
      (case_id class id : String)
      → OnOk
          (λ fs.
            (ai.is_uuid p.tenant_id ≡ false)
            × (synthetic_resource p.tenant_id case_id class id ≡ some fs))
          (if ai.is_uuid p.tenant_id
            then from_database ai class
            else or_rejected (synthetic_resource p.tenant_id case_id class id))
  source-OnOk case_id class id =
      OnOk-if _ (ai.is_uuid p.tenant_id) _ _ (λ _. from_database-fails _ class)
        λ e.
          OnOk-map _ _ (λ fs h. (e, h))
            (or_rejected (synthetic_resource p.tenant_id case_id class id))
            (or_rejected-eq (synthetic_resource p.tenant_id case_id class id))

  resolve_ai_resource-IsResolved :
      (selection : Fields) (case_id : String)
      → OnOk (IsResolved selection case_id) (resolve_ai_resource ai p selection case_id)
  unfolding resolve_ai_resource
  resolve_ai_resource-IsResolved selection case_id =
      >>=-OnOk _ (class_of (get_or selection "resource_class" (value selection "class"))) _
        λ class named.
          >>=-OnOk _ (id_of (get_or selection "resource_id" (value selection "id"))) _
            λ id numbered.
              >>=-OnOk _
                (raise_if
                  (is_foreign p.tenant_id (value selection "tenant_id")
                    || is_foreign case_id (value selection "case_id"))
                  rejected)
                _
                λ _ _.
                  >>=-OnOk _
                    (if ai.is_uuid p.tenant_id
                      then from_database ai class
                      else or_rejected (synthetic_resource p.tenant_id case_id class id))
                    _
                    λ fs e.
                      let h =
                        OnOk-ok
                          (λ gs.
                            (ai.is_uuid p.tenant_id ≡ false)
                            × (synthetic_resource p.tenant_id case_id class id ≡ some gs))
                          _ (source-OnOk case_id class id) e in
                      (h.0, (class, id, fs, named, numbered, h.1, refl))

  -- A package that is built for a question of the own resource that was asked for.
  abbrev pub IsServed : Question → Package → Type 0
  IsServed (question, wish, case_id) b =
      (ai.is_uuid p.tenant_id ≡ false)
      × ((selection : Fields) × IsOwnResource wish case_id selection
          × (build_context ai.context selection question p.tenant_id case_id ≡ ok b))

  context_result-eq : (m : Result ContextError Package) → OnOk (λ b. m ≡ ok b) (context_result m)
  context_result-eq (ok b) = refl
  context_result-eq (err e) = tt

  package_for-IsServed :
      (selection : Fields) (question case_id : String)
      → OnOk (IsServed (question, selection, case_id)) (package_for ai p selection question case_id)
  unfolding package_for
  package_for-IsServed selection question case_id =
      >>=-OnOk _ (resolve_ai_resource ai p selection case_id) _ λ own e.
        let (uuid, h) =
          OnOk-ok (IsResolved selection case_id) _
            (resolve_ai_resource-IsResolved selection case_id) e in
        OnOk-map _ _ (λ b built. (uuid, (own, h, built)))
          (context_result (build_context ai.context own question p.tenant_id case_id))
          (context_result-eq (build_context ai.context own question p.tenant_id case_id))

  -- An answer of the gateway `g` to a served package.
  abbrev pub IsAnswer : ModelGateway → Question → Package × String × Usage → Type 0
  IsAnswer g q (b, text, usage) =
      IsServed q b
      × ((complete ai.network g "local-mock" (messages_of ai b.prompt)).result ≡ ok (text, usage))

  provider_result-IsAnswer :
      (g : ModelGateway) (q : Question) (b : Package) (m : Result GatewayError (String × Usage))
      → IsServed q b
      → (complete ai.network g "local-mock" (messages_of ai b.prompt)).result ≡ m
      → OnOk (IsAnswer g q) (provider_result m >>= λ (text, usage). ok (b, text, usage))
  provider_result-IsAnswer g q b (err e) h eq = tt
  provider_result-IsAnswer g q b (ok (text, usage)) h eq = (h, eq)

  completed-IsAnswer :
      (g : ModelGateway) (q : Question) (m : Result Failure Package)
      → OnOk (IsServed q) m
      → OnOk (IsAnswer g q) ((completed ai m g).0)
  completed-IsAnswer g q (err f) h = tt
  completed-IsAnswer g q (ok b) h =
      provider_result-IsAnswer g q b
        ((complete ai.network g "local-mock" (messages_of ai b.prompt)).result) h refl

  -- What a question that was asked so comes to if it is answered, from the state `s`.
  abbrev pub IsGroundedFor : String → Question → Asking → Result Failure AiRequest × Asking → Type 0
  IsGroundedFor id q s (result, after) =
      OnOk
        (λ r.
          IsAnswer s.gateway q (r.built, r.answer, r.usage)
          × IsMinimal ai.context r.built
          × (r.case_id ≡ q.2)
          × (r.tenant_id ≡ p.tenant_id)
          × (r.approval ≡ none)
          × (find_request p.tenant_id id after ≡ some r)
          × (any (same_key (p.tenant_id, p.analyst_id)) after.in_flight ≡ false))
        result

  IsServed-IsMinimal : (q : Question) (b : Package) → IsServed q b → IsMinimal ai.context b
  IsServed-IsMinimal (question, wish, case_id) b (uuid, (selection, own, built)) =
      build_context-IsMinimal ai.context selection question p.tenant_id case_id b built

  concluded-IsGroundedFor :
      (now : ℕ) (id : String) (q : Question) (before s : Asking)
      → any (same_key (p.tenant_id, p.analyst_id)) s.in_flight ≡ false
      → (m : Result Failure (Package × String × Usage)) → OnOk (IsAnswer before.gateway q) m
      → IsGroundedFor id q before (concluded now id p (q.2) m s)
  concluded-IsGroundedFor now id q before s free (err f) h = tt
  concluded-IsGroundedFor now id q before s free (ok (b, text, usage)) h = (
    h,
    IsServed-IsMinimal q b (h.0),
    refl,
    refl,
    refl,
    rw (get-put_self, get-put_self) refl,
    free,
  )

  keep-free :
      (key : Key) (ks : List Key) → any (same_key key) (keep (λ k. not (same_key key k)) ks) ≡ false
  keep-free key [] = refl
  keep-free key (k ∷ ks) = ground (arith, keep-free key ks)

  begin-gateway :
      (now : ℕ) (k : Key) (s : Asking) → (begin_ai_request now k s).1.gateway ≡ s.gateway
  unfolding begin_ai_request
  begin-gateway now k s = ground arith

  begun-IsGroundedFor :
      (now : ℕ) (id : String) (selection : Fields) (question case_id : String) (before : Asking)
      → (b : Bool × Asking) → b.1.gateway ≡ before.gateway
      → IsGroundedFor id
          (question, selection, case_id)
          before
          (begun ai now id p selection question case_id b)
  unfolding end_ai_request
  begun-IsGroundedFor now id selection question case_id before (false, s) e = tt
  begun-IsGroundedFor now id selection question case_id before (true, s) e =
      let q : Question = (question, selection, case_id) in
      let m = completed ai (package_for ai p selection question case_id) s.gateway in
      let answer : OnOk (IsAnswer s.gateway q) (m.0) =
        completed-IsAnswer s.gateway q (package_for ai p selection question case_id)
          (package_for-IsServed selection question case_id) in
      concluded-IsGroundedFor now id q before
        (end_ai_request (p.tenant_id, p.analyst_id) (record s { gateway = m.1 }))
        (keep-free (p.tenant_id, p.analyst_id) s.in_flight) (m.0)
        (subst (λ g. OnOk (IsAnswer g q) (m.0)) e answer)

  -- A question with a selection and a case, as a payload asks it.
  abbrev pub IsAsked : Fields → Question → Type 0
  IsAsked payload (question, wish, case_id) =
      (value payload "question" ≡ str question)
      × (value payload "selection" ≡ object wish)
      × (value payload "case_id" ≡ str case_id)

  -- A payload that is answered asks a question, and that question is answered.
  abbrev pub IsGrounded : String → Fields → Asking → Result Failure AiRequest × Asking → Type 0
  IsGrounded id payload s (result, after) =
      OnOk (λ r. (q : Question) × IsAsked payload q × IsGroundedFor id q s (ok r, after)) result

  lift-IsGrounded :
      (id : String) (payload : Fields) (q : Question) (s : Asking)
      → IsAsked payload q
      → (x : Result Failure AiRequest × Asking) → IsGroundedFor id q s x
      → IsGrounded id payload s x
  lift-IsGrounded id payload q s a (err f, after) h = tt
  lift-IsGrounded id payload q s a (ok r, after) h = (q, a, h)

  texts_of-eq :
      (v w c : Json) (question case_id : String) (wish : Fields)
      → texts_of v w c ≡ some (question, wish, case_id)
      → (v ≡ str question) × (w ≡ object wish) × (c ≡ str case_id)
  texts_of-eq (str t) (object fs) (str u) question case_id wish h = at (u == "") h
    where
      at :
          (b : Bool)
          → ◌≡◌ {A = Option Question}
              (if b then none else some (t, fs, u))
              (some (question, wish, case_id))
          → (str t ≡ str question) × (object fs ≡ object wish) × (str u ≡ str case_id)
      at true h = cc
      at false h = (cc, cc, cc)
  texts_of-eq v w c question case_id wish h = cc

  asked-IsGrounded :
      (now : ℕ) (id : String) (payload : Fields) (s : Asking)
      → (q : Option Question) → question_of payload ≡ q
      → IsGrounded id payload s (asked ai now id p q s)
  asked-IsGrounded now id payload s none e = tt
  asked-IsGrounded now id payload s (some (question, selection, case_id)) e =
      let key : Key = (p.tenant_id, p.analyst_id) in
      lift-IsGrounded id payload (question, selection, case_id) s
        (texts_of-eq (value payload "question") (value payload "selection")
          (value payload "case_id") question case_id selection e)
        (asked ai now id p (some (question, selection, case_id)) s)
        (begun-IsGroundedFor now id selection question case_id s
          (begin_ai_request now key (purge now s)) (begin-gateway now key (purge now s)))

-- A question that is answered was asked for a tenant that is no UUID, about a resource that the server
-- holds for that tenant, the case, and the class and the id that the selection names, whatever else it
-- carried; the package is the one that `build_context` makes of it for the question and the case of the
-- payload and is minimal, the answer is the gateway's to it, the request is stored unapproved under the
-- tenant of the caller, and the slot of the caller is free again.
pub ask_ai-IsGrounded :
    (ai : Ai) (now : ℕ) (id : String) (p : Principal) (payload : Fields) (s : Asking)
    → IsGrounded ai p id payload s (ask_ai ai now id p payload s)
unfolding ask_ai
ask_ai-IsGrounded ai now id p payload s = at ai.ai_enabled
  where
    at :
        (b : Bool)
        → IsGrounded ai p id payload s
            (if b then asked ai now id p (question_of payload) s else (err disabled, s))
    at true = asked-IsGrounded ai p now id payload s (question_of payload) refl
    at false = tt
