-- ===== src/Audit.antt =====
-- `AuditRepository` of src/dfir_workbench/audit.py: the table of events, the log of those that it did not
-- take, and the counters of Metrics. What the database answers and the order of its rows are
-- arguments; ids and times are drawn.
pub mod Redacted
pub mod Pages
pub mod Fallback
mod Tests
use dfir_evidence_workbench.Base.{
  ℕ, zero, suc, String, ◌==◌, Bool, true, false, not, ◌&&◌, ◌||◌, Option, none, some, List, [], ◌∷◌,
  ◌++◌, any, keep, length, eqb, if◌then◌else◌,
}
use dfir_evidence_workbench.Base.Dict.{Dict}
use dfir_evidence_workbench.Base.Text.{codes, lower}
use dfir_evidence_workbench.Base.Json.{
  Json, null, boolean, integer, float, str, array, object, Items, nil, cons, Fields, end, field,
}
use dfir_evidence_workbench.Base.Result.{Result, ok, err, ◌>>=◌, ◌>>◌, raise_if}
use dfir_evidence_workbench.Metrics.Counters.{Series, inc_counter}

-- What a caller records. An id that is `None` is `none`.
pub record Entry : Type 0 where
  pub action : String
  pub result : String
  pub correlation_id : String
  pub source : String
  pub actor_type : String
  pub actor_id : Option String
  pub tenant_id : Option String
  pub case_id : Option String
  pub object_type : Option String
  pub object_id : Option String
  pub metadata : Fields

pub record AuditEvent : Type 0 where
  pub event_id : String
  pub entry : Entry
  pub occurred_at : String
  pub recorded_at : Option String

abbrev pub or_null : Option String → Json
or_null none = null
or_null (some s) = str s

-- `as_dict`
abbrev pub as_dict : AuditEvent → Json
as_dict e = object (
    field "event_id" (str e.event_id) (
      field "tenant_id" (or_null e.entry.tenant_id) (
        field "case_id" (or_null e.entry.case_id) (
          field "actor_type" (str e.entry.actor_type) (
            field "actor_id" (or_null e.entry.actor_id) (
              field "object_type" (or_null e.entry.object_type) (
                field "object_id" (or_null e.entry.object_id) (
                  field "action" (str e.entry.action) (
                    field "result" (str e.entry.result) (
                      field "correlation_id" (str e.entry.correlation_id) (
                        field "source" (str e.entry.source) (
                          field "occurred_at" (str e.occurred_at) (
                            field "recorded_at" (or_null e.recorded_at)
                              (field "metadata" (object e.entry.metadata) end))))))))))))))

abbrev redact_keys : List String
redact_keys =
    "authorization" ∷ "cookie" ∷ "password" ∷ "secret" ∷ "token" ∷ "api_key" ∷ "access_token"
    ∷ "refresh_token" ∷ []

abbrev same_codes : List ℕ → List ℕ → Bool
same_codes [] [] = true
same_codes [] (b ∷ bs) = false
same_codes (a ∷ as_) [] = false
same_codes (a ∷ as_) (b ∷ bs) = eqb a b && same_codes as_ bs

-- `k.lower() in _REDACT_KEYS`
unfoldable pub is_redacted : String → Bool
unfolding lower
is_redacted k = any (λ w. same_codes (lower (codes k)) (codes w)) redact_keys

-- `_redact`
unfoldable mutual
  pub redact : Json → Json
  redact (object fs) = object (redact_fields fs)
  redact (array vs) = array (redact_items vs)
  redact v = v

  pub redact_items : Items → Items
  redact_items nil = nil
  redact_items (cons v vs) = cons (redact v) (redact_items vs)

  pub redact_fields : Fields → Fields
  redact_fields end = end
  redact_fields (field k v fs) =
      field k (if is_redacted k then str "[REDACTED]" else redact v) (redact_fields fs)

pub data AuditError : Type 0 where
  invalid_actor_type invalid_result missing_field : AuditError

-- What comes of the pool: none is there, it or its INSERT fails, or the time of recording.
pub data Reply : Type 0 where
  no_pool failed : Reply
  recorded : String → Reply

pub record Sink : Type 0 where
  pub events : List AuditEvent
  pub log : List Json
  pub counters : Dict Series ℕ

abbrev actor_types : List String
actor_types = "user" ∷ "service" ∷ "job" ∷ "system" ∷ []

abbrev results : List String
results =
    "success" ∷ "denied" ∷ "validation_failed" ∷ "not_found" ∷ "conflict" ∷ "error" ∷ "partial" ∷ []

abbrev pub check_entry : Entry → Result AuditError (Unit {0})
check_entry e = do
  raise_if (not (any (λ t. t == e.actor_type) actor_types)) invalid_actor_type
  raise_if (not (any (λ t. t == e.result) results)) invalid_result
  raise_if (e.action == "" || e.correlation_id == "") missing_field

abbrev pub logged : AuditEvent → Sink → Sink
logged e s = record s { log = redact (as_dict e) ∷ s.log }

abbrev pub counted_failure : Sink → Sink
counted_failure s = record s { counters = inc_counter s.counters "audit_write_failures_total" [] 1 }

unfoldable pub write : Reply → AuditEvent → Sink → AuditEvent × Sink
write no_pool e s = (e, logged e s)
write failed e s = (e, logged e (counted_failure s))
write (recorded at_time) e s =
    let row = record e { recorded_at = some at_time } in (row, record s { events = row ∷ s.events })

abbrev pub new_event : (id now : String) → Entry → AuditEvent
new_event id now e = record { event_id = id; entry = e; occurred_at = now; recorded_at = none }

abbrev pub written :
    Reply
    → (id now : String) → Entry
    → Sink
    → Result AuditError (Unit {0})
    → Result AuditError AuditEvent × Sink
written reply id now e s (err x) = (err x, s)
written reply id now e s (ok done) = let w = write reply (new_event id now e) s in (ok (w.0), w.1)

-- `AuditRepository.record`
unfoldable pub record_event :
    Reply → (id now : String) → Entry → Sink → Result AuditError AuditEvent × Sink
record_event reply id now e s = written reply id now e s (check_entry e)

abbrev pub is_of : String → Option String → Bool
is_of t none = false
is_of t (some s) = s == t

-- `if case_id:` and the comparison
abbrev pub passes : Option String → Option String → Bool
passes none v = true
passes (some f) v = if f == "" then true else is_of f v

unfoldable pub matches : (tenant_id : String) (case_id action : Option String) → AuditEvent → Bool
matches tenant_id case_id action e =
    is_of tenant_id e.entry.tenant_id
    && (passes case_id e.entry.case_id && passes action (some e.entry.action))

-- `ORDER BY`
abbrev pub insert :
    (AuditEvent → AuditEvent → Bool) → AuditEvent → List AuditEvent → List AuditEvent
insert precedes e [] = e ∷ []
insert precedes e (f ∷ fs) =
    let rest = insert precedes e fs in if precedes e f then e ∷ f ∷ fs else f ∷ rest

unfoldable pub ordered : (AuditEvent → AuditEvent → Bool) → List AuditEvent → List AuditEvent
ordered precedes [] = []
ordered precedes (e ∷ es) = insert precedes e (ordered precedes es)

-- `LIMIT` and `OFFSET`
unfoldable pub take : ℕ → List AuditEvent → List AuditEvent
take (suc n) (e ∷ es) = e ∷ take n es
take _ _ = []

unfoldable pub drop : ℕ → List AuditEvent → List AuditEvent
drop (suc n) (e ∷ es) = drop n es
drop _ l = l

pub record Page : Type 0 where
  pub items : List AuditEvent
  pub count : ℕ
  pub limit : ℕ
  pub offset : ℕ

module _ (precedes : AuditEvent → AuditEvent → Bool) where
  -- `AuditRepository.query`, with whether there is a pool
  unfoldable pub query :
      Bool → (tenant_id : String) (case_id action : Option String) (limit offset : ℕ) → Sink → Page
  query false tenant_id case_id action limit offset s = record {
    items = [];
    count = 0;
    limit = limit;
    offset = offset;
  }
  query true tenant_id case_id action limit offset s = record {
    items =
        take limit
          (drop offset (ordered precedes (keep (matches tenant_id case_id action) s.events)));
    count = length (keep (matches tenant_id case_id action) s.events);
    limit = limit;
    offset = offset;
  }
