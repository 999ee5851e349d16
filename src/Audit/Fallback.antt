-- ===== src/Audit/Fallback.antt =====
-- Every event that src/dfir_workbench/audit.py accepts is stored or logged.
use dfir_evidence_workbench.Base.{
  ◌≡◌, refl, String, Bool, true, false, Option, none, some, List, [], ◌∷◌, arith,
}
use dfir_evidence_workbench.Base.Json.{Json, null, str, object, Fields, value}
use dfir_evidence_workbench.Base.Result.{Result, ok, err}
use dfir_evidence_workbench.Metrics.Alerts.{audit_sink_degraded}
use dfir_evidence_workbench.Metrics.History.{Increment, record_all, audit_sink_degraded_latches}
use dfir_evidence_workbench.Audit.{
  Entry, AuditEvent, AuditError, as_dict, redact, Reply, failed, recorded, Sink, check_entry, write,
  new_event, record_event,
}
use dfir_evidence_workbench.Audit.Redacted.{IsMasked}

-- A call of `record`: the reply of the database, the id and the time that are drawn, and the entry.
pub record Call : Type 0 where
  pub reply : Reply
  pub event_id : String
  pub now : String
  pub entry : Entry

unfoldable pub serve : List Call → Sink → Sink
serve [] s = s
serve (c ∷ cs) s = serve cs ((record_event c.reply c.event_id c.now c.entry s).1)

abbrev text_or_null : Option String → Json
text_or_null none = null
text_or_null (some t) = str t

-- An event as it is recorded for an entry: the entry itself, the id and the time that were drawn, and the
-- time of its recording.
pub record IsEventOf (id now : String) (e : Entry) (recorded_at : Option String) (v : AuditEvent)
    : Type 0 where
  pub id_is : v.event_id ≡ id
  pub entry_is : v.entry ≡ e
  pub time_is : v.occurred_at ≡ now
  pub recorded_is : v.recorded_at ≡ recorded_at

-- A line for an event that was not stored: an object that says what the entry says, its metadata and all
-- else masked at every depth.
pub record IsLineOf (id now : String) (e : Entry) (line : Json) : Type 0 where
  pub fields : Fields
  pub line_is : line ≡ object fields
  pub event_id_is : value fields "event_id" ≡ str id
  pub tenant_is : value fields "tenant_id" ≡ text_or_null e.tenant_id
  pub case_is : value fields "case_id" ≡ text_or_null e.case_id
  pub actor_type_is : value fields "actor_type" ≡ str e.actor_type
  pub actor_is : value fields "actor_id" ≡ text_or_null e.actor_id
  pub object_type_is : value fields "object_type" ≡ text_or_null e.object_type
  pub object_is : value fields "object_id" ≡ text_or_null e.object_id
  pub action_is : value fields "action" ≡ str e.action
  pub result_is : value fields "result" ≡ str e.result
  pub correlation_is : value fields "correlation_id" ≡ str e.correlation_id
  pub source_is : value fields "source" ≡ str e.source
  pub time_is : value fields "occurred_at" ≡ str now
  pub not_recorded : value fields "recorded_at" ≡ null
  pub metadata_is : value fields "metadata" ≡ redact (object e.metadata)
  pub masked : IsMasked line

abbrev is_recorded : Reply → Bool
is_recorded (recorded t) = true
is_recorded r = false

-- What one call does: nothing, if its entry does not pass the checks; a new event, if the database records
-- it; or a new line.
pub data IsAccounted (c : Call) (s t : Sink) : Type 0 where
  refused :
      (x : AuditError)
      → check_entry c.entry ≡ err x
      → t.events ≡ s.events
      → t.log ≡ s.log
      → IsAccounted c s t
  stored :
      (at_time : String) (v : AuditEvent)
      → check_entry c.entry ≡ ok tt
      → c.reply ≡ recorded at_time
      → IsEventOf c.event_id c.now c.entry (some at_time) v
      → t.events ≡ v ∷ s.events
      → t.log ≡ s.log
      → IsAccounted c s t
  logged_only :
      (line : Json)
      → check_entry c.entry ≡ ok tt
      → is_recorded c.reply ≡ false
      → IsLineOf c.event_id c.now c.entry line
      → t.events ≡ s.events
      → t.log ≡ line ∷ s.log
      → IsAccounted c s t

-- What calls do one after the other.
pub data AreAccounted : List Call → Sink → Sink → Type 0 where
  no_call : {s : Sink} → AreAccounted [] s s
  then_call :
      {c : Call} {cs : List Call} {s t u : Sink}
      → IsAccounted c s t
      → AreAccounted cs t u
      → AreAccounted (c ∷ cs) s u

-- If the INSERT of an entry that passes the checks fails, the call still answers its event, a masked line
-- of it is logged, and from then on the alert of the audit sink fires, whatever else is counted.
pub failed_write_fires :
    (id now : String) (e : Entry) (s : Sink) (later : List Increment)
    → check_entry e ≡ ok tt
    → ((record_event failed id now e s).0 ≡ ok (new_event id now e))
      × ((record_event failed id now e s).1.log ≡ redact (as_dict (new_event id now e)) ∷ s.log)
      × ((audit_sink_degraded (record_all (record_event failed id now e s).1.counters later)).firing
          ≡ true)
unfolding record_event write
failed_write_fires id now e s later c =
    rw c (refl, refl, audit_sink_degraded_latches s.counters [] 1 later (omega arith))
