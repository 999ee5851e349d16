-- ===== src/Audit/Tests.antt =====
-- A trail of three events, of which one is not stored, and its pages.
use mathlib.Core.List.{Perm}
use dfir_evidence_workbench.Base.{
  ◌≡◌, refl, String, Bool, true, false, none, some, List, [], ◌∷◌, arith,
}
use dfir_evidence_workbench.Base.Text.{lower}
use dfir_evidence_workbench.Base.Json.{str, object, end, field}
use dfir_evidence_workbench.Base.Result.{ok, err}
use dfir_evidence_workbench.Metrics.Alerts.{audit_sink_degraded}
use dfir_evidence_workbench.Metrics.History.{record_all}
use dfir_evidence_workbench.Audit.{
  Entry, AuditEvent, missing_field, as_dict, is_redacted, redact, redact_items, redact_fields,
  failed, recorded, Sink, new_event, write, record_event, matches, ordered, take, drop, query,
}
use dfir_evidence_workbench.Audit.Fallback.{Call, serve, failed_write_fires}
use dfir_evidence_workbench.Audit.Pages.{read_pages, IsWanted, Selects, read_pages-perm}

abbrev entry : String → Entry
entry tenant = record {
  action = "http.get";
  result = "success";
  correlation_id = "c1";
  source = "api";
  actor_type = "user";
  actor_id = some "ana";
  tenant_id = some tenant;
  case_id = none;
  object_type = none;
  object_id = none;
  metadata = field "path" (str "/api") (field "Token" (str "t") end);
}

abbrev empty : Sink
empty = record { events = []; log = []; counters = [] }

abbrev calls : List Call
calls =
    record { reply = recorded "10:00"; event_id = "e1"; now = "09:59"; entry = entry "t1" }
    ∷ record { reply = failed; event_id = "e2"; now = "10:00"; entry = entry "t1" }
    ∷ record { reply = recorded "10:02"; event_id = "e3"; now = "10:01"; entry = entry "t2" }
    ∷ record { reply = recorded "10:03"; event_id = "e4"; now = "10:03"; entry = entry "t1" }
    ∷ []

runs : Unit {0}
unfolding serve record_event write redact redact_items redact_fields is_redacted lower query matches
    ordered take drop read_pages
runs = tt

abbrev ids : List AuditEvent → List String
ids [] = []
ids (e ∷ es) = e.event_id ∷ ids es

abbrev never : AuditEvent → AuditEvent → Bool
never e f = false

stored : ids (serve calls empty).events ≡ "e4" ∷ "e3" ∷ "e1" ∷ []
unfolding runs
stored = refl

first_page : ids (query never true "t1" none none 1 0 (serve calls empty)).items ≡ "e1" ∷ []
unfolding runs
first_page = refl

masked :
    redact (object (entry "t1").metadata)
    ≡ object (field "path" (str "/api") (field "Token" (str "[REDACTED]") end))
unfolding runs
masked = refl

without_action :
    (record_event failed "e5" "10:04" (record (entry "t1") { action = "" }) empty).0
    ≡ err missing_field
unfolding runs
without_action = refl

failed_write_fires_example :
    ((record_event failed "e2" "10:00" (entry "t1") empty).0
      ≡ ok (new_event "e2" "10:00" (entry "t1")))
    × ((record_event failed "e2" "10:00" (entry "t1") empty).1.log
        ≡ redact (as_dict (new_event "e2" "10:00" (entry "t1"))) ∷ [])
    × ((audit_sink_degraded
          (record_all (record_event failed "e2" "10:00" (entry "t1") empty).1.counters [])).firing
        ≡ true)
failed_write_fires_example = failed_write_fires "e2" "10:00" (entry "t1") empty [] refl

read_pages-perm_example :
    (wanted : List AuditEvent) × Selects (IsWanted "t1" none none) (serve calls empty).events wanted
    × Perm (read_pages never "t1" none none 1 (serve calls empty) 0 2) wanted
unfolding runs
read_pages-perm_example = read_pages-perm never "t1" none none 1 2 (serve calls empty) (omega arith)
