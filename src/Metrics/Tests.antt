-- ===== src/Metrics/Tests.antt =====
-- The counters and alerts of src/dfir_workbench/metrics.py and alerts.py on concrete increments.
use dfir_evidence_workbench.Base.{ℕ, ◌+◌, ◌≡◌, refl, String, true, List, [], ◌∷◌}
use dfir_evidence_workbench.Metrics.Counters.{
  key, bump, inc_counter, sum_if, counter_total, selects,
}
use dfir_evidence_workbench.Metrics.Alerts.{
  audit_sink_degraded, elevated_error_rate, is_request, is_failed_request, is_elevated,
  evaluate_all, firing_alerts,
}
use dfir_evidence_workbench.Metrics.History.{
  Increment, record_all, added_by, counter_total-record_all,
}
use dfir_evidence_workbench.Base.Dict.{get}

abbrev answered : String → ℕ → Increment
answered status n = record {
  name = "http_requests_total";
  labels = ("status", status) ∷ ("method", "GET") ∷ [];
  value = n;
}

abbrev history : List Increment
history = answered "200" 18 ∷ answered "503" 1 ∷ answered "200" 1 ∷ []

runs : Unit {0}
unfolding record_all inc_counter key bump counter_total sum_if selects get evaluate_all
    firing_alerts audit_sink_degraded elevated_error_rate is_elevated is_request is_failed_request
runs = tt

one_of_twenty :
    firing_alerts (record_all [] history)
    ≡ record { name = "elevated_http_error_rate"; firing = true } ∷ []
unfolding runs
one_of_twenty = refl

by_status :
    counter_total (record_all [] history) "http_requests_total" (("status", "200") ∷ []) ≡ 19
unfolding runs
by_status = refl

counter_total-record_all_example :
    counter_total (record_all [] history) "http_requests_total" (("status", "200") ∷ [])
    ≡ counter_total [] "http_requests_total" (("status", "200") ∷ [])
      + added_by (selects "http_requests_total" (("status", "200") ∷ [])) history
counter_total-record_all_example =
    counter_total-record_all [] history "http_requests_total" (("status", "200") ∷ [])
