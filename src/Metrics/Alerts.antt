-- ===== src/Metrics/Alerts.antt =====
-- The alert rules of src/dfir_workbench/alerts.py over the counters. A rate of errors over the total
-- is compared with 0.05 as natural numbers, which leaves the rounding of the division out.
use dfir_evidence_workbench.Base.{
  ℕ, ◌*◌, ◌==◌, String, Bool, false, ◌&&◌, Option, none, some, List, [], ◌∷◌, keep, leb, ltb,
}
use dfir_evidence_workbench.Base.Dict.{Dict, get, string_eq}
use dfir_evidence_workbench.Base.Text.{codes, starts_with}
use dfir_evidence_workbench.Metrics.Counters.{Series, sum_if, counter_total}

pub record AlertResult : Type 0 where
  pub name : String
  pub firing : Bool

abbrev pub audit_write_failure_threshold : ℕ
audit_write_failure_threshold = 1

unfoldable pub audit_sink_degraded : Dict Series ℕ → AlertResult
audit_sink_degraded counters = record {
  name = "audit_sink_degraded";
  firing =
      leb audit_write_failure_threshold (counter_total counters "audit_write_failures_total" []);
}

-- `dict(labels).get("status", "").startswith("5")`
abbrev is_error_status : Option String → Bool
is_error_status none = false
is_error_status (some s) = starts_with (b'5' ∷ []) (codes s)

unfoldable pub is_request : Series → Bool
is_request (name, labels) = name == "http_requests_total"

unfoldable pub is_failed_request : Series → Bool
unfolding starts_with
is_failed_request (name, labels) =
    name == "http_requests_total" && is_error_status (get labels "status")

-- errors / total ≥ 0.05
unfoldable pub is_elevated : (total errors : ℕ) → Bool
is_elevated total errors = ltb 0 total && leb total (20 * errors)

unfoldable pub elevated_error_rate : Dict Series ℕ → AlertResult
elevated_error_rate counters = record {
  name = "elevated_http_error_rate";
  firing = is_elevated (sum_if is_request counters) (sum_if is_failed_request counters);
}

unfoldable pub evaluate_all : Dict Series ℕ → List AlertResult
evaluate_all counters = audit_sink_degraded counters ∷ elevated_error_rate counters ∷ []

unfoldable pub firing_alerts : Dict Series ℕ → List AlertResult
firing_alerts counters = keep (λ r. r.firing) (evaluate_all counters)
