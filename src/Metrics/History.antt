-- ===== src/Metrics/History.antt =====
-- The counters and alerts of src/dfir_workbench/metrics.py and src/dfir_workbench/alerts.py after a
-- history of increments. `inc_counter` holds the lock, so concurrent increments have an order.
use dfir_evidence_workbench.Base.{
  ℕ, ◌+◌, ◌*◌, ◌≤◌, ◌<◌, ◌≡◌, ◌↔◌, String, Bool, true, List, [], ◌∷◌, arith, leb, if◌then◌else◌,
}
use dfir_evidence_workbench.Base.Dict.{Dict}
use dfir_evidence_workbench.Metrics.Counters.{
  Labels, Series, key, bump, inc_counter, sum_if, counter_total, selects, sum_if-bump,
}
use dfir_evidence_workbench.Metrics.Alerts.{
  audit_sink_degraded, is_request, is_failed_request, is_elevated, elevated_error_rate,
}

pub record Increment : Type 0 where
  pub name : String
  pub labels : Labels
  pub value : ℕ

unfoldable pub record_all : Dict Series ℕ → List Increment → Dict Series ℕ
record_all counters [] = counters
record_all counters (i ∷ is) = record_all (inc_counter counters i.name i.labels i.value) is

-- What the increments of a history add to the series that pass a test.
unfoldable pub added_by : (Series → Bool) → List Increment → ℕ
added_by test [] = 0
added_by test (i ∷ is) = (if test (i.name, key i.labels) then i.value else 0) + added_by test is

sum_if-record_all :
    (test : Series → Bool) (counters : Dict Series ℕ) (is : List Increment)
    → sum_if test (record_all counters is) ≡ sum_if test counters + added_by test is
unfolding record_all added_by inc_counter
sum_if-record_all test counters [] = omega arith
sum_if-record_all test counters (i ∷ is) = omega (
  arith,
  sum_if-record_all test (inc_counter counters i.name i.labels i.value) is,
  sum_if-bump test counters (i.name, key i.labels) i.value,
)

-- The total of a counter under a label filter grows over a history by the values of those
-- increments whose name and labels the filter selects, in whatever series they went.
pub counter_total-record_all :
    (counters : Dict Series ℕ) (is : List Increment) (name : String) (filter : Labels)
    → counter_total (record_all counters is) name filter
      ≡ counter_total counters name filter + added_by (selects name filter) is
unfolding counter_total
counter_total-record_all counters is name filter =
    sum_if-record_all (selects name filter) counters is

is_elevated_iff : (t e : ℕ) → (is_elevated t e ≡ true) ↔ ((0 < t) × (t ≤ 20 * e))
unfolding is_elevated
is_elevated_iff t e = (λ h. (ground arith, ground arith), λ h. ground arith)

sum_if-started :
    (test : Series → Bool) (is : List Increment) → sum_if test (record_all [] is) ≡ added_by test is
unfolding sum_if
sum_if-started test is = omega (arith, sum_if-record_all test [] is)

-- After a history from empty counters, the error rate alert fires exactly if requests were counted
-- and those with a status that starts with 5 are at least a twentieth of them.
elevated_error_rate-record_all :
    (is : List Increment)
    → ((elevated_error_rate (record_all [] is)).firing ≡ true) ↔ (
        (0 < added_by is_request is)
        × (added_by is_request is ≤ 20 * added_by is_failed_request is))
unfolding elevated_error_rate
elevated_error_rate-record_all is =
    rw (sum_if-started is_request is, sum_if-started is_failed_request is)
      (is_elevated_iff (added_by is_request is) (added_by is_failed_request is))

-- Once a failed audit write was counted, whatever the labels, the audit alert fires after any further
-- increments.
pub audit_sink_degraded_latches :
    (counters : Dict Series ℕ) (labels : Labels) (value : ℕ) (later : List Increment)
    → 1 ≤ value
    → (audit_sink_degraded
        (record_all (inc_counter counters "audit_write_failures_total" labels value) later)).firing
      ≡ true
unfolding audit_sink_degraded counter_total inc_counter selects
audit_sink_degraded_latches counters labels value later h =
    let test = selects "audit_write_failures_total" [] in
    reached _ _ _ _ _
      (sum_if-record_all test (bump counters ("audit_write_failures_total", key labels) value)
        later)
      (sum_if-bump test counters ("audit_write_failures_total", key labels) value) h
  where
    reached : (n b c v a : ℕ) → n ≡ b + a → b ≡ c + v → 1 ≤ v → leb 1 n ≡ true
    reached n b c v a p q h = ground (arith, p, q, h)
