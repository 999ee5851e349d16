-- ===== src/Metrics.antt =====
-- Metrics and alerts: src/dfir_workbench/metrics.py and src/dfir_workbench/alerts.py.
pub mod Counters
pub mod Alerts
pub mod History
mod Tests
