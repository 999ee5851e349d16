-- ===== src/Gateway.antt =====
-- The model gateway of src/dfir_workbench/model_gateway.py: provider configurations, the token and
-- cost budget, and completions with their retries.
pub mod Config
pub mod Budget
pub mod Completion
pub mod Retries
pub mod Egress
mod Tests
