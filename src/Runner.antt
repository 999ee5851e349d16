-- ===== src/Runner.antt =====
-- The local runner of src/dfir_workbench/local_runner.py.
pub mod Jobs
pub mod Teardown
pub mod Lifecycle
pub mod Calls
pub mod History
mod Tests
