-- ===== src/Ingest/Vendors.antt =====
-- The projections of vendor payloads: src/dfir_workbench/adapters/thehive_ingest_adapter.py and
-- src/dfir_workbench/adapters/dfir_iris_ingest_adapter.py.
pub mod Entities
pub mod HiveFields
pub mod Hive
pub mod IrisFields
pub mod IrisCases
pub mod IrisRecords
pub mod Iris
pub mod Keyed
pub mod Sound
pub mod Unsupported
