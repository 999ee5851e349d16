-- ===== src/Evidence.antt =====
-- Evidence bytes at rest: src/dfir_workbench/evidence_store.py.
pub mod Ids
pub mod Files
pub mod Store
