-- ===== src/Ingest.antt =====
-- The ingest boundary and the timeline flags: src/dfir_workbench/db.py.
pub mod Database
pub mod Envelopes
pub mod Interop
pub mod Vendors
pub mod Flags
pub mod Previews
pub mod Batches
