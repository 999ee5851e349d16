-- ===== src/Uac.antt =====
-- src/dfir_workbench/adapters/uac_adapter.py: the names of members (Uac/Names), what extraction reads and
-- leaves (Uac/Copies), and `extract` with its theorem (Uac/Extraction).
pub mod Names
pub mod Copies
pub mod Extraction
