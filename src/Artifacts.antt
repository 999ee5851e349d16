-- ===== src/Artifacts.antt =====
-- src/dfir_workbench/artifact_timeline.py: its records (Artifacts/Records), the rows of texts
-- (Artifacts/Rows), `process_artifact` (Artifacts/Process), and its submission (Artifacts/Submission).
pub mod Records
pub mod Rows
pub mod Process
pub mod Submission
