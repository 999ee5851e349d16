-- ===== src/Api.antt =====
-- The HTTP service of src/dfir_workbench/api.py: its tokens (Api/Tokens), who calls (Api/Auth), what is
-- kept of questions to the model (Api/Requests), and these questions (Api/Asking).
pub mod Tokens
pub mod Auth
pub mod Requests
pub mod Asking
