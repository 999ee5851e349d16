-- ===== src/Lib.antt =====
-- Models of the DFIR Evidence Workbench and theorems about them. All Python files named here are in
-- src/dfir_workbench.
--
-- The workbench takes evidence and vendor alerts in for several tenants, keeps them apart, and lets
-- analysts review them. Its parts here, each in a module of its own:
--   Base      results of fallible code with `do`, tests and lists over the native numbers, texts as
--             Python sees them, dictionaries, the values of JSON (Base/Json)
--   Ingest    IngestRepository of db.py over migrations/0002_create_ingest_envelopes.sql: the table
--             of envelopes with its constraints (Ingest/Database), the statements of store_preview,
--             get, approve, apply_commit and mark_quarantined (Ingest/Envelopes), and their theorems
--             below Ingest/Envelopes
--             TimelineFlagRepository of db.py over migrations/0001_create_timeline_entry_flags.sql
--             (Ingest/Flags, and its theorems below it)
--             interop.py: the refusal of credentials, idempotency keys and time stamps
--             (Ingest/Interop)
--             adapters/thehive_ingest_adapter.py and adapters/dfir_iris_ingest_adapter.py: every
--             projection of a vendor's payload to an entity (Ingest/Vendors)
--             project_vendor_payload, build_envelope_for_preview and preview_vendor_payload of
--             ingest.py (Ingest/Previews) over the adapters, and ingest_preview_batch
--             (Ingest/Batches) over the previews and IngestRepository
--   Evidence  EvidenceStore of evidence_store.py: ids (Evidence/Ids), files and manifests
--             (Evidence/Files), every operation on quarantine slots, originals and manifests
--             (Evidence/Store), and their theorems below Evidence/Store
--   Gateway   model_gateway.py: ProviderConfig (Gateway/Config), TokenCostBudget (Gateway/Budget),
--             complete and _request (Gateway/Completion), the retry loop (Gateway/Retries) and what
--             leaves the process (Gateway/Egress)
--   Runner    LocalRunner of local_runner.py: jobs and registrations (Runner/Jobs), single calls
--             (Runner/Calls) and sequences of calls (Runner/History)
--   Metrics   the counters of metrics.py (Metrics/Counters), the rules of alerts.py (Metrics/Alerts)
--             and both over a history of increments (Metrics/History)
--   Staging   EvidenceStager of staging.py: the checks of archives (Staging/Archives), staging and runs
--             (Staging), and their theorems below Staging
--   Relik     SQLiteJobStore (Relik/Records) and OpenRelikAdapter (Relik) of openrelik_adapter.py, with
--             what velociraptor_openrelik.py makes of a job when a collection ends, and their theorems
--             below Relik
--   Context   build_context of context_builder.py: what is taken out (Redaction) and which keys stay
--             (Redaction/Kept), the package (Context), and the theorem on what leaves
--             (Context/Cleaned)
--   Api       api.py: tokens (Api/Tokens), principals and scopes (Api/Auth), the requests to the model
--             that are kept and their rate (Api/Requests), the AI routes (Api/Asking) over Context and
--             Gateway, and their theorems below each
--   Audit     AuditRepository of audit.py (Audit), what is masked (Audit/Redacted), what is kept of a
--             failed write (Audit/Fallback), and the pages of a trail (Audit/Pages)
--   Artifacts artifact_timeline.py: records and their times (Artifacts/Records), the rows of texts
--             (Artifacts/Rows), process_artifact with its theorems (Artifacts/Process), and the fast
--             path for its results (Artifacts/Submission)
--   Uac       uac_adapter.py: the names of members (Uac/Names), _copy_stream (Uac/Copies) and extract
--             (Uac/Extraction), with what they add below each
--   Ewf       inventory and limits_ok of ewf.py (Ewf), and its theorem (Ewf/Complete)
-- The HTTP API calls Ingest and Runner on behalf of a principal, whose tenant they take, and counts
-- its requests in Metrics; an evidence store is opened for one tenant; a gateway knows of none.
--
-- State is a record that an operation takes and returns, an exception is an error of a Result, and
-- concurrent calls are sequences of atomic steps: a statement of the database runs in one
-- transaction, and a budget is reserved under its lock. Definitions keep the source's names, with
-- the leading underscore dropped.
--
-- Parameters stand for what the repository does not hold or what is drawn at run time: digests,
-- fresh ids, clocks, the casts of the database server, the resolver of host names, secrets, the
-- replies of a provider or of OpenRelik, what zipfile, tarfile, sqlite3, csv and 7z read, what the
-- JSON schema validator reports, the patterns over texts, json.dumps, the repr of lists and dicts,
-- datetime.fromisoformat. Parts of the repository that are not modelled are parameters of those
-- that call them: the corpus and the workflow of a fixture for the runner. What the handling of a
-- vendor's payload draws (ids, clocks) is given with it; the segments of an image come with what
-- stat and the digest give or raise. A payload is a JSON value whose floats carry what the code
-- asks of them; lower case and digits are those of ASCII, but the search for keys of credentials
-- folds case as re.I does.
--
-- All functions are total by structural recursion: the retry loop recurses on the attempts that are
-- left, as the source ranges over them. Only the decimal digits of a number (Base/Strings) run on
-- fuel, one more than the number, and more fuel changes nothing. Sizes and times are unbounded
-- natural numbers, as Python's are; timeouts are milliseconds, and rates and costs natural numbers
-- of a fixed small unit, so that the rounding of floats is left out.
--
-- Not modelled: the other routes of the HTTP API, the adapters of Velociraptor and of disk and
-- memory images, the workflows around Velociraptor and the forensic tools, and histograms. Of the
-- modelled files, connection pools and test harnesses (db.py), the finding of schema files
-- (interop.py), directories that are links (evidence_store.py), the metadata of a completion
-- and redirects that the opener follows (model_gateway.py), the working directories of jobs (local_runner.py), the validation, inventory
-- and report (uac_adapter.py), the command line and temporary roots (staging.py), audit events
-- (openrelik_adapter.py), the names of the fields of a package and the references to its source
-- (context_builder.py), and the finding, detection and mounting of images (ewf.py) are left out.
pub mod Base
pub mod Ingest
pub mod Evidence
pub mod Gateway
pub mod Runner
pub mod Metrics
pub mod Staging
pub mod Relik
pub mod Ewf
pub mod Audit
pub mod Artifacts
pub mod Uac
pub mod Redaction
pub mod Api
pub mod Context
