-- ===== src/Ingest/Previews/Samples.antt =====
-- Libraries, draws and a payload of IRIS for the tests of previews (ingest.py).
use dfir_evidence_workbench.Base.{String, none, some, if◌then◌else◌}
use dfir_evidence_workbench.Base.Strings.{pos}
use dfir_evidence_workbench.Base.Json.{Fields, integer, str, end, field}
use dfir_evidence_workbench.Ingest.Envelopes.{Digests}
use dfir_evidence_workbench.Ingest.Interop.{aware}
use dfir_evidence_workbench.Ingest.Vendors.Entities.{Overrides}
use dfir_evidence_workbench.Ingest.Previews.{Libraries, Drawing, Intake}
use dfir_evidence_workbench.Ingest.Previews.WeakHashes.{has_unknown_decision}

abbrev pub digests : Digests
digests = record {
  sha256 = λ s. "aaaaaaaaaaaaaaaaaaaaaaaaaaaaaaaaaaaaaaaaaaaaaaaaaaaaaaaaaaaaaaaa";
  v1 = λ s. s;
}

abbrev pub libs : Libraries
libs = record {
  repr = λ v. "{}";
  fromisoformat = λ s. aware s;
  canonical_json = λ v. "{}";
  dumps = λ v. "{}";
  entity_errors = λ e. if has_unknown_decision e then some "'lossy' is not one of" else none;
  envelope_errors = λ e. none;
}

abbrev pub drawing : Drawing
drawing = record {
  synthetic_id = "syn-1";
  preview_id = "env-1";
  quarantine_id = "quarantine-1";
  now = "2026-03-01T00:00:00Z";
  stored = record { envelope_id = "env-9"; now = "2026-03-01"; created_at = "2026-03-02" };
}

abbrev pub intake_of : String → Intake
intake_of system = record {
  source_system = system;
  source_scope = "acme";
  integration_id = "default";
}

abbrev pub overrides : Overrides
overrides = record { source_id = none; source_revision = none }

abbrev pub sample : Fields
sample = field "ioc_id" (integer (pos 7)) (
    field "ioc_value" (str "dropper.exe") (
      field "ioc_type" (str "File")
        (field "ioc_tags" (str "apt, mail") (field "updated_at" (str "2026-03-01T10:00:00Z") end))))
