-- ===== src/Staging/Tests.antt =====
-- A TAR file that is staged and left alone, and names of members (staging.py).
use dfir_evidence_workbench.Base.{◌≡◌, refl, true, false, none, some, [], ◌∷◌}
use dfir_evidence_workbench.Base.Strings.{split_first}
use dfir_evidence_workbench.Base.Text.{contains, starts_with}
use dfir_evidence_workbench.Base.Result.{ok, err}
use dfir_evidence_workbench.Staging.Archives.{
  path_traversal_rejected, unexpected, TarMember, tar, safe_member, kept_parts, joined, of_tar,
  check_members, check_archive, validate_container,
}
use dfir_evidence_workbench.Staging.{
  FileInfo, Source, plain, of_file, Site, World, staged, snapshot, validate_archive, copied_source,
  stage, run,
}
use dfir_evidence_workbench.Staging.Bounds.{IsStaged, stage-IsStaged}
use dfir_evidence_workbench.Staging.Runs.{IsVerified, run-IsVerified, run-unchanged}

abbrev info : FileInfo
info = record { size = 4096; sha256 = "aa11"; mode = 0x1a4; mtime_utc = "2026-03-01" }

abbrev member : TarMember
member = record {
  tar_name = "logs/auth.log";
  issym = false;
  islnk = false;
  isfile = true;
  isdir = false;
  tar_size = 900;
}

abbrev site : Site
site = record {
  limits = record { max_file_bytes = 5000; max_total_bytes = 9000; max_archive_members = 10 };
  container = λ i. tar (member ∷ []);
  tree_digest = λ es. "tree";
  root_inside_source = false;
  clock = λ n. "2026-03-02";
}

abbrev world : World
world = record { source = plain info; staged_source = none; records = none }

-- A traversal is refused, and a name without a part, which common TAR files begin with, raises an
-- exception that is no StagingError.
traversal_is_rejected :
    safe_member "logs\\..\\..\\etc" ≡ err (path_traversal_rejected "logs\\..\\..\\etc")
unfolding safe_member kept_parts split_first contains starts_with
traversal_is_rejected = refl

dot_raises : safe_member "./" ≡ err unexpected
unfolding safe_member kept_parts split_first contains starts_with
dot_raises = refl

slashes_are_normalized : safe_member "logs\\.\\auth.log" ≡ ok "logs/auth.log"
unfolding safe_member kept_parts split_first contains starts_with joined
slashes_are_normalized = refl

abbrev copy : Source
copy = plain (record { size = 4096; sha256 = "aa11"; mode = 0x180; mtime_utc = "2026-03-02" })

abbrev staged_world : World
staged_world = record {
  source = plain info;
  staged_source = some copy;
  records = some (
    record { source = of_file info; copied = true; after = none },
    staged "2026-03-02" (some "aa11") ∷ [],
  );
}

archive_is_staged : stage site true world ≡ ok (copy, of_file info, staged_world)
unfolding stage snapshot validate_archive validate_container check_archive check_members of_tar
    safe_member kept_parts split_first contains starts_with joined copied_source
archive_is_staged = refl

stage-IsStaged_example : IsStaged site world (copy, of_file info, staged_world)
stage-IsStaged_example =
    stage-IsStaged site true world (copy, of_file info, staged_world) archive_is_staged

-- A processor that works on the copy alone.
abbrev process : Source → World → World
process target w = record w { staged_source = none }

run-IsVerified_example : IsVerified site true world (run site true process world)
run-IsVerified_example = run-IsVerified site true process world

run-unchanged_example : (run site true process world).0 ≡ ok (of_file info)
run-unchanged_example =
    run-unchanged site true process world copy (of_file info) staged_world archive_is_staged refl
