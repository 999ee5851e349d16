-- ===== src/Staging/Bounds.antt =====
-- What `stage` (src/dfir_workbench/staging.py) takes in.
use mathlib.Core.Path.{subst}
use dfir_evidence_workbench.Base.{
  ℕ, ◌+◌, ◌≤◌, ◌≡◌, refl, String, Bool, true, false, Option, none, some, List, [], ◌∷◌, ltb, arith,
  if◌then◌else◌,
}
use dfir_evidence_workbench.Base.Result.{
  ok, raise_if, raise_if-ok, raise_if-passed, >>=-eq-ok, OnOk, >>=-OnOk, OnOk-ok,
}
use dfir_evidence_workbench.Staging.Archives.{
  file_limit_exceeded, analysis_root_invalid, analysis_root_not_empty, SafetyLimits,
}
use dfir_evidence_workbench.Staging.Members.{
  members_of, IsBoundedArchive, validate_container-IsBounded,
}
use dfir_evidence_workbench.Staging.{
  Node, a_file, a_directory, a_link, a_special, Source, plain, tree, other, Entry, Snapshot,
  of_file, Site, exceeds, snapshot_nodes, snapshot, validate_archive, World, is_present,
  source_sha256, stage, copied_source,
}

-- The bytes of the files of a tree.
abbrev pub bytes_of : List (String × Node) → ℕ
bytes_of [] = 0
bytes_of ((path, a_file i) ∷ nodes) = i.size + bytes_of nodes
bytes_of ((path, n) ∷ nodes) = bytes_of nodes

-- Plain files within the limit, and directories.
abbrev pub IsPlainNode : SafetyLimits → Node → Type 0
IsPlainNode limits (a_file i) = i.size ≤ limits.max_file_bytes
IsPlainNode limits (a_directory mode mtime) = Unit {0}
IsPlainNode limits a_link = ⊥
IsPlainNode limits a_special = ⊥

abbrev pub ArePlain : SafetyLimits → List (String × Node) → Type 0
ArePlain limits [] = Unit {0}
ArePlain limits ((path, n) ∷ nodes) = IsPlainNode limits n × ArePlain limits nodes

snapshot_nodes-ArePlain :
    (limits : SafetyLimits) (total : ℕ) (nodes : List (String × Node)) {r : ℕ × List Entry}
    → total ≤ limits.max_total_bytes
    → snapshot_nodes limits total nodes ≡ ok r
    → ArePlain limits nodes × (total + bytes_of nodes ≤ limits.max_total_bytes)
unfolding snapshot_nodes
snapshot_nodes-ArePlain limits total [] within h = (tt, omega arith)
snapshot_nodes-ArePlain limits total ((path, a_link) ∷ nodes) within h = cc
snapshot_nodes-ArePlain limits total ((path, a_special) ∷ nodes) within h = cc
snapshot_nodes-ArePlain limits total ((path, a_directory mode mtime) ∷ nodes) within h =
    let rest = >>=-eq-ok (snapshot_nodes limits total nodes) _ h in
    let below = snapshot_nodes-ArePlain limits total nodes within (rest.1) in
    ((tt, below.0), below.1)
snapshot_nodes-ArePlain limits total ((path, a_file i) ∷ nodes) within h =
    let small = raise_if-ok (exceeds limits total i.size) (file_limit_exceeded path) _ h in
    let rest = >>=-eq-ok (snapshot_nodes limits (total + i.size) nodes) _ (small.1) in
    let now : total + i.size ≤ limits.max_total_bytes = ground (arith, small.0) in
    let each : i.size ≤ limits.max_file_bytes = ground (arith, small.0) in
    let below = snapshot_nodes-ArePlain limits (total + i.size) nodes now (rest.1) in
    let sum : total + bytes_of ((path, a_file i) ∷ nodes) ≤ limits.max_total_bytes =
      ground (arith, below.1) in
    ((each, below.0), sum)

-- A file of a size within the limit that unpacks to safe members within the limits, if it is an
-- archive; or a tree of plain files and directories within the limits.
abbrev pub IsBounded : Site → Source → Type 0
IsBounded site (plain i) =
    (i.size ≤ site.limits.max_file_bytes)
    × IsBoundedArchive site.limits (members_of (site.container i))
IsBounded site (tree nodes) =
    ArePlain site.limits nodes × (bytes_of nodes ≤ site.limits.max_total_bytes)
IsBounded site other = ⊥

taken-IsBounded :
    (site : Site) (s : Source) (before : Snapshot)
    → snapshot site s ≡ ok before
    → validate_archive site before ≡ ok tt
    → IsBounded site s
unfolding snapshot validate_archive
taken-IsBounded site other before h v = cc
taken-IsBounded site (plain i) before h v =
    let small =
      raise_if-ok (ltb site.limits.max_file_bytes i.size) (file_limit_exceeded ".") (ok (of_file i))
        h in
    let size : i.size ≤ site.limits.max_file_bytes = ground (arith, small.0) in
    let same : before ≡ of_file i = cc in
    (
      size,
      validate_container-IsBounded site.limits (site.container i)
          (subst (λ b. validate_archive site b ≡ ok tt) same v),
    )
taken-IsBounded site (tree nodes) before h v =
    let listed = >>=-eq-ok (snapshot_nodes site.limits 0 nodes) _ h in
    let plain_nodes = snapshot_nodes-ArePlain site.limits 0 nodes (omega arith) (listed.1) in
    let sum : bytes_of nodes ≤ site.limits.max_total_bytes = ground (arith, plain_nodes.1) in
    (plain_nodes.0, sum)

copied_source-sha256 :
    (now : String) (s : Source) → source_sha256 (copied_source now s) ≡ source_sha256 s
unfolding copied_source
copied_source-sha256 now (plain i) = refl
copied_source-sha256 now (tree nodes) = refl
copied_source-sha256 now other = refl

target-sha256 :
    (copy_source : Bool) (now : String) (s : Source)
    → source_sha256 (if copy_source then copied_source now s else s) ≡ source_sha256 s
target-sha256 true now s = copied_source-sha256 now s
target-sha256 false now s = refl

absent : (s : Option Source) → is_present s ≡ false → s ≡ none
absent none h = refl
absent (some s) h = cc

-- What holds when a source was staged: the source that is to be processed, and the world after.
abbrev pub IsStaged : Site → World → Source × Snapshot × World → Type 0
IsStaged site w (target, before, w') =
    IsBounded site w.source
    × (w.staged_source ≡ none)
    × (snapshot site w.source ≡ ok before)
    × (w'.source ≡ w.source)
    × (source_sha256 target ≡ source_sha256 w.source)

pub stage-OnOk :
    (site : Site) (copy_source : Bool) (w : World)
    → OnOk (IsStaged site w) (stage site copy_source w)
unfolding stage
stage-OnOk site copy_source w = >>=-OnOk (IsStaged site w) (snapshot site w.source) _ λ before h.
    >>=-OnOk (IsStaged site w) (validate_archive site before) _ λ _ v.
      >>=-OnOk (IsStaged site w) (raise_if site.root_inside_source analysis_root_invalid) _ λ _ _.
        >>=-OnOk (IsStaged site w) (raise_if (is_present w.staged_source) analysis_root_not_empty) _
          λ _ fresh. (
            taken-IsBounded site w.source before h v,
            absent w.staged_source (raise_if-passed _ analysis_root_not_empty fresh),
            h,
            refl,
            target-sha256 copy_source (site.clock 0) w.source,
          )

-- If a source is staged, it is a file or a tree of plain files and directories within the limits, and
-- an archive unpacks to safe members within the limits. Nothing was staged before, the snapshot is
-- that of the source, the source stays as it was, and a file that is to be processed has its digest.
pub stage-IsStaged :
    (site : Site) (copy_source : Bool) (w : World) (staged : Source × Snapshot × World)
    → stage site copy_source w ≡ ok staged
    → IsStaged site w staged
stage-IsStaged site copy_source w staged h =
    OnOk-ok (IsStaged site w) (stage site copy_source w) (stage-OnOk site copy_source w) h
