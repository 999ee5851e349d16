-- ===== src/Staging.antt =====
-- src/dfir_workbench/staging.py. A source is what the file system holds at its path; the contents of
-- a file are known by their digest. What zipfile and tarfile make of a file, the digest of the
-- entries of a tree and the clock are the site's.
pub mod Archives
pub mod Bounds
pub mod Members
pub mod Runs
mod Tests
use dfir_evidence_workbench.Base.{
  ℕ, zero, suc, ◌+◌, ◌==◌, String, Bool, true, false, not, ◌||◌, ◌&&◌, Option, none, some, List, [],
  ◌∷◌, ◌++◌, map, ltb, eqb, length, if◌then◌else◌,
}
use dfir_evidence_workbench.Base.Result.{Result, ok, err, ◌>>=◌, ◌>>◌, raise_if}
use dfir_evidence_workbench.Staging.Archives.{
  StagingError, source_invalid, file_limit_exceeded, symlink_rejected, analysis_root_invalid,
  analysis_root_not_empty, source_changed, SafetyLimits, Container, validate_container,
}

pub record FileInfo : Type 0 where
  pub size : ℕ
  pub sha256 : String
  pub mode : ℕ
  pub mtime_utc : String

pub data Node : Type 0 where
  a_file : FileInfo → Node
  a_directory : (mode : ℕ) (mtime_utc : String) → Node
  a_link a_special : Node

-- What stands at a path: a file, a directory with all that is below it in the order of the paths, or
-- anything else (a link, a special file, nothing).
pub data Source : Type 0 where
  plain : FileInfo → Source
  tree : List (String × Node) → Source
  other : Source

pub record Entry : Type 0 where
  pub path : String
  pub is_directory : Bool
  pub size : ℕ
  pub sha256 : Option String
  pub mode : ℕ
  pub mtime_utc : String

pub data Snapshot : Type 0 where
  of_file : FileInfo → Snapshot
  of_tree : (size : ℕ) (sha256 : String) (entries : List Entry) → Snapshot

pub record Site : Type 0 where
  pub limits : SafetyLimits
  pub container : FileInfo → Container
  pub tree_digest : List Entry → String
  pub root_inside_source : Bool
  -- the time of the event that is the n-th
  pub clock : ℕ → String

abbrev pub file_entry : String → FileInfo → Entry
file_entry path i = record {
  path = path;
  is_directory = false;
  size = i.size;
  sha256 = some i.sha256;
  mode = i.mode;
  mtime_utc = i.mtime_utc;
}

abbrev pub directory_entry : String → ℕ → String → Entry
directory_entry path mode mtime = record {
  path = path;
  is_directory = true;
  size = 0;
  sha256 = none;
  mode = mode;
  mtime_utc = mtime;
}

abbrev pub exceeds : SafetyLimits → ℕ → ℕ → Bool
exceeds limits total size =
    ltb limits.max_file_bytes size || ltb limits.max_total_bytes (total + size)

-- The loop of `_snapshot`: the bytes of the files, and the entries.
unfoldable pub snapshot_nodes :
    SafetyLimits → ℕ → List (String × Node) → Result StagingError (ℕ × List Entry)
snapshot_nodes limits total [] = ok (total, [])
snapshot_nodes limits total ((path, a_link) ∷ nodes) = err (symlink_rejected path)
snapshot_nodes limits total ((path, a_special) ∷ nodes) = err (source_invalid path)
snapshot_nodes limits total ((path, a_directory mode mtime) ∷ nodes) = do
  (bytes, entries) ← snapshot_nodes limits total nodes
  ok (bytes, directory_entry path mode mtime ∷ entries)
snapshot_nodes limits total ((path, a_file i) ∷ nodes) = do
  raise_if (exceeds limits total i.size) (file_limit_exceeded path)
  (bytes, entries) ← snapshot_nodes limits (total + i.size) nodes
  ok (bytes, file_entry path i ∷ entries)

-- `_snapshot`; the modes of a tree are those of its entries.
unfoldable pub snapshot : Site → Source → Result StagingError Snapshot
snapshot site other = err (source_invalid ".")
snapshot site (plain i) = do
  raise_if (ltb site.limits.max_file_bytes i.size) (file_limit_exceeded ".")
  ok (of_file i)
snapshot site (tree nodes) = do
  (bytes, entries) ← snapshot_nodes site.limits 0 nodes
  ok (of_tree bytes (site.tree_digest entries) entries)

-- `_validate_archive`
unfoldable pub validate_archive : Site → Snapshot → Result StagingError (Unit {0})
validate_archive site (of_file i) = validate_container site.limits (site.container i)
validate_archive site (of_tree size sha256 entries) = ok tt

pub data Event : Type 0 where
  staged : (at_utc : String) (sha256 : Option String) → Event
  processing_started processing_completed : (at_utc : String) → Event
  source_verified : (at_utc : String) (sha256 : String) → Event

pub record Manifest : Type 0 where
  pub source : Snapshot
  pub copied : Bool
  -- the snapshot after processing, once the source was found unchanged
  pub after : Option Snapshot

-- The source, and the analysis root: the copy of the source in it, and the records.
pub record World : Type 0 where
  pub source : Source
  pub staged_source : Option Source
  pub records : Option (Manifest × List Event)

-- `copyfile` and `chmod`: the bytes, the mode 0600 (0700 for a directory), and the time of the copy.
abbrev copied_file : String → FileInfo → FileInfo
copied_file now i = record i { mode = 0x180; mtime_utc = now }

abbrev copied_node : String → String × Node → String × Node
copied_node now (path, a_file i) = (path, a_file (copied_file now i))
copied_node now (path, a_directory mode mtime) = (path, a_directory 0x1c0 mtime)
copied_node now (path, a_link) = (path, a_link)
copied_node now (path, a_special) = (path, a_special)

unfoldable pub copied_source : String → Source → Source
copied_source now (plain i) = plain (copied_file now i)
copied_source now (tree nodes) = tree (map (copied_node now) nodes)
copied_source now other = other

abbrev pub is_present : Option Source → Bool
is_present none = false
is_present (some s) = true

abbrev pub source_sha256 : Source → Option String
source_sha256 (plain i) = some i.sha256
source_sha256 s = none

-- `stage`: the source that is to be processed, the snapshot, and the world after it.
unfoldable pub stage : Site → Bool → World → Result StagingError (Source × Snapshot × World)
stage site copy_source w = do
  before ← snapshot site w.source
  validate_archive site before
  raise_if site.root_inside_source analysis_root_invalid
  raise_if (is_present w.staged_source) analysis_root_not_empty
  let copy = copied_source (site.clock 0) w.source
  let manifest : Manifest = record { source = before; copied = copy_source; after = none }
  ok (
    (if copy_source then copy else w.source),
    before,
    record w {
      staged_source = if copy_source then some copy else none;
      records = some (manifest, staged (site.clock 0) (source_sha256 w.source) ∷ []);
    },
  )

abbrev pub digest_of : Snapshot → String
digest_of (of_file i) = i.sha256
digest_of (of_tree size sha256 entries) = sha256

unfoldable pub same_modes : List Entry → List Entry → Bool
same_modes [] [] = true
same_modes [] (e ∷ es) = false
same_modes (d ∷ ds) [] = false
same_modes (d ∷ ds) (e ∷ es) =
    let rest = same_modes ds es in d.path == e.path && (eqb d.mode e.mode && rest)

-- The modes are compared if the source was a directory; a file's are those of ".".
abbrev pub modes_kept : Snapshot → Snapshot → Bool
modes_kept (of_file i) after = true
modes_kept (of_tree size sha256 entries) (of_tree size' sha256' entries') =
    same_modes entries entries'
modes_kept (of_tree size sha256 entries) (of_file i) = false

abbrev pub all_events : Site → Source → Snapshot → List Event
all_events site source after =
    staged (site.clock 0) (source_sha256 source)
    ∷ processing_started (site.clock 1)
    ∷ processing_completed (site.clock 2)
    ∷ source_verified (site.clock 3) (digest_of after)
    ∷ []

-- The checks of `run` after the processor: the second snapshot, if it agrees with the first.
unfoldable pub unchanged : Site → Snapshot → Source → Result StagingError Snapshot
unchanged site before source = do
  after ← snapshot site source
  raise_if (not (digest_of before == digest_of after)) source_changed
  raise_if (not (modes_kept before after)) source_changed
  ok after

-- What is left when `run` ends: the records are written again if the source was unchanged.
unfoldable pub concluded :
    Site → Bool → Source → Snapshot → World → Result StagingError Snapshot → World
concluded site copy_source source before w (err e) = w
concluded site copy_source source before w (ok after) = record w {
  records = some (
    record { source = before; copied = copy_source; after = some after },
    all_events site source after,
  );
}

unfoldable pub after_stage :
    Site
    → Bool
    → (Source → World → World)
    → World
    → Result StagingError (Source × Snapshot × World)
    → Result StagingError Snapshot × World
after_stage site copy_source processor w (err e) = (err e, w)
after_stage site copy_source processor w (ok (target, before, w')) =
    let processed = processor target w' in
    let checked = unchanged site before processed.source in
    (checked, concluded site copy_source w.source before processed checked)

-- `run` with a processor that does not raise: it is given the staged source.
unfoldable pub run :
    Site
    → Bool
    → (processor : Source → World → World) → World
    → Result StagingError Snapshot × World
run site copy_source processor w =
    after_stage site copy_source processor w (stage site copy_source w)
