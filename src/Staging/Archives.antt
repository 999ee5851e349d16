-- ===== src/Staging/Archives.antt =====
-- The checks of archives in src/dfir_workbench/staging.py. What zipfile and tarfile read of a file is
-- a `Container`.
use dfir_evidence_workbench.Base.{
  ℕ, ◌+◌, ◌/◌, ◌%◌, ◌==◌, String, Bool, not, ◌||◌, ◌&&◌, List, [], ◌∷◌, map, any, ltb, eqb, length,
  if◌then◌else◌,
}
use dfir_evidence_workbench.Base.Strings.{◌<>◌, split, has_text, starts, ends, lower_text}
use dfir_evidence_workbench.Base.Result.{Result, ok, err, ◌>>=◌, ◌>>◌, raise_if}

-- The codes of a `StagingError`, and any other exception.
pub data StagingError : Type 0 where
  path_traversal_rejected source_invalid file_limit_exceeded symlink_rejected
        archive_limit_exceeded :
      (path : String) → StagingError
  archive_invalid analysis_root_invalid analysis_root_not_empty source_changed : StagingError
  unexpected : StagingError

pub record SafetyLimits : Type 0 where
  pub max_file_bytes : ℕ
  pub max_total_bytes : ℕ
  pub max_archive_members : ℕ

-- `PurePosixPath(name).parts` of a relative path
unfoldable pub kept_parts : List String → List String
kept_parts [] = []
kept_parts (p ∷ ps) = let rest = kept_parts ps in if p == "" || p == "." then rest else p ∷ rest

abbrev pub is_separator : ℕ → Bool
is_separator c = eqb c b'/' || eqb c 0x5c

-- the parts of a name in which a backslash separates as a slash does
abbrev pub parts_of : String → List String
parts_of name = kept_parts (split is_separator name)

unfoldable pub joined : List String → String
joined [] = "."
joined (p ∷ []) = p
joined (p ∷ q ∷ ps) = p <> ("/" <> joined (q ∷ ps))

abbrev pub is_absolute : String → Bool
is_absolute name = starts "/" name || starts "\\" name

-- `path.parts[0]` raises if there is no part.
abbrev pub checked_parts : String → List String → Result StagingError String
checked_parts name [] = err unexpected
checked_parts name (p ∷ ps) =
    raise_if (has_text ":" p || any (λ part. part == "..") (p ∷ ps)) (path_traversal_rejected name)
    >> ok (joined (p ∷ ps))

-- `_safe_member`
unfoldable pub safe_member : String → Result StagingError String
safe_member name = do
  raise_if (name == "" || is_absolute name) (path_traversal_rejected name)
  checked_parts name (parts_of name)

pub record ZipMember : Type 0 where
  pub filename : String
  pub external_attr : ℕ
  pub zip_is_dir : Bool
  pub file_size : ℕ

pub record TarMember : Type 0 where
  pub tar_name : String
  pub issym : Bool
  pub islnk : Bool
  pub isfile : Bool
  pub isdir : Bool
  pub tar_size : ℕ

-- What the loops over both kinds of members look at.
pub record Member : Type 0 where
  pub name : String
  pub is_special : Bool
  pub has_bytes : Bool
  pub size : ℕ

abbrev zip_mode : ZipMember → ℕ
zip_mode m = (m.external_attr / 65536) % 65536

-- the type of a file in its mode: 10 for a link, 8 for a regular file, 4 for a directory
abbrev file_type : ℕ → ℕ
file_type mode = (mode / 4096) % 16

abbrev is_special_mode : ℕ → Bool
is_special_mode mode =
    eqb (file_type mode) 10
    || (not (eqb mode 0) && not (eqb (file_type mode) 8 || eqb (file_type mode) 4))

unfoldable pub of_zip : ZipMember → Member
of_zip m = record {
  name = m.filename;
  is_special = is_special_mode (zip_mode m);
  has_bytes = not m.zip_is_dir;
  size = m.file_size;
}

unfoldable pub of_tar : TarMember → Member
of_tar m = record {
  name = m.tar_name;
  is_special = m.issym || (m.islnk || not (m.isfile || m.isdir));
  has_bytes = m.isfile;
  size = m.tar_size;
}

-- The loop over the members with the bytes so far.
unfoldable pub check_members : SafetyLimits → ℕ → List Member → Result StagingError (Unit {0})
check_members limits total [] = ok tt
check_members limits total (m ∷ ms) = do
  name ← safe_member m.name
  raise_if m.is_special (symlink_rejected name)
  raise_if
      (m.has_bytes
        && (ltb limits.max_file_bytes m.size || ltb limits.max_total_bytes (total + m.size)))
      (archive_limit_exceeded name)
  check_members limits (if m.has_bytes then total + m.size else total) ms

unfoldable pub check_archive : SafetyLimits → List Member → Result StagingError (Unit {0})
check_archive limits members = do
  raise_if (ltb limits.max_archive_members (length members)) (archive_limit_exceeded ".")
  check_members limits 0 members

-- A ZIP file with its members and whether `testzip` finds no bad one, a TAR file with its members, one
-- of these two that cannot be read, or another file with its name.
pub data Container : Type 0 where
  zip : List ZipMember → Bool → Container
  tar : List TarMember → Container
  broken : Container
  no_archive : String → Container

abbrev is_archive_name : String → Bool
is_archive_name s =
    ends ".zip" s
    || ends ".tar" s
    || ends ".tar.gz" s
    || ends ".tgz" s
    || ends ".tar.xz" s
    || ends ".txz" s

unfoldable pub validate_container : SafetyLimits → Container → Result StagingError (Unit {0})
validate_container limits (zip members is_sound) = do
  check_archive limits (map of_zip members)
  raise_if (not is_sound) archive_invalid
validate_container limits (tar members) = check_archive limits (map of_tar members)
validate_container limits broken = err archive_invalid
validate_container limits (no_archive name) =
    raise_if (is_archive_name (lower_text name)) archive_invalid
