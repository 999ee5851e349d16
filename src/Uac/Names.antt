-- ===== src/Uac/Names.antt =====
-- `UACAdapter._safe_member` of src/dfir_workbench/adapters/uac_adapter.py, and what posixpath.normpath
-- makes of a relative path.
pub mod Inside
use Prim.Native.Char.{code}
use dfir_evidence_workbench.Base.{
  ℕ, ◌==◌, String, Bool, true, false, ◌||◌, List, [], ◌∷◌, eqb, if◌then◌else◌,
}
use dfir_evidence_workbench.Base.Strings.{◌<>◌, split, starts}
use dfir_evidence_workbench.Base.Result.{Result, ok, err}
use dfir_evidence_workbench.Staging.Archives.{joined}

-- The codes of an `AdapterError`, with its path.
pub data AdapterError : Type 0 where
  path_traversal_rejected archive_member_invalid source_unreadable symlink_rejected
        total_limit_exceeded extraction_failed :
      (path : String) → AdapterError
  archive_invalid : AdapterError

abbrev pub is_slash : ℕ → Bool
is_slash c = eqb c b'/'

-- name.replace("\\", "/")
unfoldable pub slashed : String → String
slashed String.[] = ""
slashed (String.◌∷◌ c s) =
    let rest = slashed s in if eqb (code c) 0x5c then "/" <> rest else String.◌∷◌ c rest

abbrev has_drive : String → Bool
has_drive (String.◌∷◌ c (String.◌∷◌ d s)) = eqb (code d) b':'
has_drive s = false

-- The parts so far, the last one first, after one more part.
abbrev pub entered : List String → String → List String
entered [] p = p ∷ []
entered (d ∷ ds) p = if p == ".." then (if d == ".." then p ∷ d ∷ ds else ds) else p ∷ d ∷ ds

abbrev pub push : List String → String → List String
push done p = if p == "" || p == "." then done else entered done p

abbrev pub walk : List String → List String → List String
walk done [] = done
walk done (p ∷ ps) = walk (push done p) ps

abbrev pub turned : List String → List String → List String
turned [] done = done
turned (p ∷ ps) done = turned ps (p ∷ done)

-- `posixpath.normpath` of a relative path
unfoldable pub normpath : String → String
normpath path = joined (turned (walk [] (split is_slash path)) [])

abbrev pub checked_path : String → String → Result AdapterError String
checked_path name n =
    if n == "" || n == "."
    then err (archive_member_invalid name)
    else if n == ".." || starts "../" n
    then err (path_traversal_rejected name)
    else ok n

unfoldable pub safe_member : String → Result AdapterError String
safe_member name =
    if starts "/" (slashed name) || has_drive (slashed name)
    then err (path_traversal_rejected name)
    else checked_path name (normpath (slashed name))
