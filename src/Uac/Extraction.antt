-- ===== src/Uac/Extraction.antt =====
-- `UACAdapter.extract` of src/dfir_workbench/adapters/uac_adapter.py. Whether the validation found the
-- archive sound, what zipfile and tarfile list and read, and the output of 7z are its arguments.
mod Contained
mod Tests
use Prim.Native.Nat.{Ordering}
use Prim.Native.String.{compare}
use dfir_evidence_workbench.Base.{
  ℕ, zero, suc, ◌==◌, String, Bool, true, false, not, ◌&&◌, Option, none, some, is_some, List, [],
  ◌∷◌, any, if◌then◌else◌,
}
use dfir_evidence_workbench.Base.Result.{Result, ok, err}
use dfir_evidence_workbench.Base.Dict.{Dict}
use dfir_evidence_workbench.Uac.Names.{
  AdapterError, archive_member_invalid, source_unreadable, symlink_rejected, extraction_failed,
  archive_invalid, safe_member,
}
use dfir_evidence_workbench.Uac.Copies.{
  SafetyLimits, Stream, adapter_error, Progress, noted, rejected, raising, copy_stream,
}

-- What stands at a path of a directory.
pub data Entry : Type 0 where
  absent special : Entry
  plain : Stream → Entry

pub record ZipMember : Type 0 where
  pub filename : String
  pub is_dir : Bool
  pub is_encrypted : Bool
  pub content : Stream

pub record TarMember : Type 0 where
  pub tar_name : String
  pub isfile : Bool
  pub tar_content : Stream

pub data Source : Type 0 where
  directory : (String → Entry) → Source
  zip : List ZipMember → Source
  -- the output of `7z x` for a member, if it succeeds
  seven_zip : (String → Option Stream) → Source
  tar : List TarMember → Source

-- A set of names, in their order.
abbrev pub insert : String → List String → List String
insert s [] = s ∷ []
insert s (t ∷ ts) =
    let rest = insert s ts in
    elim (compare s t) [ Ordering.lt ↦ s ∷ t ∷ ts | Ordering.eq ↦ t ∷ ts | Ordering.gt ↦ t ∷ rest ]

abbrev pub has : List String → String → Bool
has names rel = any (λ s. s == rel) names

abbrev pub with_name : Result AdapterError String → List String → List String
with_name (err e) names = names
with_name (ok rel) names = insert rel names

-- `wanted`
unfoldable pub wanted : List String → List String
wanted [] = []
wanted (raw ∷ raws) = with_name (safe_member raw) (wanted raws)

abbrev refused : Result AdapterError String → Progress → Progress
refused (err e) p = rejected e p
refused (ok rel) p = p

-- the errors of the names that are refused
unfoldable pub refusals : List String → Progress → Progress
refusals [] p = p
refusals (raw ∷ raws) p = refusals raws (refused (safe_member raw) p)

-- A loop that an exception ends.
abbrev pub each : {A : Type 0} → (A → Progress → Progress) → List A → Progress → Progress
each step [] p = p
each step (x ∷ xs) p = let rest = each step xs (step x p) in if is_some p.raised then p else rest

module _ (limits : SafetyLimits) where
  abbrev pub from_entry : String → Progress → Entry → Progress
  from_entry rel p absent = noted (source_unreadable rel) p
  from_entry rel p special = rejected (symlink_rejected rel) p
  from_entry rel p (plain content) = copy_stream limits rel content p

  abbrev pub zip_member : List String → ZipMember → Progress → Result AdapterError String → Progress
  zip_member names m p (err e) = rejected e p
  zip_member names m p (ok rel) =
      if has names rel && not m.is_dir
      then (if m.is_encrypted
          then rejected (archive_member_invalid rel) p
          else copy_stream limits rel m.content p)
      else p

  abbrev pub tar_member : List String → TarMember → Progress → Result AdapterError String → Progress
  tar_member names m p (err e) = rejected e p
  tar_member names m p (ok rel) =
      if has names rel
      then (if m.isfile
          then copy_stream limits rel m.tar_content p
          else rejected (symlink_rejected rel) p)
      else p

  abbrev pub from_output : String → Progress → Option Stream → Progress
  from_output rel p none = rejected (extraction_failed rel) p
  from_output rel p (some content) = copy_stream limits rel content p

  abbrev pub seven_member :
      (String → Option Stream) → String → Progress → Result AdapterError String → Progress
  seven_member output rel p (err e) = raising (adapter_error e) p
  seven_member output rel p (ok r) = from_output rel p (output rel)

  abbrev pub from_source : Source → List String → Progress → Progress
  from_source (directory entries) names p = each (λ rel q. from_entry rel q (entries rel)) names p
  from_source (zip ms) names p = each (λ m q. zip_member names m q (safe_member m.filename)) ms p
  from_source (seven_zip output) names p =
      each (λ rel q. seven_member output rel q (safe_member rel)) names p
  from_source (tar ms) names p = each (λ m q. tar_member names m q (safe_member m.tar_name)) ms p

  abbrev pub begun : Dict String (List ℕ) → List String → Progress
  begun files directories = record {
    files = files;
    directories = directories;
    left_over = [];
    total = 0;
    extracted_count = 0;
    rejected_count = 0;
    errors = [];
    raised = none;
  }

  -- `extract`, over what is below the root before
  unfoldable pub extract :
      (is_valid : Bool)
      → Source
      → (allowlist : List String) → Dict String (List ℕ)
      → (directories : List String) → Progress
  extract is_valid source [] files directories = begun files directories
  extract is_valid source (raw ∷ raws) files directories =
      if is_valid
      then from_source source (wanted (raw ∷ raws))
          (refusals (raw ∷ raws) (begun files directories))
      else raising (adapter_error archive_invalid) (begun files directories)

pub data Status : Type 0 where
  not_requested completed partial rejected_all : Status

abbrev status_of : List AdapterError → ℕ → Status
status_of [] n = completed
status_of (e ∷ es) zero = rejected_all
status_of (e ∷ es) (suc n) = partial

abbrev pub status : List String → Progress → Status
status [] p = not_requested
status (raw ∷ raws) p = status_of p.errors p.extracted_count
