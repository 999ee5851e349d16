-- ===== src/Uac/Copies.antt =====
-- `_copy_stream` of src/dfir_workbench/adapters/uac_adapter.py, on what is below the extraction root. Only
-- the adapter writes there, and no links, so that no destination leads out of it, and a destination that
-- was free is so after the bytes were written.
pub mod Contained
use Prim.Native.Char.{code}
use dfir_evidence_workbench.Base.{
  ℕ, suc, ◌+◌, ◌==◌, String, Bool, true, false, ◌||◌, Option, none, some, is_some, List, [], ◌∷◌,
  ◌++◌, map, any, ltb, length, if◌then◌else◌,
}
use dfir_evidence_workbench.Base.Dict.{Dict, get, put, string_eq}
use dfir_evidence_workbench.Uac.Names.{
  AdapterError, archive_member_invalid, total_limit_exceeded, is_slash,
}

pub record SafetyLimits : Type 0 where
  pub max_file_bytes : ℕ
  pub max_total_bytes : ℕ

-- What is read of a member: blocks of bytes, after which a read may raise.
pub data Stream : Type 0 where
  unreadable : Stream
  blocks : List (List ℕ) → (breaks : Bool) → Stream

-- An exception that ends the extraction.
pub data Raised : Type 0 where
  adapter_error : AdapterError → Raised
  os_error : Raised

-- The files and directories below the root, the temporary files that were left there with the bytes
-- written, by the destination that they are for, the bytes of the files so far, and the result.
pub record Progress : Type 0 where
  pub files : Dict String (List ℕ)
  pub directories : List String
  pub left_over : Dict String (List ℕ)
  pub total : ℕ
  pub extracted_count : ℕ
  pub rejected_count : ℕ
  pub errors : List AdapterError
  pub raised : Option Raised

abbrev pub noted : AdapterError → Progress → Progress
noted e p = record p { errors = p.errors ++ (e ∷ []) }

abbrev pub rejected : AdapterError → Progress → Progress
rejected e p = record p { rejected_count = suc p.rejected_count; errors = p.errors ++ (e ∷ []) }

abbrev pub raising : Raised → Progress → Progress
raising e p = record p { raised = some e }

-- the directories above a relative path
unfoldable pub parents : String → List String
parents String.[] = []
parents (String.◌∷◌ c s) =
    let rest = map (λ d. String.◌∷◌ c d) (parents s) in
    if is_slash (code c) then "" ∷ rest else rest

abbrev pub is_blocked : Progress → String → Bool
is_blocked p rel = any (λ d. is_some (get p.files d)) (parents rel)

abbrev pub is_taken : Progress → String → Bool
is_taken p rel = is_some (get p.files rel) || any (λ d. d == rel) p.directories

abbrev pub flat : List (List ℕ) → List ℕ
flat [] = []
flat (b ∷ bs) = b ++ flat bs

-- The bytes that were read, unless they pass a limit.
unfoldable pub read_blocks : SafetyLimits → (total n : ℕ) → List (List ℕ) → Option ℕ
read_blocks limits total n [] = some n
read_blocks limits total n (b ∷ bs) =
    let rest = read_blocks limits total (n + length b) bs in
    if ltb limits.max_file_bytes (n + length b)
      || ltb limits.max_total_bytes (total + (n + length b))
    then none
    else rest

abbrev pub finished : String → List ℕ → Progress → ℕ → (breaks : Bool) → Progress
finished rel bytes p n true = raising os_error (record p { left_over = (rel, bytes) ∷ p.left_over })
finished rel bytes p n false = record p {
  files = put p.files rel bytes;
  total = p.total + n;
  extracted_count = suc p.extracted_count;
}

abbrev pub copied : String → List (List ℕ) → Bool → Progress → Option ℕ → Progress
copied rel bs breaks p none = rejected (total_limit_exceeded rel) p
copied rel bs breaks p (some n) = finished rel (flat bs) p n breaks

abbrev pub with_parents : String → Progress → Progress
with_parents rel p = record p { directories = parents rel ++ p.directories }

unfoldable pub copy_stream : SafetyLimits → String → Stream → Progress → Progress
copy_stream limits rel unreadable p = raising os_error p
copy_stream limits rel (blocks bs breaks) p =
    if is_blocked p rel
    then raising os_error p
    else if is_taken p rel
    then raising (adapter_error (archive_member_invalid rel)) (with_parents rel p)
    else copied rel bs breaks (with_parents rel p) (read_blocks limits p.total 0 bs)
