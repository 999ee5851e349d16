-- ===== src/Ewf.antt =====
-- `inventory` and `limits_ok` of src/dfir_workbench/ewf.py. The segments of a source come as the list
-- that `_segment_paths` answers, each with what `stat` and the digest of its file give or raise.
pub mod Complete
mod Tests
use dfir_evidence_workbench.Base.{
  ℕ, suc, ◌+◌, String, Bool, true, false, List, [], ◌∷◌, ltb, if◌then◌else◌,
}
use dfir_evidence_workbench.Base.Strings.{◌<>◌, decimal}
use dfir_evidence_workbench.Base.Result.{Result, ok, err}

-- A file, with the text of the exception where it cannot be read.
pub record Segment : Type 0 where
  pub name : String
  pub stat : Result String ℕ
  pub digest : Result String String

pub record Entry : Type 0 where
  pub path : String
  pub size : ℕ
  pub sha256 : String
  pub source_id : String

pub data Problem : Type 0 where
  file_limit_exceeded : String → Problem
  segment_unreadable : String → String → Problem

pub record Inventory : Type 0 where
  pub segments : List Entry
  pub total_bytes : ℕ
  pub errors : List Problem

pub data Status : Type 0 where
  valid degraded unsupported : Status

-- The entry of a segment that follows `n` others.
abbrev pub entry_of : Segment → ℕ → String → ℕ → Entry
entry_of s size sha n = record {
  path = s.name;
  size = size;
  sha256 = sha;
  source_id = "ewf-segment:" <> decimal (suc n);
}

abbrev pub with_entry : Entry → Inventory → Inventory
with_entry e rest = record rest { segments = e ∷ rest.segments }

abbrev pub with_error : Problem → Inventory → Inventory
with_error p rest = record rest { errors = p ∷ rest.errors }

abbrev pub over_limit : Segment → ℕ → Inventory
over_limit s total = record {
  segments = [];
  total_bytes = total;
  errors = file_limit_exceeded s.name ∷ [];
}

-- A segment of known size, which counts also where its file cannot be read.
abbrev pub hashed : Segment → ℕ → ℕ → Result String String → (ℕ → Inventory) → Inventory
hashed s size n (err m) others = with_error (segment_unreadable s.name m) (others n)
hashed s size n (ok sha) others = with_entry (entry_of s size sha n) (others (suc n))

abbrev pub sized : ℕ → Segment → (n total : ℕ) → Result String ℕ → (ℕ → ℕ → Inventory) → Inventory
sized limit s n total (err m) others = with_error (segment_unreadable s.name m) (others n total)
sized limit s n total (ok size) others =
    let read = hashed s size n s.digest (λ next. others next (total + size)) in
    if ltb limit (total + size) then over_limit s (total + size) else read

-- The loop: `n` segments are listed, with `total` bytes.
unfoldable pub walk : ℕ → List Segment → (n total : ℕ) → Inventory
walk limit [] n total = record { segments = []; total_bytes = total; errors = [] }
walk limit (s ∷ ss) n total = sized limit s n total s.stat (walk limit ss)

abbrev pub inventory : ℕ → List Segment → Inventory
inventory limit segments = walk limit segments 0 0

abbrev pub status_of : List Entry → List Problem → Status
status_of [] problems = unsupported
status_of (e ∷ es) [] = valid
status_of (e ∷ es) (p ∷ ps) = degraded

abbrev pub status : Inventory → Status
status i = status_of i.segments i.errors

abbrev pub within_size : ℕ → Result String ℕ → Result String Bool
within_size limit (err m) = err m
within_size limit (ok size) = ok (if ltb limit size then false else true)

-- `limits_ok`, which raises where a segment before the first that is too large has no size
unfoldable pub segments_ok : ℕ → List Segment → Result String Bool
segments_ok limit [] = ok true
segments_ok limit (s ∷ ss) = further (within_size limit s.stat) (segments_ok limit ss)
  where
    further : Result String Bool → Result String Bool → Result String Bool
    further (err m) rest = err m
    further (ok false) rest = ok false
    further (ok true) rest = rest

unfoldable pub limits_ok : (max_file_bytes max_total_bytes : ℕ) → List Segment → Result String Bool
limits_ok file_limit total_limit segments = all_in (segments_ok file_limit segments)
  where
    all_in : Result String Bool → Result String Bool
    all_in (ok true) =
        ok (if ltb total_limit ((inventory total_limit segments).total_bytes) then false else true)
    all_in r = r
