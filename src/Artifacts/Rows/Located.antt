-- ===== src/Artifacts/Rows/Located.antt =====
-- Which path, digest and row the records of src/dfir_workbench/artifact_timeline.py carry.
use dfir_evidence_workbench.Base.{ℕ, suc, ◌≡◌, refl, String, List, [], ◌∷◌, ◌++◌}
use dfir_evidence_workbench.Base.Json.{Fields}
use dfir_evidence_workbench.Base.Result.{Result, ok, err, OnOk, >>=-OnOk, OnOk-ok}
use dfir_evidence_workbench.Artifacts.Records.{
  Libs, Origin, Record, timestamp, first_time, time_keys, record_of, records_of,
}
use dfir_evidence_workbench.Artifacts.Rows.{Readers, Problem, Parsed, rows_of, recorded, parse_text}

-- The records of one text or table: each carries the path and the digest of its origin, and their rows
-- are numbered in order, from `suc n` on.
abbrev pub AreRows : (path digest : String) → ℕ → List Record → Type 0
AreRows path digest n [] = Unit {0}
AreRows path digest n (r ∷ rs) =
    (r.source_path ≡ path)
    × (r.source_sha256 ≡ digest)
    × (r.source_row ≡ suc n)
    × AreRows path digest (suc n) rs

-- Records that are, one after the other, those of texts or tables of which `P` gives the path and the
-- digest.
pub data AreParts (P : (path digest : String) → Type 0) : List Record → Type 0 where
  no_part : AreParts P []
  part :
      (path digest : String) (rs qs : List Record)
      → P path digest
      → AreRows path digest 0 rs
      → AreParts P qs
      → AreParts P (rs ++ qs)

pub AreParts-map :
    (P Q : (path digest : String) → Type 0)
    → ((path digest : String) → P path digest → Q path digest)
    → (rs : List Record) → AreParts P rs
    → AreParts Q rs
AreParts-map P Q f rs no_part = no_part
AreParts-map P Q f rs (part path digest ps qs h rows rest) =
    part path digest ps qs (f path digest h) rows (AreParts-map P Q f qs rest)

record_of-row :
    (libs : Libs) (o : Origin) (n : ℕ) (row : Fields)
    → OnOk
        (λ r. (r.source_path ≡ o.path) × (r.source_sha256 ≡ o.digest) × (r.source_row ≡ suc n))
        (record_of libs o (suc n) row)
unfolding record_of
record_of-row libs o n row =
    >>=-OnOk _ (timestamp libs (first_time row time_keys) o.timezone) _
      λ stamp _. (refl, refl, refl)

pub records_of-AreRows :
    (libs : Libs) (o : Origin) (n : ℕ) (rows : List Fields)
    → OnOk (AreRows o.path o.digest n) (records_of libs o n rows)
unfolding records_of
records_of-AreRows libs o n [] = tt
records_of-AreRows libs o n (row ∷ rows) = >>=-OnOk _ (record_of libs o (suc n) row) _ λ r e.
    >>=-OnOk _ (records_of libs o (suc n) rows) _ λ rs es.
      let own = OnOk-ok _ _ (record_of-row libs o n row) e in
      (
        own.0,
        own.1,
        own.2,
        OnOk-ok (AreRows o.path o.digest (suc n)) _ (records_of-AreRows libs o (suc n) rows) es,
      )

abbrev pub IsParsedAt : (path digest : String) → Parsed → Type 0
IsParsedAt path digest p = AreRows path digest 0 (p.0)

recorded-IsParsedAt :
    (libs : Libs) (o : Origin) (m : Result String (List Fields × List Problem))
    → OnOk (IsParsedAt o.path o.digest) (recorded libs o m)
recorded-IsParsedAt libs o (err message) = tt
recorded-IsParsedAt libs o (ok (rows, problems)) =
    >>=-OnOk _ (records_of libs o 0 rows) _
      λ rs e. OnOk-ok (AreRows o.path o.digest 0) _ (records_of-AreRows libs o 0 rows) e

pub parse_text-IsParsedAt :
    (libs : Libs) (readers : Readers) (o : Origin) (suffix : String) (text : Result String String)
    → OnOk (IsParsedAt o.path o.digest) (parse_text libs readers o suffix text)
unfolding parse_text
parse_text-IsParsedAt libs readers o suffix (err message) = tt
parse_text-IsParsedAt libs readers o suffix (ok text) =
    recorded-IsParsedAt libs o (rows_of readers suffix o.path text)
