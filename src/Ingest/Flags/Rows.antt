-- ===== src/Ingest/Flags/Rows.antt =====
-- What `create_flag` of src/dfir_workbench/db.py does to the flags.
use mathlib.Core.Path.{subst}
use dfir_evidence_workbench.Base.{
  String, ◌==◌, ◌≡◌, refl, Bool, true, false, Option, none, some, List, [], ◌∷◌, find, keep,
  is_some, if◌then◌else◌, eq_refl,
}
use dfir_evidence_workbench.Base.Result.{Result, ok, err}
use dfir_evidence_workbench.Ingest.Flags.{
  TimelineEntryFlag, FlagTable, FlagError, unique_violation, foreign_key_violation, is_analyst,
  is_flag, has_flag_id, insert_flag, store_flag, of_entry,
}

abbrev pub find_flag : FlagTable → TimelineEntryFlag → Option TimelineEntryFlag
find_flag db f = find (is_flag f.tenant_id f.timeline_entry_id f.analyst_id) db.flags

-- An insert answers a flag that is there and changes nothing, or puts its own in front.
pub data IsStored (db : FlagTable) (f : TimelineEntryFlag)
    : TimelineEntryFlag → FlagTable → Type 0 where
  existing : (g : TimelineEntryFlag) → find_flag db f ≡ some g → IsStored db f g db
  inserted :
      find_flag db f ≡ none
      → find (has_flag_id f.tenant_id f.flag_id) db.flags ≡ none
      → IsStored db f f (record db { flags = f ∷ db.flags })

abbrev IsResult :
    FlagTable → TimelineEntryFlag → Result FlagError (TimelineEntryFlag × FlagTable) → Type 0
IsResult db f (ok (g, db')) = IsStored db f g db'
IsResult db f (err e) = Unit {0}

insert_flag-IsResult :
    (db : FlagTable) (f : TimelineEntryFlag) (o : Option TimelineEntryFlag)
    → find_flag db f ≡ o
    → IsResult db f (insert_flag db f o)
unfolding insert_flag
insert_flag-IsResult db f (some found) e = existing found e
insert_flag-IsResult db f none e =
    at (find (has_flag_id f.tenant_id f.flag_id) db.flags) refl
      (is_analyst f.tenant_id f.analyst_id db.analysts)
  where
    at :
        (o : Option TimelineEntryFlag)
        → find (has_flag_id f.tenant_id f.flag_id) db.flags ≡ o
        → (b : Bool)
        → IsResult db f (
            if is_some o
            then err unique_violation
            else if b
            then ok (f, record db { flags = f ∷ db.flags })
            else err foreign_key_violation)
    at (some x) h b = tt
    at none h true = inserted e h
    at none h false = tt

pub store_flag-IsStored :
    (db : FlagTable) (f g : TimelineEntryFlag) (db' : FlagTable)
    → store_flag db f ≡ ok (g, db')
    → IsStored db f g db'
unfolding store_flag
store_flag-IsStored db f g db' h =
    subst (IsResult db f) h (insert_flag-IsResult db f (find_flag db f) refl)

is_flag_self :
    (f : TimelineEntryFlag) → is_flag f.tenant_id f.timeline_entry_id f.analyst_id f ≡ true
is_flag_self f = rw (eq_refl f.tenant_id, eq_refl f.timeline_entry_id, eq_refl f.analyst_id) refl

-- The flag that an insert answers is found under its key afterwards.
pub find_flag-IsStored :
    {db : FlagTable} {f g : TimelineEntryFlag} {db' : FlagTable}
    → IsStored db f g db'
    → find_flag db' f ≡ some g
find_flag-IsStored (existing g e) = e
find_flag-IsStored {db} {f} (inserted e i) = rw (is_flag_self f) refl

-- Flags of another tenant are as they were.
pub keep-IsStored :
    {db : FlagTable} {f g : TimelineEntryFlag} {db' : FlagTable} (t entry : String)
    → IsStored db f g db'
    → (f.tenant_id == t) ≡ false
    → keep (of_entry t entry) db'.flags ≡ keep (of_entry t entry) db.flags
keep-IsStored t entry (existing g e) h = refl
keep-IsStored t entry (inserted e i) h = rw h refl

-- A flag's key and its id each stand once.
abbrev pub IsUnique : List TimelineEntryFlag → Type 0
IsUnique [] = Unit {0}
IsUnique (f ∷ fs) =
    (find (is_flag f.tenant_id f.timeline_entry_id f.analyst_id) fs ≡ none)
    × (find (has_flag_id f.tenant_id f.flag_id) fs ≡ none)
    × IsUnique fs

pub IsStored-IsUnique :
    {db : FlagTable} {f g : TimelineEntryFlag} {db' : FlagTable}
    → IsStored db f g db'
    → IsUnique db.flags
    → IsUnique db'.flags
IsStored-IsUnique (existing g e) u = u
IsStored-IsUnique (inserted e i) u = (e, i, u)
