-- ===== src/Ingest/Flags.antt =====
-- `TimelineFlagRepository` of src/dfir_workbench/db.py over the table of
-- migrations/0001_create_timeline_entry_flags.sql. The CHECKs of the table hold of stripped texts
-- that are not empty. Fresh flag ids and the database's clock are arguments. What Python takes for a
-- UUID and what the server casts to one are parameters.
pub mod Rows
pub mod Requests
mod Tests
use dfir_evidence_workbench.Base.{
  ℕ, String, ◌==◌, ◌≡◌, refl, Bool, true, false, not, ◌&&◌, ◌||◌, Option, none, some, List, [], ◌∷◌,
  find, keep, is_some, any, ltb, arith, if◌then◌else◌,
}
use dfir_evidence_workbench.Base.Text.{or_text}
use dfir_evidence_workbench.Base.Strings.{strip}
use dfir_evidence_workbench.Base.Result.{Result, ok, err, ◌>>=◌, ◌>>◌, raise_if}

pub record TimelineEntryFlag : Type 0 where
  pub tenant_id : String
  pub flag_id : String
  pub timeline_entry_id : String
  pub analyst_id : String
  pub analyst_name : String
  pub created_at : ℕ
  pub note : Option String

-- The flags, the newest insert first, and the keys of dfir.analyst.
pub record FlagTable : Type 0 where
  pub flags : List TimelineEntryFlag
  pub analysts : List (String × String)

pub data FlagError : Type 0 where
  value_error invalid_text unique_violation foreign_key_violation : FlagError

pub record Uuids : Type 0 where
  pub is_uuid : String → Bool
  pub cast : String → Option String

abbrev pub is_flag : (tenant entry analyst : String) → TimelineEntryFlag → Bool
is_flag tenant entry analyst f =
    f.tenant_id == tenant && (f.timeline_entry_id == entry && f.analyst_id == analyst)

abbrev pub has_flag_id : (tenant id : String) → TimelineEntryFlag → Bool
has_flag_id tenant id f = f.tenant_id == tenant && f.flag_id == id

abbrev pub is_analyst : String → String → List (String × String) → Bool
is_analyst tenant analyst rows = any (λ r. (r.0) == tenant && (r.1) == analyst) rows

abbrev pub uuid_or : Option String → Result FlagError String
uuid_or none = err invalid_text
uuid_or (some u) = ok u

-- INSERT … ON CONFLICT (tenant_id, timeline_entry_id, analyst_id) DO NOTHING RETURNING …, and the
-- SELECT of the committed row if that returned none.
unfoldable pub insert_flag :
    FlagTable
    → TimelineEntryFlag
    → Option TimelineEntryFlag
    → Result FlagError (TimelineEntryFlag × FlagTable)
insert_flag db f (some found) = ok (found, db)
insert_flag db f none =
    if is_some (find (has_flag_id f.tenant_id f.flag_id) db.flags)
    then err unique_violation
    else if is_analyst f.tenant_id f.analyst_id db.analysts
    then ok (f, record db { flags = f ∷ db.flags })
    else err foreign_key_violation

-- The table's part of `create_flag`, with the tenant and the analyst as the server casts them.
unfoldable pub store_flag :
    FlagTable → TimelineEntryFlag → Result FlagError (TimelineEntryFlag × FlagTable)
store_flag db f =
    insert_flag db f (find (is_flag f.tenant_id f.timeline_entry_id f.analyst_id) db.flags)

-- What a call draws from the server.
pub record DrawnFlag : Type 0 where
  pub id : String
  pub now : ℕ

module _ (u : Uuids) (tenant_id analyst_id : String) where
  unfoldable pub create_flag :
      (entry : String) (note analyst_name : Option String)
      → DrawnFlag
      → FlagTable
      → Result FlagError (TimelineEntryFlag × FlagTable)
  create_flag entry note analyst_name drawn db = do
    raise_if (strip entry == "") value_error
    raise_if (strip (or_text analyst_name analyst_id) == "") value_error
    raise_if (not (u.is_uuid tenant_id) || not (u.is_uuid analyst_id)) value_error
    tenant ← uuid_or (u.cast tenant_id)
    analyst ← uuid_or (u.cast analyst_id)
    store_flag db (record {
      tenant_id = tenant;
      flag_id = drawn.id;
      timeline_entry_id = strip entry;
      analyst_id = analyst;
      analyst_name = strip (or_text analyst_name analyst_id);
      created_at = drawn.now;
      note = note;
    })

-- ORDER BY created_at DESC; of equal times the row that comes first stays first.
abbrev insert_by_time : TimelineEntryFlag → List TimelineEntryFlag → List TimelineEntryFlag
insert_by_time f [] = f ∷ []
insert_by_time f (g ∷ gs) =
    let rest = insert_by_time f gs in if ltb f.created_at g.created_at then g ∷ rest else f ∷ g ∷ gs

unfoldable pub newest_first : List TimelineEntryFlag → List TimelineEntryFlag
newest_first [] = []
newest_first (f ∷ fs) = insert_by_time f (newest_first fs)

abbrev pub of_entry : (tenant entry : String) → TimelineEntryFlag → Bool
of_entry tenant entry f = f.tenant_id == tenant && f.timeline_entry_id == entry

unfoldable pub select_flags :
    Option String → String → FlagTable → Result FlagError (List TimelineEntryFlag)
select_flags none entry db = err invalid_text
select_flags (some tenant) entry db = ok (newest_first (keep (of_entry tenant entry) db.flags))

unfoldable pub list_for_entry :
    Uuids → (tenant_id entry : String) → FlagTable → Result FlagError (List TimelineEntryFlag)
list_for_entry u tenant_id entry db =
    if strip entry == "" || not (u.is_uuid tenant_id)
    then ok []
    else select_flags (u.cast tenant_id) (strip entry) db
