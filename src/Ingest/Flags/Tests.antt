-- ===== src/Ingest/Flags/Tests.antt =====
-- Timeline flags of src/dfir_workbench/db.py on concrete calls.
use dfir_evidence_workbench.Base.{ap, ◌==◌, ◌≡◌, ◌≢◌, refl, true, none, some, [], ◌∷◌}
use dfir_evidence_workbench.Base.Text.{or_text}
use dfir_evidence_workbench.Base.Result.{ok}
use dfir_evidence_workbench.Base.Strings.{strip}
use dfir_evidence_workbench.Ingest.Flags.{
  TimelineEntryFlag, FlagTable, Uuids, DrawnFlag, create_flag, list_for_entry, insert_flag,
  store_flag, newest_first, select_flags,
}
use dfir_evidence_workbench.Ingest.Flags.Requests.{create_flag_again}

abbrev uuids : Uuids
uuids = record { is_uuid = λ s. true; cast = λ s. some s }

abbrev empty : FlagTable
empty = record { flags = []; analysts = ("t1", "ann") ∷ [] }

abbrev drawn : DrawnFlag
drawn = record { id = "f1"; now = 7 }

abbrev flag : TimelineEntryFlag
flag = record {
  tenant_id = "t1";
  flag_id = "f1";
  timeline_entry_id = "entry 9";
  analyst_id = "ann";
  analyst_name = "Ann";
  created_at = 7;
  note = some "odd";
}

abbrev one : FlagTable
one = record { flags = flag ∷ []; analysts = ("t1", "ann") ∷ [] }

creates :
    create_flag uuids "t1" "ann" " entry 9" (some "odd") (some "Ann ") drawn empty ≡ ok (flag, one)
unfolding create_flag store_flag insert_flag strip
creates = refl

lists : list_for_entry uuids "t1" "entry 9 " one ≡ ok (flag ∷ [])
unfolding list_for_entry select_flags newest_first strip
lists = refl

create_flag_again_example :
    create_flag uuids "t1" "ann" "entry 9\n" none none (record { id = "f2"; now = 8 }) one
    ≡ ok (flag, one)
unfolding strip
create_flag_again_example =
    create_flag_again uuids "t1" "ann" " entry 9" "entry 9\n" (some "odd") none (some "Ann ") none
      drawn (record { id = "f2"; now = 8 }) empty one flag creates refl refl

other_tenant : uuids.cast "t2" ≢ uuids.cast "t1"
other_tenant e = clash (ap (λ o. or_text o "" == "t1") e)
  where
    clash : ("t2" == "t1") ≡ ("t1" == "t1") → ⊥
    clash p = cc
