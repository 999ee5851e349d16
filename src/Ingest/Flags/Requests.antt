-- ===== src/Ingest/Flags/Requests.antt =====
-- `create_flag` and `list_for_entry` of src/dfir_workbench/db.py for principals.
use dfir_evidence_workbench.Base.{
  String, ◌==◌, ◌≡◌, ◌≢◌, refl, sym, ap, ◌∙◌, Bool, true, false, not, ◌||◌, Option, none, some, [],
  if◌then◌else◌, eq_iff,
}
use dfir_evidence_workbench.Base.Text.{or_text}
use dfir_evidence_workbench.Base.Result.{Result, ok, err, raise_if-ok, >>=-eq-ok}
use dfir_evidence_workbench.Base.Strings.{strip}
use dfir_evidence_workbench.Ingest.Flags.{
  TimelineEntryFlag, FlagTable, FlagError, value_error, Uuids, insert_flag, store_flag, DrawnFlag,
  create_flag, newest_first, select_flags, list_for_entry, uuid_or,
}
use dfir_evidence_workbench.Ingest.Flags.Rows.{
  store_flag-IsStored, find_flag-IsStored, keep-IsStored, IsUnique, IsStored-IsUnique,
}

abbrev ok_or_empty : Result FlagError String → String
ok_or_empty (ok s) = s
ok_or_empty (err e) = ""

uuid_or-ok : (o : Option String) (t : String) → uuid_or o ≡ ok t → o ≡ some t
uuid_or-ok none t e = cc
uuid_or-ok (some x) t e = ap (λ r. some (ok_or_empty r)) e

module _ (u : Uuids) (tenant_id analyst_id : String) where
  abbrev pub row :
      (tenant analyst entry : String)
      → (note analyst_name : Option String) → DrawnFlag
      → TimelineEntryFlag
  row tenant analyst entry note analyst_name drawn = record {
    tenant_id = tenant;
    flag_id = drawn.id;
    timeline_entry_id = strip entry;
    analyst_id = analyst;
    analyst_name = strip (or_text analyst_name analyst_id);
    created_at = drawn.now;
    note = note;
  }

  -- What a successful call passed.
  record IsAccepted (entry : String) (note analyst_name : Option String) (drawn : DrawnFlag)
      (db : FlagTable) (f : TimelineEntryFlag) (db' : FlagTable) : Type 0 where
    entry_test : (strip entry == "") ≡ false
    uuid_test : (not (u.is_uuid tenant_id) || not (u.is_uuid analyst_id)) ≡ false
    tenant : String
    cast_tenant : uuid_or (u.cast tenant_id) ≡ ok tenant
    analyst : String
    cast_analyst : uuid_or (u.cast analyst_id) ≡ ok analyst
    store : store_flag db (row tenant analyst entry note analyst_name drawn) ≡ ok (f, db')

  module _ (entry : String) (note analyst_name : Option String) (drawn : DrawnFlag)
      (db : FlagTable) where
    create_flag-IsAccepted :
        (f : TimelineEntryFlag) (db' : FlagTable)
        → create_flag u tenant_id analyst_id entry note analyst_name drawn db ≡ ok (f, db')
        → IsAccepted entry note analyst_name drawn db f db'
    unfolding create_flag
    create_flag-IsAccepted f db' h =
        let h1 = raise_if-ok (strip entry == "") value_error _ h in
        let h2 = raise_if-ok (strip (or_text analyst_name analyst_id) == "") value_error _ (h1.1) in
        let h3 =
          raise_if-ok (not (u.is_uuid tenant_id) || not (u.is_uuid analyst_id)) value_error _
            (h2.1) in
        let h4 = >>=-eq-ok (uuid_or (u.cast tenant_id)) _ (h3.1) in
        let h5 = >>=-eq-ok (uuid_or (u.cast analyst_id)) _ (h4.2) in
        record {
          entry_test = h1.0;
          uuid_test = h3.0;
          tenant = h4.0;
          cast_tenant = h4.1;
          analyst = h5.0;
          cast_analyst = h5.1;
          store = h5.2;
        }

    create_flag-eq :
        (tenant analyst : String)
        → (strip entry == "") ≡ false
        → (strip (or_text analyst_name analyst_id) == "") ≡ false
        → (not (u.is_uuid tenant_id) || not (u.is_uuid analyst_id)) ≡ false
        → uuid_or (u.cast tenant_id) ≡ ok tenant
        → uuid_or (u.cast analyst_id) ≡ ok analyst
        → create_flag u tenant_id analyst_id entry note analyst_name drawn db
          ≡ store_flag db (row tenant analyst entry note analyst_name drawn)
    unfolding create_flag
    create_flag-eq tenant analyst a b c d e = rw (a, b, c, d, e) refl

  -- After a flag was created, a call of the same principal for the same entry, up to surrounding
  -- space, answers that flag and changes nothing, whatever its note, id and time, if its analyst
  -- name is not blank.
  pub create_flag_again :
      (entry entry' : String) (note note' name name' : Option String) (drawn drawn' : DrawnFlag)
      → (db db' : FlagTable) (f : TimelineEntryFlag)
      → create_flag u tenant_id analyst_id entry note name drawn db ≡ ok (f, db')
      → strip entry' ≡ strip entry
      → (strip (or_text name' analyst_id) == "") ≡ false
      → create_flag u tenant_id analyst_id entry' note' name' drawn' db' ≡ ok (f, db')
  unfolding store_flag insert_flag
  create_flag_again entry entry' note note' name name' drawn drawn' db db' f h same named =
      let a = create_flag-IsAccepted entry note name drawn db f db' h in
      let found = find_flag-IsStored (store_flag-IsStored db _ f db' a.store) in
      create_flag-eq entry' note' name' drawn' db' a.tenant a.analyst (rw same a.entry_test) named
        a.uuid_test a.cast_tenant a.cast_analyst
      ∙ rw (same, found) refl

  -- Creating a flag keeps the flags unique: no two of a tenant have the same id, or the same entry
  -- and analyst.
  create_flag-IsUnique :
      (entry : String) (note name : Option String) (drawn : DrawnFlag) (db db' : FlagTable)
      → (f : TimelineEntryFlag)
      → create_flag u tenant_id analyst_id entry note name drawn db ≡ ok (f, db')
      → IsUnique db.flags
      → IsUnique db'.flags
  create_flag-IsUnique entry note name drawn db db' f h = IsStored-IsUnique (
      store_flag-IsStored db _ f db'
        (create_flag-IsAccepted entry note name drawn db f db' h).store)

  -- A principal whose tenant is cast to another one lists the same flags before and after a flag
  -- was created.
  list_for_entry-create_flag :
      (entry : String) (note name : Option String) (drawn : DrawnFlag) (db db' : FlagTable)
      → (f : TimelineEntryFlag) (other listed : String)
      → create_flag u tenant_id analyst_id entry note name drawn db ≡ ok (f, db')
      → u.cast other ≢ u.cast tenant_id
      → list_for_entry u other listed db' ≡ list_for_entry u other listed db
  unfolding list_for_entry select_flags
  list_for_entry-create_flag entry note name drawn db db' f other listed h foreign =
      ap (λ x. if strip listed == "" || not (u.is_uuid other) then ok [] else x)
        (at (u.cast other) refl)
    where
      a : IsAccepted entry note name drawn db f db'
      a = create_flag-IsAccepted entry note name drawn db f db' h

      different :
          (t : String) → u.cast other ≡ some t → (b : Bool) → (a.tenant == t) ≡ b → b ≡ false
      different t e false q = refl
      different t e true q = absurd (
          foreign (
            e
            ∙ ap some (sym ((eq_iff a.tenant t).0 q))
            ∙ sym (uuid_or-ok (u.cast tenant_id) a.tenant a.cast_tenant)))

      at :
          (o : Option String)
          → u.cast other ≡ o
          → select_flags o (strip listed) db' ≡ select_flags o (strip listed) db
      at none e = refl
      at (some t) e =
          ap (λ fs. ok (newest_first fs))
            (keep-IsStored t (strip listed) (store_flag-IsStored db _ f db' a.store)
              (different t e (a.tenant == t) refl))
