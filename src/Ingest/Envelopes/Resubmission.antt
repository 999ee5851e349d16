-- ===== src/Ingest/Envelopes/Resubmission.antt =====
-- `store_preview` of db.py on a key that the table already has: duplicates and conflicts.
use mathlib.Core.Path.{subst, subst₂}
use dfir_evidence_workbench.Base.{
  String, ◌==◌, eq_iff, eq_refl, ◌≡◌, refl, ◌∙◌, sym, ap, suc, Option, none, some, List, [], ◌∷◌,
  All, find, Bool, true, false, not, arith, if◌then◌else◌, Bool-cases, inl, inr, length,
}
use dfir_evidence_workbench.Base.Result.{ok, err}
use dfir_evidence_workbench.Ingest.Database.{
  Status, Envelope, Db, wrong_status, Casts, has_id, has_key, update,
}
use dfir_evidence_workbench.Ingest.Envelopes.{
  Principal, Drawn, Submission, Digests, as_conflict, as_duplicate, is_settled, can_apply,
  envelope_row, insert_row, on_conflict, store_preview, at_id, changed, row_or, set_applied,
  apply_commit,
}
use dfir_evidence_workbench.Ingest.Envelopes.Steps.{Steps, insert_row-Steps}
use dfir_evidence_workbench.Ingest.Envelopes.Lifecycle.{is_refused, envelope_is_kept}
use dfir_evidence_workbench.Ingest.Envelopes.Calls.{Call, serve, serve-IsConsistent}
use dfir_evidence_workbench.Ingest.Envelopes.Keys.{
  Apart, HasUniqueKeys, IsConsistent, HasUniqueKeys-HasOnly, Step-IsConsistent,
}

-- What the repository answers to a submission whose key it has: the stored row, marked.
pub resubmitted : Envelope → Envelope → Envelope
resubmitted first row =
    if not (row.payload_sha256 == first.payload_sha256)
    then as_conflict first
    else if is_settled first.processing_status
    then first
    else as_duplicate first

module _ {ℓ} (q : Envelope → Type ℓ) where
  All-find :
      (p : Envelope → Bool) (rows : List Envelope) (r : Envelope)
      → All q rows
      → find p rows ≡ some r
      → q r
  All-find p [] r a e = cc
  All-find p (s ∷ rows) r (a, as') e = elim (Bool-cases (p s)) [
    | inl hit ↦ let is_s : s ≡ r = ground arith in subst q is_s a
    | inr miss ↦ All-find p rows r as' (ground arith)
  ]

find-passes :
    (p : Envelope → Bool) (rows : List Envelope) (r : Envelope) → find p rows ≡ some r → p r ≡ true
find-passes p [] r e = cc
find-passes p (s ∷ rows) r e = elim (Bool-cases (p s)) [
  | inl hit ↦ let is_s : s ≡ r = ground arith in subst (λ x. p x ≡ true) is_s hit
  | inr miss ↦ find-passes p rows r (ground arith)
]

-- A row that some search finds is the row that its own id finds.
find-has_id :
    (p : Envelope → Bool) (rows : List Envelope) (r : Envelope)
    → HasUniqueKeys rows
    → find p rows ≡ some r
    → find (has_id r.tenant_id r.envelope_id) rows ≡ some r
find-has_id p [] r u e = cc
find-has_id p (s ∷ rows) r (a, u) e = elim (Bool-cases (p s)) [
  | inl hit ↦
      let is_s : s ≡ r = ground arith in
      subst (λ x. find (has_id x.tenant_id x.envelope_id) (s ∷ rows) ≡ some x) is_s
        (rw (eq_refl, eq_refl) refl)
  | inr miss ↦
      let e' : find p rows ≡ some r = ground arith in
      let apart = All-find (Apart s) p rows r a e' in
      let not_s : has_id r.tenant_id r.envelope_id s ≡ false = ground (
        arith,
        apart.1,
        eq_iff r.tenant_id s.tenant_id,
        eq_iff s.tenant_id r.tenant_id,
        eq_iff r.envelope_id s.envelope_id,
        eq_iff s.envelope_id r.envelope_id,
      ) in
      rw not_s (find-has_id p rows r u e')
]

length-update :
    (where_ : Envelope → Bool) (set_ : Envelope → Envelope) (rows : List Envelope)
    → length (update where_ set_ rows) ≡ length rows
length-update where_ set_ [] = refl
length-update where_ set_ (r ∷ rows) = ap suc (length-update where_ set_ rows)

find-update_keys :
    (where_ : Envelope → Bool) (set_ : Envelope → Envelope) (u id : String) (rows : List Envelope)
    (r : Envelope)
    → ((s : Envelope) → (set_ s).tenant_id ≡ s.tenant_id)
    → ((s : Envelope) → (set_ s).envelope_id ≡ s.envelope_id)
    → where_ r ≡ true
    → find (has_id u id) rows ≡ some r
    → find (has_id u id) (update where_ set_ rows) ≡ some (set_ r)
find-update_keys where_ set_ u id [] r t i w e = cc
find-update_keys where_ set_ u id (s ∷ rows) r t i w e =
    ground (arith, t s, i s, find-update_keys where_ set_ u id rows r t i w)

module _ (db : Db) (row first : Envelope) (c : IsConsistent db)
    (found : find (has_key row.tenant_id row.idempotency_key) db.envelopes ≡ some first) where
  matches : has_key row.tenant_id row.idempotency_key first ≡ true
  matches = find-passes (has_key row.tenant_id row.idempotency_key) db.envelopes first found

  own : find (has_id first.tenant_id first.envelope_id) db.envelopes ≡ some first
  own = find-has_id (has_key row.tenant_id row.idempotency_key) db.envelopes first c.unique found

  abbrev Answers : Envelope → Type 0
  Answers out =
      (db' : Db) × (insert_row db row ≡ ok (out, db'))
      × (length db'.envelopes ≡ length db.envelopes)
      × (find (has_id first.tenant_id first.envelope_id) db'.envelopes ≡ some out)

  -- A row whose key is taken is not inserted: the answer is the stored row, marked as a conflict
  -- if the digests differ and as a duplicate if it is not settled, and that is what is stored.
  pub insert_row-resubmitted : Answers (resubmitted first row)
  unfolding resubmitted insert_row on_conflict
  insert_row-resubmitted =
      rw found (elim (Bool-cases (first.payload_sha256 == row.payload_sha256)) [
        | inl same_sha ↦
            let flipped : (row.payload_sha256 == first.payload_sha256) ≡ true = ground (
              arith,
              eq_iff first.payload_sha256 row.payload_sha256,
              eq_iff row.payload_sha256 first.payload_sha256,
            ) in
            rw (same_sha, flipped)
              (elim (Bool-cases (is_settled first.processing_status)) [
                | inl settled ↦ rw settled (db, refl, refl, own)
                | inr open_ ↦ rw open_ (
                  _,
                  refl,
                  length-update (has_key row.tenant_id row.idempotency_key) as_duplicate
                      db.envelopes,
                  find-update_keys (has_key row.tenant_id row.idempotency_key) as_duplicate
                      first.tenant_id first.envelope_id db.envelopes first (λ s. refl) (λ s. refl)
                      matches own,
                )
              ])
        | inr other_sha ↦
            let flipped : (row.payload_sha256 == first.payload_sha256) ≡ false = ground (
              arith,
              eq_iff first.payload_sha256 row.payload_sha256,
              eq_iff row.payload_sha256 first.payload_sha256,
            ) in
            rw (other_sha, flipped)
              (
                _,
                refl,
                length-update (has_key row.tenant_id row.idempotency_key) as_conflict db.envelopes,
                find-update_keys (has_key row.tenant_id row.idempotency_key) as_conflict
                    first.tenant_id first.envelope_id db.envelopes first (λ s. refl) (λ s. refl)
                    matches own,
              )
      ])

-- In a consistent table an envelope whose status allows no commit cannot be committed.
found-own :
    (u id : String) (rows : List Envelope) (r : Envelope)
    → find (has_id u id) rows ≡ some r
    → (r.tenant_id ≡ u) × (r.envelope_id ≡ id)
found-own u id rows r h =
    let hit = find-passes (has_id u id) rows r h in
    (ground (arith, eq_iff r.tenant_id u), ground (arith, eq_iff r.envelope_id id))

commit_refused :
    (casts : Casts) (p : Principal) (db : Db) (row : Envelope) (target : Option String)
    → IsConsistent db
    → casts.uuid p.tenant_id ≡ some row.tenant_id
    → find (has_id row.tenant_id row.envelope_id) db.envelopes ≡ some row
    → can_apply row.processing_status ≡ false
    → apply_commit casts p row.envelope_id target db ≡ err (wrong_status row.processing_status)
unfolding apply_commit
commit_refused casts p db row target c is_t found no_ =
    rw (is_t, found) (go (find q db.envelopes) refl)
  where
    q : Envelope → Bool
    q = at_id row.tenant_id row.envelope_id can_apply

    go :
        (o : Option Envelope)
        → find q db.envelopes ≡ o
        → row_or (wrong_status row.processing_status) (changed q (set_applied target) db o)
          ≡ err (wrong_status row.processing_status)
    go none e = refl
    go (some r) e =
        let passes = find-passes q db.envelopes r e in
        let mine = find-has_id q db.envelopes r c.unique e in
        let same_tenant : r.tenant_id ≡ row.tenant_id =
          ground (arith, eq_iff r.tenant_id row.tenant_id) in
        let same_id : r.envelope_id ≡ row.envelope_id =
          ground (arith, eq_iff r.envelope_id row.envelope_id) in
        let is_row : some r ≡ some row =
          sym (subst₂ (λ a b. find (has_id a b) db.envelopes ≡ some r) same_tenant same_id mine)
          ∙ found in
        ground (arith, is_row)

insert_row-IsConsistent :
    (db db' : Db) (row out : Envelope)
    → IsConsistent db
    → insert_row db row ≡ ok (out, db')
    → IsConsistent db'
insert_row-IsConsistent db db' row out c e =
    let steps =
      subst (Steps row.tenant_id db) e
        (insert_row-Steps db row (HasUniqueKeys-HasOnly db.envelopes c.unique)) in
    Step-IsConsistent steps c

refused-can_apply : (s : Status) → is_refused s ≡ true → can_apply s ≡ false
refused-can_apply s h = ground arith

-- Committing an envelope that is refused is an error, whatever was called for in between.
refused_for_good :
    (casts : Casts) (digests : Digests) (p : Principal) (db : Db) (row : Envelope)
    (target : Option String) (calls : List (Principal × Call))
    → IsConsistent db
    → casts.uuid p.tenant_id ≡ some row.tenant_id
    → find (has_id row.tenant_id row.envelope_id) db.envelopes ≡ some row
    → is_refused row.processing_status ≡ true
    → (status : Status) × (is_refused status ≡ true)
      × (apply_commit casts p row.envelope_id target (serve casts digests db calls)
          ≡ err (wrong_status status))
refused_for_good casts digests p db row target calls c is_t found r =
    let (row', found', later) =
      envelope_is_kept casts digests db calls row.tenant_id row.envelope_id row c found in
    let (own_t, own_id) = found-own row.tenant_id row.envelope_id _ row' found' in
    let is_t' : casts.uuid p.tenant_id ≡ some row'.tenant_id = is_t ∙ ap some (sym own_t) in
    let stored : find (has_id row'.tenant_id row'.envelope_id)
          (serve casts digests db calls).envelopes
        ≡ some row' =
      rw (own_t, own_id) found' in
    (
      row'.processing_status,
      later.refused r,
      subst
          (λ id.
            apply_commit casts p id target (serve casts digests db calls)
            ≡ err (wrong_status row'.processing_status))
          own_id
          (commit_refused casts p (serve casts digests db calls) row' target
            (serve-IsConsistent casts digests db calls c) is_t' stored
            (refused-can_apply row'.processing_status (later.refused r))),
    )

-- A submission repeated with the same key and digest while its envelope is not settled turns the
-- stored envelope into a duplicate, also one that was approved, and from then on, whatever principals
-- call for, approvals included, committing that envelope is an error of its status, which stays none
-- from which an envelope is applied.
pub resubmission_strands_envelope :
    (casts : Casts) (digests : Digests) (p q : Principal) (drawn : Drawn) (s : Submission) (db : Db)
    (row first : Envelope) (target : Option String) (calls : List (Principal × Call))
    → IsConsistent db
    → casts.uuid p.tenant_id ≡ some first.tenant_id
    → casts.uuid q.tenant_id ≡ some first.tenant_id
    → envelope_row casts digests p drawn s ≡ ok row
    → find (has_key row.tenant_id row.idempotency_key) db.envelopes ≡ some first
    → row.payload_sha256 ≡ first.payload_sha256
    → is_settled first.processing_status ≡ false
    → (db' : Db) × (store_preview casts digests p drawn s db ≡ ok (as_duplicate first, db'))
      × ((status : Status) × (is_refused status ≡ true)
          × (apply_commit casts q first.envelope_id target (serve casts digests db' calls)
              ≡ err (wrong_status status)))
unfolding store_preview resubmitted
resubmission_strands_envelope casts digests p q drawn s db row first target calls c is_t is_q e
      found same_sha open_ =
    let (db', stored, same_length, kept) = insert_row-resubmitted db row first c found in
    let answer : resubmitted first row ≡ as_duplicate first = rw (same_sha, eq_refl, open_) refl in
    let stored' : insert_row db row ≡ ok (as_duplicate first, db') = rw (← answer) stored in
    let kept' : find (has_id first.tenant_id first.envelope_id) db'.envelopes
        ≡ some (as_duplicate first) =
      rw (← answer) kept in
    (
      db',
      rw e stored',
      refused_for_good casts digests q db' (as_duplicate first) target calls
          (insert_row-IsConsistent db db' row (as_duplicate first) c stored') is_q kept' refl,
    )

-- A submission whose key the tenant already has never adds an envelope: the call succeeds, its
-- answer is the stored envelope marked as a conflict if the digest differs, as a duplicate if it
-- is not settled yet, and unchanged otherwise, and the table then holds that answer.
pub store_preview-resubmitted :
    (casts : Casts) (digests : Digests) (p : Principal) (drawn : Drawn) (s : Submission) (db : Db)
    (row first : Envelope)
    → IsConsistent db
    → envelope_row casts digests p drawn s ≡ ok row
    → find (has_key row.tenant_id row.idempotency_key) db.envelopes ≡ some first
    → (db' : Db) × (store_preview casts digests p drawn s db ≡ ok (resubmitted first row, db'))
      × (length db'.envelopes ≡ length db.envelopes)
      × (find (has_id first.tenant_id first.envelope_id) db'.envelopes
          ≡ some (resubmitted first row))
unfolding store_preview
store_preview-resubmitted casts digests p drawn s db row first c e found =
    let (db', stored, same_length, kept) = insert_row-resubmitted db row first c found in
    (db', rw e stored, same_length, kept)
