-- ===== src/Ingest/Envelopes/Keys.antt =====
-- The unique keys of `dfir.ingest_envelope` under the methods of `IngestRepository` (db.py).
use dfir_evidence_workbench.Base.{
  String, eq_iff, ◌≡◌, Bool, true, false, none, List, [], ◌∷◌, All, find, arith, if◌then◌else◌,
  Bool-cases, inl, inr,
}
use dfir_evidence_workbench.Ingest.Database.{Envelope, Db, has_id, has_key, is_analyst, update}
use dfir_evidence_workbench.Ingest.Envelopes.Steps.{
  Moves, Step, same, insert, change, IsOnly, HasOnly,
}

-- Two rows that neither key confuses.
abbrev pub Apart : Envelope → Envelope → Type 0
Apart r s =
    (has_key r.tenant_id r.idempotency_key s ≡ false) × (has_id r.tenant_id r.envelope_id s ≡ false)

abbrev pub HasUniqueKeys : List Envelope → Type 0
HasUniqueKeys [] = Unit {0}
HasUniqueKeys (r ∷ rows) = All (Apart r) rows × HasUniqueKeys rows

-- Every row's analyst is known to its tenant.
abbrev pub IsKnown : List (String × String) → Envelope → Type 0
IsKnown analysts row = is_analyst row.tenant_id row.analyst_id analysts ≡ true

-- What the constraints of the table promise.
pub record IsConsistent (db : Db) : Type 0 where
  pub unique : HasUniqueKeys db.envelopes
  pub known : All (IsKnown db.analysts) db.envelopes

-- A row that keeps its keys stays apart from another such row.
Moves-Apart : (r r' s s' : Envelope) → Moves r r' → Moves s s' → Apart r s → Apart r' s'
Moves-Apart r r' s s' m n a = (
  rw (m.tenant, m.key) (ground (arith, n.tenant, n.key)),
  rw (m.tenant, m.id) (ground (arith, n.tenant, n.id)),
)

-- the row after an UPDATE
abbrev pub after : (Envelope → Bool) → (Envelope → Envelope) → Envelope → Envelope
after where_ set_ row = if where_ row then set_ row else row

pub Moves-refl : (r : Envelope) → Moves r r
Moves-refl r = ground arith

module _ (where_ : Envelope → Bool) (set_ : Envelope → Envelope) where
  pub after-Moves :
      (r : Envelope) → (where_ r ≡ true → Moves r (set_ r)) → Moves r (after where_ set_ r)
  after-Moves r m = elim (Bool-cases (where_ r)) [
    | inl hit ↦ rw hit (m hit)
    | inr miss ↦ rw miss (Moves-refl r)
  ]

  update-Apart :
      (r r' : Envelope) (rows : List Envelope)
      → Moves r r'
      → All (λ r. where_ r ≡ true → Moves r (set_ r)) rows
      → All (Apart r) rows
      → All (Apart r') (update where_ set_ rows)
  update-Apart r r' [] m ms a = tt
  update-Apart r r' (s ∷ rows) m (n, ms) (a, as') = (
    Moves-Apart r r' s (after where_ set_ s) m (after-Moves s n) a,
    update-Apart r r' rows m ms as',
  )

  update-HasUniqueKeys :
      (rows : List Envelope)
      → All (λ r. where_ r ≡ true → Moves r (set_ r)) rows
      → HasUniqueKeys rows
      → HasUniqueKeys (update where_ set_ rows)
  update-HasUniqueKeys [] ms u = tt
  update-HasUniqueKeys (r ∷ rows) (m, ms) (a, u) = (
    update-Apart r (after where_ set_ r) rows (after-Moves r m) ms a,
    update-HasUniqueKeys rows ms u,
  )

  update-IsKnown :
      (analysts : List (String × String)) (rows : List Envelope)
      → All (λ r. where_ r ≡ true → Moves r (set_ r)) rows
      → All (IsKnown analysts) rows
      → All (IsKnown analysts) (update where_ set_ rows)
  update-IsKnown analysts [] ms k = tt
  update-IsKnown analysts (r ∷ rows) (m, ms) (k, ks) =
      let n = after-Moves r m in (rw (n.tenant, n.analyst) k, update-IsKnown analysts rows ms ks)

find-none-All :
    (p : Envelope → Bool) (rows : List Envelope) → find p rows ≡ none → All (λ r. p r ≡ false) rows
find-none-All p [] e = tt
find-none-All p (r ∷ rows) e = (ground arith, find-none-All p rows (ground arith))

Apart-both :
    (r : Envelope) (rows : List Envelope)
    → All (λ s. has_key r.tenant_id r.idempotency_key s ≡ false) rows
    → All (λ s. has_id r.tenant_id r.envelope_id s ≡ false) rows
    → All (Apart r) rows
Apart-both r [] k i = tt
Apart-both r (s ∷ rows) (k, ks) (i, is) = ((k, i), Apart-both r rows ks is)

-- A step keeps the constraints of the table.
pub Step-IsConsistent :
    {t : String} {db db' : Db} → Step t db db' → IsConsistent db → IsConsistent db'
Step-IsConsistent same c = c
Step-IsConsistent {db = db} (insert row e new_key new_id known) c = record {
  unique = (
    Apart-both row db.envelopes (find-none-All _ _ new_key) (find-none-All _ _ new_id),
    c.unique,
  );
  known = (known, c.known);
}
Step-IsConsistent {db = db} (change where_ set_ scope moves) c = record {
  unique = update-HasUniqueKeys where_ set_ db.envelopes moves c.unique;
  known = update-IsKnown where_ set_ db.analysts db.envelopes moves c.known;
}

no_match-IsOnly :
    (t k : String) (row : Envelope) (rows : List Envelope)
    → All (λ s. has_key t k s ≡ false) rows
    → IsOnly t k row rows
no_match-IsOnly t k row [] h = tt
no_match-IsOnly t k row (r ∷ rows) (h, hs) = ((λ e. cc), no_match-IsOnly t k row rows hs)

Apart-no_match :
    (t k : String) (row : Envelope) (rows : List Envelope)
    → has_key t k row ≡ true
    → All (Apart row) rows
    → All (λ s. has_key t k s ≡ false) rows
Apart-no_match t k row [] e a = tt
Apart-no_match t k row (r ∷ rows) e (a, as') = (
  ground (arith, a.0, eq_iff row.tenant_id t, eq_iff row.idempotency_key k),
  Apart-no_match t k row rows e as',
)

-- In a consistent table a key finds its only row.
pub HasUniqueKeys-HasOnly : (rows : List Envelope) → HasUniqueKeys rows → HasOnly rows
HasUniqueKeys-HasOnly [] u t k row e = tt
HasUniqueKeys-HasOnly (r ∷ rows) (a, u) t k row e = elim (Bool-cases (has_key t k r)) [
  | inl hit ↦ ((λ _. ground arith), no_match-IsOnly t k row rows (Apart-no_match t k r rows hit a))
  | inr miss ↦ ((λ e'. cc), HasUniqueKeys-HasOnly rows u t k row (ground arith))
]
