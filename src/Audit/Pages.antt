-- ===== src/Audit/Pages.antt =====
-- Reading the trail of a tenant page by page, by `query` of src/dfir_workbench/audit.py.
use mathlib.Core.List.{Perm, append_assoc, append-nil}
use mathlib.Core.List.Perm
use mathlib.Core.Path.{subst}
use dfir_evidence_workbench.Base.{
  ℕ, zero, suc, ◌+◌, ◌*◌, ◌≤◌, ◌≡◌, refl, sym, ap, ◌∙◌, String, Bool, true, false, Option, none,
  some, eq_iff, ◌⊎◌, inl, inr, Bool-cases, ◌==◌, ◌&&◌, List, [], ◌∷◌, ◌++◌, length, keep, arith,
  if◌then◌else◌,
}
use dfir_evidence_workbench.Audit.{
  AuditEvent, Sink, matches, is_of, passes, insert, ordered, take, drop, query,
}

insert-perm :
    (precedes : AuditEvent → AuditEvent → Bool) (e : AuditEvent) (es : List AuditEvent)
    → Perm (insert precedes e es) (e ∷ es)
insert-perm precedes e [] = Perm.refl (e ∷ [])
insert-perm precedes e (f ∷ fs) = at (precedes e f) (insert-perm precedes e fs)
  where
    at :
        (b : Bool)
        → Perm (insert precedes e fs) (e ∷ fs)
        → Perm (if b then e ∷ f ∷ fs else f ∷ insert precedes e fs) (e ∷ f ∷ fs)
    at true p = Perm.refl (e ∷ f ∷ fs)
    at false p = Perm.trans (Perm.cons f p) (Perm.swap e f fs)

ordered-perm :
    (precedes : AuditEvent → AuditEvent → Bool) (es : List AuditEvent)
    → Perm (ordered precedes es) es
unfolding ordered
ordered-perm precedes [] = Perm.refl []
ordered-perm precedes (e ∷ es) =
    Perm.trans (insert-perm precedes e (ordered precedes es))
      (Perm.cons e (ordered-perm precedes es))

length-insert :
    (precedes : AuditEvent → AuditEvent → Bool) (e : AuditEvent) (es : List AuditEvent)
    → length (insert precedes e es) ≡ suc (length es)
length-insert precedes e [] = refl
length-insert precedes e (f ∷ fs) = at (precedes e f) (length-insert precedes e fs)
  where
    at :
        (b : Bool)
        → length (insert precedes e fs) ≡ suc (length fs)
        → length (if b then e ∷ f ∷ fs else f ∷ insert precedes e fs) ≡ suc (suc (length fs))
    at true h = refl
    at false h = ap suc h

length-ordered :
    (precedes : AuditEvent → AuditEvent → Bool) (es : List AuditEvent)
    → length (ordered precedes es) ≡ length es
unfolding ordered
length-ordered precedes [] = refl
length-ordered precedes (e ∷ es) =
    length-insert precedes e (ordered precedes es) ∙ ap suc (length-ordered precedes es)

drop-nil : (n : ℕ) → drop n [] ≡ []
unfolding drop
drop-nil zero = refl
drop-nil (suc n) = refl

drop-drop : (m n : ℕ) (l : List AuditEvent) → drop n (drop m l) ≡ drop (m + n) l
unfolding drop
drop-drop zero n l = let e : 0 + n ≡ n = omega arith in rw e refl
drop-drop (suc m) n [] = drop-nil n ∙ sym (drop-nil (suc m + n))
drop-drop (suc m) n (e ∷ l) =
    let s : suc m + n ≡ suc (m + n) = omega arith in rw s (drop-drop m n l)

take-append-drop : (n : ℕ) (l : List AuditEvent) → take n l ++ drop n l ≡ l
unfolding take drop
take-append-drop zero l = refl
take-append-drop (suc n) [] = refl
take-append-drop (suc n) (e ∷ l) = ap (◌∷◌ e) (take-append-drop n l)

drop-beyond : (n : ℕ) (l : List AuditEvent) → length l ≤ n → drop n l ≡ []
unfolding drop
drop-beyond zero [] h = refl
drop-beyond zero (e ∷ l) h = absurd (omega arith)
drop-beyond (suc n) [] h = refl
drop-beyond (suc n) (e ∷ l) h = drop-beyond n l (omega arith)

module _ (precedes : AuditEvent → AuditEvent → Bool) (tenant_id : String)
    (case_id action : Option String) (limit : ℕ) (s : Sink) where
  -- the trail that matches
  abbrev pub trail : List AuditEvent
  trail = keep (matches tenant_id case_id action) s.events

  -- `m` pages from an offset on
  unfoldable pub read_pages : (offset m : ℕ) → List AuditEvent
  read_pages offset zero = []
  read_pages offset (suc m) =
      (query precedes true tenant_id case_id action limit offset s).items
      ++ read_pages (offset + limit) m

  read_pages-append-drop :
      (offset m : ℕ)
      → read_pages offset m ++ drop (offset + m * limit) (ordered precedes trail)
        ≡ drop offset (ordered precedes trail)
  unfolding read_pages query
  read_pages-append-drop offset zero =
      let none_read : offset + 0 * limit ≡ offset = omega arith in rw none_read refl
  read_pages-append-drop offset (suc m) =
      let l = ordered precedes trail in
      let further : offset + suc m * limit ≡ (offset + limit) + m * limit = grind arith in
      append_assoc (take limit (drop offset l)) (read_pages (offset + limit) m)
        (drop (offset + suc m * limit) l)
      ∙ ap (λ n. take limit (drop offset l) ++ (read_pages (offset + limit) m ++ drop n l)) further
      ∙ ap (λ r. take limit (drop offset l) ++ r)
          (read_pages-append-drop (offset + limit) m ∙ sym (drop-drop offset limit l))
      ∙ take-append-drop limit (drop offset l)

-- A filter asks for nothing, if it is absent or empty, or for its own value.
abbrev pub Asks : Option String → Option String → Type 0
Asks none v = Unit {0}
Asks (some f) v = (f ≡ "") ⊎ (v ≡ some f)

-- An event of the tenant for which both filters ask.
abbrev pub IsWanted : String → Option String → Option String → AuditEvent → Type 0
IsWanted tenant_id case_id action e =
    (e.entry.tenant_id ≡ some tenant_id)
    × Asks case_id e.entry.case_id
    × Asks action (some e.entry.action)

-- The second list holds the elements of the first that have a property, in their order.
pub data Selects (P : AuditEvent → Type 0) : List AuditEvent → List AuditEvent → Type 0 where
  selects_nothing : Selects P [] []
  takes :
      {e : AuditEvent} {es fs : List AuditEvent}
      → P e
      → Selects P es fs
      → Selects P (e ∷ es) (e ∷ fs)
  skips :
      {e : AuditEvent} {es fs : List AuditEvent} → ¬ P e → Selects P es fs → Selects P (e ∷ es) fs

and_both : (a b : Bool) → (a && b) ≡ true → (a ≡ true) × (b ≡ true)
and_both true b h = (refl, h)
and_both false b h = cc

is_of-eq : (t : String) (o : Option String) → is_of t o ≡ true → o ≡ some t
is_of-eq t none h = cc
is_of-eq t (some u) h = ap some ((eq_iff u t).0 h)

is_of-of_eq : (t : String) (o : Option String) → o ≡ some t → is_of t o ≡ true
is_of-of_eq t none h = cc
is_of-of_eq t (some u) h = let same : u ≡ t = cc in (eq_iff u t).1 same

passes-Asks : (f v : Option String) → passes f v ≡ true → Asks f v
passes-Asks none v h = tt
passes-Asks (some f) v h = elim (Bool-cases (f == "")) [
  | inl e ↦ inl ((eq_iff f "").0 e)
  | inr n ↦ inr (is_of-eq f v (ground arith))
]

Asks-passes : (f v : Option String) → Asks f v → passes f v ≡ true
Asks-passes none v a = refl
Asks-passes (some f) v (inl e) = let empty = (eq_iff f "").1 e in rw empty refl
Asks-passes (some f) v (inr e) = let own = is_of-of_eq f v e in ground arith

module _ (tenant_id : String) (case_id action : Option String) where
  matches-IsWanted :
      (e : AuditEvent)
      → matches tenant_id case_id action e ≡ true
      → IsWanted tenant_id case_id action e
  unfolding matches
  matches-IsWanted e h =
      let (own, rest) = and_both _ _ h in
      let (of_case, of_action) = and_both _ _ rest in
      (
        is_of-eq tenant_id e.entry.tenant_id own,
        passes-Asks case_id e.entry.case_id of_case,
        passes-Asks action (some e.entry.action) of_action,
      )

  IsWanted-matches :
      (e : AuditEvent)
      → IsWanted tenant_id case_id action e
      → matches tenant_id case_id action e ≡ true
  unfolding matches
  IsWanted-matches e (own, of_case, of_action) =
      rw
        (
          is_of-of_eq tenant_id e.entry.tenant_id own,
          Asks-passes case_id e.entry.case_id of_case,
          Asks-passes action (some e.entry.action) of_action,
        )
        refl

  keep-Selects :
      (es : List AuditEvent)
      → Selects (IsWanted tenant_id case_id action) es (keep (matches tenant_id case_id action) es)
  keep-Selects [] = selects_nothing
  keep-Selects (e ∷ es) = at (matches tenant_id case_id action e) refl (keep-Selects es)
    where
      at :
          (b : Bool)
          → matches tenant_id case_id action e ≡ b
          → Selects
              (IsWanted tenant_id case_id action)
              es
              (keep (matches tenant_id case_id action) es)
          → Selects (IsWanted tenant_id case_id action) (e ∷ es) (
              if b
              then e ∷ keep (matches tenant_id case_id action) es
              else keep (matches tenant_id case_id action) es)
      at true h rest = takes (matches-IsWanted e h) rest
      at false h rest = skips (λ w. let yes = IsWanted-matches e w in cc) rest

-- If pages of a trail are read one after the other up to the count of the first, and nothing is recorded
-- between the reads, they are together a permutation of the wanted events, each as often as it is
-- recorded: those of the tenant, of the case that is asked for if it is not empty, and of the action that
-- is asked for if it is not empty.
pub read_pages-perm :
    (precedes : AuditEvent → AuditEvent → Bool) (tenant_id : String)
    (case_id action : Option String) (limit m : ℕ) (s : Sink)
    → (query precedes true tenant_id case_id action limit 0 s).count ≤ m * limit
    → (wanted : List AuditEvent) × Selects (IsWanted tenant_id case_id action) s.events wanted
      × Perm (read_pages precedes tenant_id case_id action limit s 0 m) wanted
unfolding query drop
read_pages-perm precedes tenant_id case_id action limit m s h =
    let l = ordered precedes (keep (matches tenant_id case_id action) s.events) in
    let read = read_pages precedes tenant_id case_id action limit s 0 m in
    let start : 0 + m * limit ≡ m * limit = omega arith in
    let size = length-ordered precedes (keep (matches tenant_id case_id action) s.events) in
    let whole : read ≡ l =
      sym (append-nil read)
      ∙ ap (λ r. read ++ r)
          (sym (ap (λ n. drop n l) start ∙ drop-beyond (m * limit) l (omega (arith, size))))
      ∙ read_pages-append-drop precedes tenant_id case_id action limit s 0 m in
    (
      keep (matches tenant_id case_id action) s.events,
      keep-Selects tenant_id case_id action s.events,
      subst (λ r. Perm r (keep (matches tenant_id case_id action) s.events)) (sym whole)
          (ordered-perm precedes (keep (matches tenant_id case_id action) s.events)),
    )
