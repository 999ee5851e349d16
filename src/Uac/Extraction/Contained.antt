-- ===== src/Uac/Extraction/Contained.antt =====
-- What `extract` of src/dfir_workbench/adapters/uac_adapter.py adds below the extraction root.
use mathlib.Core.Path.{subst}
use mathlib.Core.List.{append-nil}
use Prim.Native.Nat.{Ordering}
use Prim.Native.String.{compare}
use dfir_evidence_workbench.Base.{
  ◌≡◌, refl, sym, ◌==◌, eq_iff, eq_refl, String, Bool, true, false, not, ◌&&◌, Option, none, some,
  is_some, List, [], ◌∷◌, any, All, All-map, arith, Bool-cases, inl, inr, if◌then◌else◌,
}
use dfir_evidence_workbench.Base.Strings.{split}
use dfir_evidence_workbench.Base.Result.{Result, ok, err}
use dfir_evidence_workbench.Uac.Names.{AdapterError, is_slash, safe_member}
use dfir_evidence_workbench.Uac.Names.Inside.{are_names, safe_member-are_names}
use dfir_evidence_workbench.Uac.Copies.{SafetyLimits, Stream, Progress, copy_stream}
use dfir_evidence_workbench.Uac.Copies.Contained.{
  Files, IsContained, is_contained, same-IsContained, copy_stream-IsContained,
}
use dfir_evidence_workbench.Uac.Extraction.{
  Entry, absent, special, plain, Source, directory, zip, seven_zip, tar, ZipMember, TarMember,
  insert, has, with_name, wanted, refused, refusals, each, from_entry, zip_member, tar_member,
  from_output, seven_member, from_source, begun, extract,
}

abbrev gives : String → Result AdapterError String → Bool
gives rel (ok r) = r == rel && are_names (split is_slash rel)
gives rel (err e) = false

-- A path that a name of the allowlist stands for, each part of which is a name.
abbrev pub is_allowed : List String → String → Bool
is_allowed raws rel = any (λ raw. gives rel (safe_member raw)) raws

AreAllowed : List String → List String → Type 0
AreAllowed raws = All (λ rel. is_allowed raws rel ≡ true)

insert-AreAllowed :
    (raws : List String) (s : String) (ts : List String)
    → is_allowed raws s ≡ true
    → AreAllowed raws ts
    → AreAllowed raws (insert s ts)
unfolding AreAllowed
insert-AreAllowed raws s [] h g = (h, tt)
insert-AreAllowed raws s (t ∷ ts) h g = at (compare s t) (insert-AreAllowed raws s ts h (g.1))
  where
    at :
        (o : Ordering)
        → AreAllowed raws (insert s ts)
        → AreAllowed raws (elim o [
          | Ordering.lt ↦ s ∷ t ∷ ts
          | Ordering.eq ↦ t ∷ ts
          | Ordering.gt ↦ t ∷ insert s ts
        ])
    at Ordering.lt rest = (h, g)
    at Ordering.eq rest = g
    at Ordering.gt rest = (g.0, rest)

allowed_first :
    (raw : String) (raws : List String) (r : String)
    → safe_member raw ≡ ok r
    → is_allowed (raw ∷ raws) r ≡ true
allowed_first raw raws r e =
    let names = safe_member-are_names raw e in
    let own : gives r (safe_member raw) ≡ true = rw (e, eq_refl r, names) refl in ground arith

wanted-AreAllowed : (raws : List String) → AreAllowed raws (wanted raws)
unfolding wanted AreAllowed
wanted-AreAllowed [] = tt
wanted-AreAllowed (raw ∷ raws) =
    at (All-map _ _ (λ rel h. ground arith) (wanted raws) (wanted-AreAllowed raws))
      (safe_member raw) refl
  where
    at :
        AreAllowed (raw ∷ raws) (wanted raws)
        → (m : Result AdapterError String) → safe_member raw ≡ m
        → AreAllowed (raw ∷ raws) (with_name m (wanted raws))
    at others (err e) h = others
    at others (ok r) h =
        insert-AreAllowed (raw ∷ raws) r (wanted raws) (allowed_first raw raws r h) others

-- What is among allowed names is allowed.
has-allowed :
    (raws names : List String) (rel : String)
    → AreAllowed raws names
    → has names rel ≡ true
    → is_allowed raws rel ≡ true
unfolding AreAllowed
has-allowed raws [] rel g h = cc
has-allowed raws (n ∷ names) rel g h = elim (Bool-cases (n == rel)) [
  | inl e ↦ subst (λ r. is_allowed raws r ≡ true) ((eq_iff n rel).0 e) (g.0)
  | inr e ↦ has-allowed raws names rel (g.1) (ground arith)
]

All-any : {A : Type 0} (l : List A) → All (λ x. Unit {0}) l
All-any [] = tt
All-any (x ∷ l) = (tt, All-any l)

module _ (limits : SafetyLimits) (raws : List String) (before : Files) where
  abbrev Good : Progress → Type 0
  Good = IsContained limits (is_allowed raws) before

  kept :
      (p : Progress) {q : Progress}
      → q.files ≡ p.files
      → q.total ≡ p.total
      → q.left_over ≡ p.left_over
      → (is_some q.raised ≡ false → is_some p.raised ≡ false)
      → Good p
      → Good q
  kept p {q} = same-IsContained limits (is_allowed raws) before p q

  stream-Good :
      (rel : String) (content : Stream) (p : Progress)
      → is_allowed raws rel ≡ true
      → is_some p.raised ≡ false
      → Good p
      → Good (copy_stream limits rel content p)
  stream-Good = copy_stream-IsContained limits (is_allowed raws) before

  if-Good :
      (b : Bool) {x y : Progress}
      → (b ≡ true → Good x)
      → (b ≡ false → Good y)
      → Good (if b then x else y)
  if-Good true h k = h refl
  if-Good false h k = k refl

  each-Good :
      {A : Type 0} (P : A → Type 0) (step : A → Progress → Progress)
      → ((x : A) (p : Progress) → P x → is_some p.raised ≡ false → Good p → Good (step x p))
      → (xs : List A) (p : Progress) → All P xs
      → Good p
      → Good (each step xs p)
  each-Good P step keeps [] p all g = g
  each-Good P step keeps (x ∷ xs) p all g =
      if-Good (is_some p.raised) (λ _. g)
        λ u. each-Good P step keeps xs (step x p) (all.1) (keeps x p (all.0) u g)

  from_entry-Good :
      (rel : String) (p : Progress) (entry : Entry)
      → is_allowed raws rel ≡ true
      → is_some p.raised ≡ false
      → Good p
      → Good (from_entry limits rel p entry)
  from_entry-Good rel p absent a u g = kept p refl refl refl (λ u. u) g
  from_entry-Good rel p special a u g = kept p refl refl refl (λ u. u) g
  from_entry-Good rel p (plain content) a u g = stream-Good rel content p a u g

  seven_member-Good :
      (output : String → Option Stream) (rel : String) (p : Progress)
      (m : Result AdapterError String)
      → is_allowed raws rel ≡ true
      → is_some p.raised ≡ false
      → Good p
      → Good (seven_member limits output rel p m)
  seven_member-Good output rel p (err e) a u g = kept p refl refl refl (λ h. cc) g
  seven_member-Good output rel p (ok r) a u g = at (output rel)
    where
      at : (o : Option Stream) → Good (from_output limits rel p o)
      at none = kept p refl refl refl (λ u. u) g
      at (some content) = stream-Good rel content p a u g

  module _ (names : List String) (all : AreAllowed raws names) where
    zip_member-Good :
        (m : ZipMember) (p : Progress) (r : Result AdapterError String)
        → is_some p.raised ≡ false
        → Good p
        → Good (zip_member limits names m p r)
    zip_member-Good m p (err e) u g = kept p refl refl refl (λ u. u) g
    zip_member-Good m p (ok rel) u g =
        if-Good (has names rel && not m.is_dir)
          (λ h.
            if-Good m.is_encrypted (λ _. kept p refl refl refl (λ u. u) g)
              λ _. stream-Good rel m.content p (has-allowed raws names rel all (ground arith)) u g)
          λ _. g

    tar_member-Good :
        (m : TarMember) (p : Progress) (r : Result AdapterError String)
        → is_some p.raised ≡ false
        → Good p
        → Good (tar_member limits names m p r)
    tar_member-Good m p (err e) u g = kept p refl refl refl (λ u. u) g
    tar_member-Good m p (ok rel) u g =
        if-Good (has names rel)
          (λ h.
            if-Good m.isfile
              (λ _. stream-Good rel m.tar_content p (has-allowed raws names rel all h) u g)
              λ _. kept p refl refl refl (λ u. u) g)
          λ _. g

    from_source-Good :
        (source : Source) (p : Progress) → Good p → Good (from_source limits source names p)
    unfolding AreAllowed
    from_source-Good (directory entries) p g =
        each-Good _ _ (λ rel q a. from_entry-Good rel q (entries rel) a) names p all g
    from_source-Good (zip ms) p g =
        each-Good (λ m. Unit {0}) _ (λ m q _. zip_member-Good m q (safe_member m.filename)) ms p
          (All-any ms) g
    from_source-Good (seven_zip output) p g =
        each-Good _ _ (λ rel q a. seven_member-Good output rel q (safe_member rel) a) names p all g
    from_source-Good (tar ms) p g =
        each-Good (λ m. Unit {0}) _ (λ m q _. tar_member-Good m q (safe_member m.tar_name)) ms p
          (All-any ms) g

  begun-Good : (directories : List String) → Good (begun limits before directories)
  begun-Good directories =
      is_contained [] (sym (append-nil before)) tt refl tt (omega arith) (omega arith) λ u. refl

  refusals-Good : (names : List String) (p : Progress) → Good p → Good (refusals names p)
  unfolding refusals
  refusals-Good [] p g = g
  refusals-Good (n ∷ names) p g = refusals-Good names _ (at (safe_member n))
    where
      at : (m : Result AdapterError String) → Good (refused m p)
      at (err e) = kept p refl refl refl (λ u. u) g
      at (ok rel) = g

-- Whatever the source and the allowlist, also if it raises, an extraction leaves each file that was below
-- the root as it was, and the files that it adds are each for a name of the allowlist that is accepted,
-- at a relative path without an empty part, "." or "..", and within the limit of a file; together they
-- have the bytes that are counted. Besides, a read that raises leaves at most one temporary file, which is
-- for such a path and within the limit of a file too; with its bytes, all are within the limit of all.
pub extract-IsContained :
    (limits : SafetyLimits) (is_valid : Bool) (source : Source) (allowlist : List String)
    (files : Files) (directories : List String)
    → IsContained limits
        (is_allowed allowlist)
        files
        (extract limits is_valid source allowlist files directories)
unfolding extract
extract-IsContained limits is_valid source [] files directories =
    begun-Good limits [] files directories
extract-IsContained limits is_valid source (raw ∷ raws) files directories =
    let start = begun-Good limits (raw ∷ raws) files directories in
    if-Good limits (raw ∷ raws) files is_valid
      (λ _.
        from_source-Good limits (raw ∷ raws) files (wanted (raw ∷ raws))
          (wanted-AreAllowed (raw ∷ raws)) source _
          (refusals-Good limits (raw ∷ raws) files (raw ∷ raws) _ start))
      λ _. kept limits (raw ∷ raws) files _ refl refl refl (λ u. cc) start
