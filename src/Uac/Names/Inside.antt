-- ===== src/Uac/Names/Inside.antt =====
-- Where the names lead that src/dfir_workbench/adapters/uac_adapter.py takes for safe.
use mathlib.Core.Path.{subst}
use text.Mathlib.TextLemmas.{nil-append, cons-append}
use dfir_evidence_workbench.Base.{
  ◌≡◌, refl, sym, ◌∙◌, ap, Bool-cases, inl, inr, String, ◌==◌, eq_iff, Bool, true, false, not, ◌||◌,
  ◌&&◌, List, [], ◌∷◌, All, arith, if◌then◌else◌,
}
use dfir_evidence_workbench.Base.Text.{starts_with}
use dfir_evidence_workbench.Base.Splits.{
  IsWhole, split_first-append, split_first-IsWhole, split-IsWhole,
}
use dfir_evidence_workbench.Base.Strings.{◌<>◌, split, starts}
use dfir_evidence_workbench.Base.Result.{Result, ok, err}
use dfir_evidence_workbench.Staging.Archives.{joined}
use dfir_evidence_workbench.Uac.Names.{
  is_slash, slashed, entered, push, walk, turned, normpath, checked_path, safe_member,
}

-- No part of a path is empty, a dot or two dots.
abbrev pub are_names : List String → Bool
are_names [] = true
are_names (p ∷ ps) = not (p == "" || p == "." || p == "..") && are_names ps

abbrev all_up : List String → Bool
all_up [] = true
all_up (p ∷ ps) = p == ".." && all_up ps

-- Parts, the last one first, that are names below a number of two dots.
abbrev is_stack : List String → Bool
is_stack [] = true
is_stack (p ∷ ps) = if p == ".." then all_up ps else not (p == "" || p == ".") && is_stack ps

AreWhole : List String → Type 0
AreWhole = All (IsWhole is_slash)

all_up-is_stack : (ps : List String) → all_up ps ≡ true → is_stack ps ≡ true
all_up-is_stack [] h = refl
all_up-is_stack (p ∷ ps) h = ground arith

is_stack-push :
    (done : List String) (p : String) → is_stack done ≡ true → is_stack (push done p) ≡ true
is_stack-push [] p h = ground arith
is_stack-push (d ∷ ds) p h = ground (arith, eq_iff p "..", eq_iff d "..", all_up-is_stack ds)

AreWhole-if :
    (b : Bool) (ps qs : List String) → AreWhole ps → AreWhole qs → AreWhole (if b then ps else qs)
AreWhole-if true ps qs h g = h
AreWhole-if false ps qs h g = g

AreWhole-entered :
    (done : List String) (p : String)
    → AreWhole done
    → IsWhole is_slash p
    → AreWhole (entered done p)
unfolding AreWhole
AreWhole-entered [] p h w = (w, tt)
AreWhole-entered (d ∷ ds) p h w =
    let all : AreWhole (p ∷ d ∷ ds) = (w, h) in
    AreWhole-if (p == "..") (if d == ".." then p ∷ d ∷ ds else ds) (p ∷ d ∷ ds)
      (AreWhole-if (d == "..") (p ∷ d ∷ ds) ds all (h.1)) all

AreWhole-push :
    (done : List String) (p : String) → AreWhole done → IsWhole is_slash p → AreWhole (push done p)
unfolding AreWhole
AreWhole-push done p h w =
    AreWhole-if (p == "" || p == ".") done (entered done p) h (AreWhole-entered done p h w)

is_stack-walk : (done ps : List String) → is_stack done ≡ true → is_stack (walk done ps) ≡ true
is_stack-walk done [] h = h
is_stack-walk done (p ∷ ps) h = is_stack-walk (push done p) ps (is_stack-push done p h)

AreWhole-walk : (done ps : List String) → AreWhole done → AreWhole ps → AreWhole (walk done ps)
unfolding AreWhole
AreWhole-walk done [] h w = h
AreWhole-walk done (p ∷ ps) h w =
    AreWhole-walk (push done p) ps (AreWhole-push done p h (w.0)) (w.1)

AreWhole-turned : (ps done : List String) → AreWhole ps → AreWhole done → AreWhole (turned ps done)
unfolding AreWhole
AreWhole-turned [] done h w = w
AreWhole-turned (p ∷ ps) done h w = AreWhole-turned ps (p ∷ done) (h.1) (h.0, w)

are_names-turned :
    (ps done : List String)
    → are_names ps ≡ true
    → are_names done ≡ true
    → are_names (turned ps done) ≡ true
are_names-turned [] done h w = w
are_names-turned (p ∷ ps) done h w = are_names-turned ps (p ∷ done) (ground arith) (ground arith)

abbrev last : List String → String
last [] = ""
last (p ∷ []) = p
last (p ∷ q ∷ ps) = last (q ∷ ps)

abbrev first : List String → String
first [] = ""
first (p ∷ ps) = p

first-turned : (p : String) (ps done : List String) → first (turned (p ∷ ps) done) ≡ last (p ∷ ps)
first-turned p [] done = refl
first-turned p (q ∷ ps) done = first-turned q ps (p ∷ done)

last-all_up :
    (p : String) (ps : List String) → all_up (p ∷ ps) ≡ true → (last (p ∷ ps) == "..") ≡ true
last-all_up p [] h = ground arith
last-all_up p (q ∷ ps) h = last-all_up q ps (ground arith)

-- Parts of which the first is no step up are names.
is_stack-are_names :
    (ps : List String) → is_stack ps ≡ true → (last ps == "..") ≡ false → are_names ps ≡ true
is_stack-are_names [] h l = refl
is_stack-are_names (p ∷ []) h l = ground arith
is_stack-are_names (p ∷ q ∷ ps) h l = ground (arith, last-all_up q ps, is_stack-are_names (q ∷ ps))

joined-split :
    (p : String) (ps : List String) → AreWhole (p ∷ ps) → split is_slash (joined (p ∷ ps)) ≡ p ∷ ps
unfolding joined AreWhole
joined-split p [] h = rw (split_first-IsWhole is_slash p (h.0)) refl
joined-split p (q ∷ ps) h =
    let rest = joined (q ∷ ps) in
    rw
      (
        cons-append "/" "" rest,
        nil-append rest,
        split_first-append is_slash "/" p rest refl (h.0),
        joined-split q ps (h.1),
      )
      refl

starts_up : (rest : String) → starts "../" (".." <> ("/" <> rest)) ≡ true
unfolding starts_with
starts_up rest =
    rw
      (
        cons-append "." "." ("/" <> rest),
        cons-append "." "" ("/" <> rest),
        nil-append ("/" <> rest),
        cons-append "/" "" rest,
      )
      refl

passed_both :
    {E A : Type 0} (a b : Bool) (e f : E) (n : A) {rel : A}
    → ◌≡◌ {A = Result E A} (if a then err e else if b then err f else ok n) (ok rel)
    → (rel ≡ n) × ((a ≡ false) × (b ≡ false))
passed_both true b e f n h = cc
passed_both false true e f n h = cc
passed_both false false e f n h = (cc, (refl, refl))

otherwise_ok :
    {E A : Type 0} (b : Bool) (e : E) (m : Result E A) {value : A}
    → (if b then err e else m) ≡ ok value
    → m ≡ ok value
otherwise_ok true e m h = cc
otherwise_ok false e m h = h

checked_path-ok :
    (name n : String) {rel : String}
    → checked_path name n ≡ ok rel
    → (rel ≡ n) × (((n == "" || n == ".") ≡ false) × ((n == ".." || starts "../" n) ≡ false))
checked_path-ok name n h = passed_both _ _ _ _ n h

-- No checked path leads up.
not_up :
    (name p : String) (ps : List String) {rel : String}
    → checked_path name (joined (p ∷ ps)) ≡ ok rel
    → (p == "..") ≡ false
unfolding joined
not_up name p [] h = let passed = checked_path-ok name p h in ground (arith, passed.1)
not_up name p (q ∷ ps) h =
    let rest = joined (q ∷ ps) in
    let passed = checked_path-ok name (p <> ("/" <> rest)) h in
    elim (Bool-cases (p == "..")) [
      | inl up ↦
          (let same : p ≡ ".." = (eq_iff p "..").0 up in
            let leads : starts "../" (p <> ("/" <> rest)) ≡ true = rw same (starts_up rest) in
            ground (arith, passed.1))
      | inr down ↦ down
    ]

first_of : (done : List String) → first (turned done []) ≡ last done
first_of [] = refl
first_of (d ∷ ds) = first-turned d ds []

checked-are_names :
    (name : String) (done xs : List String) {rel : String}
    → turned done [] ≡ xs
    → is_stack done ≡ true
    → AreWhole done
    → checked_path name (joined xs) ≡ ok rel
    → are_names (split is_slash rel) ≡ true
unfolding joined AreWhole
checked-are_names name done [] e s w h = cc
checked-are_names name done (x ∷ xs) e s w h =
    let passed = checked_path-ok name (joined (x ∷ xs)) h in
    let up = not_up name x xs h in
    let same : last done ≡ x = sym (first_of done) ∙ ap first e in
    let down : (last done == "..") ≡ false = rw same up in
    let names = are_names-turned done [] (is_stack-are_names done s down) refl in
    let named : are_names (x ∷ xs) ≡ true = subst (λ l. are_names l ≡ true) e names in
    let whole = subst AreWhole e (AreWhole-turned done [] w tt) in
    subst (λ l. are_names l ≡ true)
      (sym (ap (λ s. split is_slash s) (passed.0) ∙ joined-split x xs whole)) named

-- A name that `_safe_member` accepts comes back as a relative path each part of which is a name, and none
-- empty, a dot or two dots: it leads to below the directory that it is resolved in.
pub safe_member-are_names :
    (name : String) {rel : String}
    → safe_member name ≡ ok rel
    → are_names (split is_slash rel) ≡ true
unfolding safe_member normpath AreWhole
safe_member-are_names name h =
    let parts = split is_slash (slashed name) in
    checked-are_names name (walk [] parts) _ refl (is_stack-walk [] parts refl)
      (AreWhole-walk [] parts tt (split-IsWhole is_slash (slashed name))) (otherwise_ok _ _ _ h)
