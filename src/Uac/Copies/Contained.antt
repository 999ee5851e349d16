-- ===== src/Uac/Copies/Contained.antt =====
-- What `_copy_stream` of src/dfir_workbench/adapters/uac_adapter.py adds below the extraction root.
use mathlib.Core.Path.{subst}
use mathlib.Core.List.{append_assoc}
use dfir_evidence_workbench.Base.{
  ℕ, ◌+◌, ◌≤◌, ◌≡◌, refl, sym, ap, ◌∙◌, ◌==◌, String, Bool, true, false, ◌||◌, Option, none, some,
  is_some, List, [], ◌∷◌, ◌++◌, length, length-append, All, All-append, arith, Bool-cases, inl, inr,
  if◌then◌else◌,
}
use dfir_evidence_workbench.Base.Dict.{Dict, get, put, string_eq}
use dfir_evidence_workbench.Uac.Copies.{
  SafetyLimits, Stream, unreadable, blocks, Progress, flat, is_blocked, is_taken, read_blocks,
  finished, copied, with_parents, copy_stream,
}

abbrev pub Files : Type 0
Files = Dict String (List ℕ)

abbrev pub bytes_in : Files → ℕ
bytes_in [] = 0
bytes_in ((rel, bytes) ∷ fs) = length bytes + bytes_in fs

bytes_in-append : (fs gs : Files) → bytes_in (fs ++ gs) ≡ bytes_in fs + bytes_in gs
bytes_in-append [] gs = omega arith
bytes_in-append ((rel, bytes) ∷ fs) gs = omega (arith, bytes_in-append fs gs)

put_absent :
    (fs : Files) (k : String) (v : List ℕ) → get fs k ≡ none → put fs k v ≡ fs ++ ((k, v) ∷ [])
unfolding get put
put_absent [] k v h = refl
put_absent ((j, w) ∷ fs) k v h = elim (Bool-cases (j == k)) [
  | inl e ↦ held e
  | inr e ↦
      (let rest : get fs k ≡ none = ground arith in
        rw e (ap (λ l. (j, w) ∷ l) (put_absent fs k v rest)))
]
  where
    held : (j == k) ≡ true → put ((j, w) ∷ fs) k v ≡ ((j, w) ∷ fs) ++ ((k, v) ∷ [])
    held e = ground arith

-- The bytes that were read are within the limits.
read_blocks-within :
    (limits : SafetyLimits) (total n : ℕ) (bs : List (List ℕ)) {m : ℕ}
    → n ≤ limits.max_file_bytes
    → total + n ≤ limits.max_total_bytes
    → read_blocks limits total n bs ≡ some m
    → (m ≡ n + length (flat bs))
      × ((m ≤ limits.max_file_bytes) × (total + m ≤ limits.max_total_bytes))
unfolding read_blocks
read_blocks-within limits total n [] {m} small within h =
    let same : n ≡ m = cc in (omega arith, (omega arith, omega arith))
read_blocks-within limits total n (b ∷ bs) {m} small within h =
    let others : read_blocks limits total (n + length b) bs ≡ some m = ground arith in
    let fits : n + length b ≤ limits.max_file_bytes = ground arith in
    let in_all : total + (n + length b) ≤ limits.max_total_bytes = ground arith in
    let (same, (s, t)) = read_blocks-within limits total (n + length b) bs fits in_all others in
    (omega (arith, length-append b (flat bs)), (s, t))

module _ (limits : SafetyLimits) (allowed : String → Bool) (before : Files) where
  abbrev IsAdded : String × List ℕ → Type 0
  IsAdded f = (allowed (f.0) ≡ true) × (length (f.1) ≤ limits.max_file_bytes)

  -- Files were only added, each of them allowed and small enough, and their bytes are counted. A read
  -- that raised, which ends all, left at most one temporary file, for a path that is allowed too, and with
  -- its bytes all is still within the limits.
  pub data IsContained (p : Progress) : Type 0 where
    is_contained :
        (added : Files)
        → p.files ≡ before ++ added
        → All IsAdded added
        → bytes_in added ≡ p.total
        → All IsAdded p.left_over
        → length p.left_over ≤ 1
        → p.total + bytes_in p.left_over ≤ limits.max_total_bytes
        → (is_some p.raised ≡ false → p.left_over ≡ [])
        → IsContained p

  finished-IsContained :
      (rel : String) (bytes : List ℕ) (p : Progress) (n : ℕ) (breaks : Bool)
      → allowed rel ≡ true
      → get p.files rel ≡ none
      → n ≡ length bytes
      → n ≤ limits.max_file_bytes
      → p.total + n ≤ limits.max_total_bytes
      → p.left_over ≡ []
      → IsContained p
      → IsContained (finished rel bytes p n breaks)
  finished-IsContained rel bytes p n true a g e s w empty
        (is_contained added f h t others one l clean) =
      let only : (rel, bytes) ∷ p.left_over ≡ (rel, bytes) ∷ [] =
        ap (λ fs. (rel, bytes) ∷ fs) empty in
      is_contained added f h t (subst (All IsAdded) (sym only) ((a, omega arith), tt))
        (subst (λ fs. length fs ≤ 1) (sym only) (omega arith))
        (subst (λ fs. p.total + bytes_in fs ≤ limits.max_total_bytes) (sym only) (omega arith))
        λ u. cc
  finished-IsContained rel bytes p n false a g e s w empty
        (is_contained added f h t others one l clean) =
      is_contained (added ++ ((rel, bytes) ∷ []))
        (put_absent p.files rel bytes g
          ∙ ap (λ l. l ++ ((rel, bytes) ∷ [])) f
          ∙ append_assoc before added _)
        (All-append IsAdded added _ h ((a, omega arith), tt))
        (omega (arith, bytes_in-append added ((rel, bytes) ∷ []))) others one
        (subst (λ fs. (p.total + n) + bytes_in fs ≤ limits.max_total_bytes) (sym empty)
          (omega arith))
        clean

  pub same-IsContained :
      (p q : Progress)
      → q.files ≡ p.files
      → q.total ≡ p.total
      → q.left_over ≡ p.left_over
      → (is_some q.raised ≡ false → is_some p.raised ≡ false)
      → IsContained p
      → IsContained q
  same-IsContained p q e g k u (is_contained added f h t others one l clean) =
      is_contained added (e ∙ f) h (t ∙ sym g) (subst (All IsAdded) (sym k) others)
        (subst (λ fs. length fs ≤ 1) (sym k) one)
        (subst (λ fs. q.total + bytes_in fs ≤ limits.max_total_bytes) (sym k) (omega arith))
        λ none_raised. k ∙ clean (u none_raised)

  copied-IsContained :
      (rel : String) (bs : List (List ℕ)) (breaks : Bool) (p : Progress)
      → allowed rel ≡ true
      → is_some p.raised ≡ false
      → get p.files rel ≡ none
      → IsContained p
      → (o : Option ℕ) → read_blocks limits p.total 0 bs ≡ o
      → IsContained (copied rel bs breaks p o)
  copied-IsContained rel bs breaks p a u g c none e = same-IsContained p _ refl refl refl (λ h. h) c
  copied-IsContained rel bs breaks p a u g (is_contained added f h t others one l clean) (some n)
        e =
      let (same, (s, w)) = read_blocks-within limits p.total 0 bs (omega arith) (omega arith) e in
      finished-IsContained rel (flat bs) p n breaks a g (omega arith) s w (clean u)
        (is_contained added f h t others one l clean)

  pub copy_stream-IsContained :
      (rel : String) (content : Stream) (p : Progress)
      → allowed rel ≡ true
      → is_some p.raised ≡ false
      → IsContained p
      → IsContained (copy_stream limits rel content p)
  unfolding copy_stream
  copy_stream-IsContained rel unreadable p a u c = same-IsContained p _ refl refl refl (λ h. cc) c
  copy_stream-IsContained rel (blocks bs breaks) p a u c =
      either (is_blocked p rel) (λ _. same-IsContained p _ refl refl refl (λ h. cc) c)
        λ _.
          either (is_taken p rel) (λ _. same-IsContained p _ refl refl refl (λ h. cc) c)
            λ free.
              copied-IsContained rel bs breaks (with_parents rel p) a u
                (absent_file (get p.files rel) _ free)
                (same-IsContained p _ refl refl refl (λ h. h) c) _ refl
    where
      either :
          (b : Bool) {x y : Progress}
          → (b ≡ true → IsContained x)
          → (b ≡ false → IsContained y)
          → IsContained (if b then x else y)
      either true h k = h refl
      either false h k = k refl

      absent_file : (o : Option (List ℕ)) (b : Bool) → (is_some o || b) ≡ false → o ≡ none
      absent_file none b h = refl
      absent_file (some v) b h = cc
