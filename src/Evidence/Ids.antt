-- ===== src/Evidence/Ids.antt =====
-- `_ID_RE` and `_validate_id` of src/dfir_workbench/evidence_store.py.
use Prim.Native.String.{String}
use native.Mathlib.Nat.{le_trans}
use dfir_evidence_workbench.Base.{
  ℕ, ◌+◌, ◌≤◌, ◌≡◌, ◌≢◌, refl, inl, inr, Bool, true, false, ◌&&◌, ◌||◌, List, [], ◌∷◌, ◌++◌, length,
  All, arith, leb, eqb, if◌then◌else◌, Bool-cases,
}
use dfir_evidence_workbench.Base.Text.{codes, is_alnum}

-- [A-Za-z0-9_-]
abbrev pub is_slug_char : ℕ → Bool
is_slug_char c = is_alnum c || eqb c b'_' || eqb c b'-'

-- [A-Za-z0-9_-]*[A-Za-z0-9]
ends_slug : List ℕ → Bool
ends_slug [] = false
ends_slug (c ∷ []) = is_alnum c
ends_slug (c ∷ d ∷ s) = is_slug_char c && ends_slug (d ∷ s)

is_empty : List ℕ → Bool
is_empty [] = true
is_empty (c ∷ s) = false

-- [A-Za-z0-9](?:[A-Za-z0-9_-]{0,62}[A-Za-z0-9])?
unfoldable pub is_slug : List ℕ → Bool
unfolding ends_slug is_empty
is_slug [] = false
is_slug (c ∷ s) = is_alnum c && (is_empty s || (leb (length s) 63 && ends_slug s))

-- The text without one newline at its end, before which `$` matches too.
unfoldable pub before_newline : List ℕ → List ℕ
before_newline [] = []
before_newline (c ∷ []) = if eqb c 10 then [] else c ∷ []
before_newline (c ∷ d ∷ s) = c ∷ before_newline (d ∷ s)

-- `_ID_RE.match(value)`
unfoldable pub matches_id : String → Bool
unfolding is_slug before_newline
matches_id value = is_slug (codes value) || is_slug (before_newline (codes value))

-- A character that cannot leave a directory: no separator, no dot, no NUL.
abbrev pub IsSafeChar : ℕ → Type 0
IsSafeChar c = (c ≢ b'/') × (c ≢ b'.') × (c ≢ 92) × (c ≢ 0)

ends_slug-IsSafeChar : (s : List ℕ) → ends_slug s ≡ true → All IsSafeChar s
unfolding ends_slug
ends_slug-IsSafeChar [] h = tt
ends_slug-IsSafeChar (c ∷ []) h = ground arith
ends_slug-IsSafeChar (c ∷ d ∷ s) h = (ground arith, ends_slug-IsSafeChar (d ∷ s) (ground arith))

is_slug-IsSafeChar : (s : List ℕ) → is_slug s ≡ true → All IsSafeChar s
unfolding is_slug is_empty
is_slug-IsSafeChar [] h = tt
is_slug-IsSafeChar (c ∷ []) h = ground arith
is_slug-IsSafeChar (c ∷ d ∷ s) h = (ground arith, ends_slug-IsSafeChar (d ∷ s) (ground arith))

before_newline-IsSafeChar : (s : List ℕ) → All IsSafeChar (before_newline s) → All IsSafeChar s
unfolding before_newline
before_newline-IsSafeChar [] h = tt
before_newline-IsSafeChar (c ∷ []) h = ground arith
before_newline-IsSafeChar (c ∷ d ∷ s) (h, hs) = (h, before_newline-IsSafeChar (d ∷ s) hs)

before_newline-length : (s : List ℕ) → length s ≤ length (before_newline s) + 1
unfolding before_newline
before_newline-length [] = omega arith
before_newline-length (c ∷ []) = ground arith
before_newline-length (c ∷ d ∷ s) = omega (arith, before_newline-length (d ∷ s))

length-before_newline : (s : List ℕ) → length (before_newline s) ≤ length s
unfolding before_newline
length-before_newline [] = omega arith
length-before_newline (c ∷ []) = ground arith
length-before_newline (c ∷ d ∷ s) = omega (arith, length-before_newline (d ∷ s))

ends_slug-append : (s : List ℕ) → ends_slug (s ++ 10 ∷ []) ≡ false
unfolding ends_slug
ends_slug-append [] = refl
ends_slug-append (c ∷ []) = ground arith
ends_slug-append (c ∷ d ∷ s) = ground (arith, ends_slug-append (d ∷ s))

is_slug-append : (s : List ℕ) → is_slug (s ++ 10 ∷ []) ≡ false
unfolding is_slug is_empty
is_slug-append [] = refl
is_slug-append (c ∷ []) = ground (arith, ends_slug-append [])
is_slug-append (c ∷ d ∷ s) = ground (arith, ends_slug-append (d ∷ s))

is_slug-length : (s : List ℕ) → is_slug s ≡ true → (1 ≤ length s) × (length s ≤ 64)
unfolding is_slug is_empty
is_slug-length [] h = cc
is_slug-length (c ∷ []) h = omega arith
is_slug-length (c ∷ d ∷ s) h = ground arith

-- An id that the store accepts has 1 to 65 characters, and none of them is a path separator of
-- either kind, a dot or NUL.
matches_id-IsSafe :
    (value : String)
    → matches_id value ≡ true
    → All IsSafeChar (codes value) × (1 ≤ length (codes value)) × (length (codes value) ≤ 65)
unfolding matches_id
matches_id-IsSafe value h = elim (Bool-cases (is_slug (codes value))) [
  | inl plain ↦ (
    is_slug-IsSafeChar (codes value) plain,
    ground (arith, is_slug-length (codes value)),
    ground (arith, is_slug-length (codes value)),
  )
  | inr other ↦
      let chopped : is_slug (before_newline (codes value)) ≡ true = ground arith in
      let (low, high) = is_slug-length (before_newline (codes value)) chopped in
      (
        before_newline-IsSafeChar (codes value)
            (is_slug-IsSafeChar (before_newline (codes value)) chopped),
        le_trans low (length-before_newline (codes value)),
        omega (arith, before_newline-length (codes value)),
      )
]

before_newline-append : (s : List ℕ) → before_newline (s ++ 10 ∷ []) ≡ s
unfolding before_newline
before_newline-append [] = refl
before_newline-append (c ∷ []) = refl
before_newline-append (c ∷ d ∷ s) = rw (before_newline-append (d ∷ s)) refl

-- `$` lets a newline through: a text that is a slug followed by a newline is accepted as an id,
-- although it is no slug.
pub matches_id-newline :
    (slug value : String)
    → is_slug (codes slug) ≡ true
    → codes value ≡ codes slug ++ 10 ∷ []
    → (matches_id value ≡ true) × (is_slug (codes value) ≡ false)
unfolding matches_id
matches_id-newline slug value h e = (
  rw (e, before_newline-append (codes slug), is_slug-append (codes slug)) h,
  rw e (is_slug-append (codes slug)),
)
