-- ===== src/Ewf/Complete.antt =====
-- What a valid inventory of src/dfir_workbench/ewf.py lists.
use dfir_evidence_workbench.Base.{
  ℕ, suc, ◌+◌, ◌≤◌, ◌≡◌, refl, String, Bool, true, false, List, [], ◌∷◌, ltb, arith, if◌then◌else◌,
}
use dfir_evidence_workbench.Base.Result.{Result, ok, err}
use dfir_evidence_workbench.Ewf.{
  Segment, Entry, Inventory, valid, entry_of, over_limit, hashed, sized, walk, inventory, status,
  status_of, Problem,
}

-- Every segment is listed in its place, with its size and the digest of its file.
pub data IsListed : ℕ → List Segment → List Entry → Type 0 where
  listed_all : {n : ℕ} → IsListed n [] []
  listed :
      {n size : ℕ} {sha : String} {s : Segment} {ss : List Segment} {es : List Entry}
      → s.stat ≡ ok size
      → s.digest ≡ ok sha
      → IsListed (suc n) ss es
      → IsListed n (s ∷ ss) (entry_of s size sha n ∷ es)

abbrev pub bytes_of : List Entry → ℕ
bytes_of [] = 0
bytes_of (e ∷ es) = e.size + bytes_of es

abbrev IsSummed : (limit n total : ℕ) → List Segment → Inventory → Type 0
IsSummed limit n total ss i =
    IsListed n ss i.segments
    × (i.total_bytes ≡ total + bytes_of i.segments)
    × (i.total_bytes ≤ limit)

hashed-IsSummed :
    (limit : ℕ) (s : Segment) (ss : List Segment) (size n total : ℕ) (r : Result String String)
    (others : ℕ → Inventory)
    → s.stat ≡ ok size
    → s.digest ≡ r
    → ((next : ℕ) → (others next).errors ≡ [] → IsSummed limit next (total + size) ss (others next))
    → (hashed s size n r others).errors ≡ []
    → IsSummed limit n total (s ∷ ss) (hashed s size n r others)
hashed-IsSummed limit s ss size n total (err m) others e d ih h = cc
hashed-IsSummed limit s ss size n total (ok sha) others e d ih h =
    let (l, sum, small) = ih (suc n) h in (listed e d l, omega arith, small)

sized-IsSummed :
    (limit : ℕ) (s : Segment) (ss : List Segment) (n total : ℕ) (r : Result String ℕ)
    (others : ℕ → ℕ → Inventory)
    → s.stat ≡ r
    → ((next sum : ℕ)
        → sum ≤ limit
        → (others next sum).errors ≡ []
        → IsSummed limit next sum ss (others next sum))
    → (sized limit s n total r others).errors ≡ []
    → IsSummed limit n total (s ∷ ss) (sized limit s n total r others)
sized-IsSummed limit s ss n total (err m) others e ih h = cc
sized-IsSummed limit s ss n total (ok size) others e ih h = at (ltb limit (total + size)) refl h
  where
    read : Inventory
    read = hashed s size n s.digest (λ next. others next (total + size))

    at :
        (b : Bool)
        → ltb limit (total + size) ≡ b
        → (if b then over_limit s (total + size) else read).errors ≡ []
        → IsSummed limit n total (s ∷ ss) (if b then over_limit s (total + size) else read)
    at true c h = cc
    at false c h =
        hashed-IsSummed limit s ss size n total s.digest (λ next. others next (total + size)) e refl
          (λ next. ih next (total + size) (ground arith)) h

walk-IsSummed :
    (limit : ℕ) (ss : List Segment) (n total : ℕ)
    → total ≤ limit
    → (walk limit ss n total).errors ≡ []
    → IsSummed limit n total ss (walk limit ss n total)
unfolding walk
walk-IsSummed limit [] n total le h = (listed_all, omega arith, le)
walk-IsSummed limit (s ∷ ss) n total le h =
    sized-IsSummed limit s ss n total s.stat (walk limit ss) refl (walk-IsSummed limit ss) h

valid-errors : (es : List Entry) (ps : List Problem) → status_of es ps ≡ valid → ps ≡ []
valid-errors [] ps h = cc
valid-errors (e ∷ es) [] h = refl
valid-errors (e ∷ es) (p ∷ ps) h = cc

-- If an inventory is valid, it lists every segment of the source in order, with the size and the digest
-- of its file and numbered from 1, and its total is the sum of these sizes and within the limit.
pub inventory-IsComplete :
    (limit : ℕ) (segments : List Segment)
    → status (inventory limit segments) ≡ valid
    → IsListed 0 segments (inventory limit segments).segments
      × ((inventory limit segments).total_bytes ≡ bytes_of (inventory limit segments).segments)
      × ((inventory limit segments).total_bytes ≤ limit)
inventory-IsComplete limit segments h =
    let i = inventory limit segments in
    let (l, sum, small) =
      walk-IsSummed limit segments 0 0 (omega arith) (valid-errors i.segments i.errors h) in
    (l, omega arith, small)
