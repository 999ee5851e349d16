-- ===== src/Metrics/Counters.antt =====
-- The counters of src/dfir_workbench/metrics.py. A series is a name with its labels in the order of
-- their names. Values are natural numbers, which floats hold exactly up to 2 ^ 53.
use Prim.Native.Nat.{Ordering}
use Prim.Native.String.{compare}
use dfir_evidence_workbench.Base.{
  ℕ, ◌+◌, ◌==◌, ◌≡◌, refl, ap, ◌∙◌, String, Bool, true, false, ◌&&◌, Option, none, some, List, [],
  ◌∷◌, all, arith, if◌then◌else◌, eq_iff,
}
use dfir_evidence_workbench.Base.Dict.{Dict, get, string_eq}

abbrev pub Labels : Type 0
Labels = List (String × String)

abbrev pub Series : Type 0
Series = String × Labels

abbrev before : String → String → Bool
before a b = elim (compare a b) [ Ordering.lt ↦ true | _ ↦ false ]

abbrev insert_label : String × String → Labels → Labels
insert_label l [] = l ∷ []
insert_label l (m ∷ ms) =
    let rest = insert_label l ms in if before (m.0) (l.0) then m ∷ rest else l ∷ m ∷ ms

-- `_key`: the items of the labels, sorted
unfoldable pub key : Labels → Labels
key [] = []
key (l ∷ ls) = insert_label l (key ls)

abbrev same_labels : Labels → Labels → Bool
same_labels [] [] = true
same_labels [] (b ∷ bs) = false
same_labels (a ∷ as_) [] = false
same_labels ((k, v) ∷ as_) ((j, w) ∷ bs) = (k == j && v == w) && same_labels as_ bs

abbrev pub same_series : Series → Series → Bool
same_series (n, ls) (m, ks) = n == m && same_labels ls ks

-- `_counters[series] += value` on a defaultdict
unfoldable pub bump : Dict Series ℕ → Series → ℕ → Dict Series ℕ
bump [] s v = (s, v) ∷ []
bump ((t, w) ∷ d) s v = if same_series t s then (t, w + v) ∷ d else (t, w) ∷ bump d s v

unfoldable pub inc_counter : Dict Series ℕ → String → Labels → ℕ → Dict Series ℕ
inc_counter counters name labels value = bump counters (name, key labels) value

-- The sum of the series that pass a test.
unfoldable pub sum_if : (Series → Bool) → Dict Series ℕ → ℕ
sum_if test [] = 0
sum_if test ((s, v) ∷ d) = (if test s then v else 0) + sum_if test d

abbrev has_label : Labels → String × String → Bool
has_label labels (k, v) = is_value (get labels k)
  where
    is_value : Option String → Bool
    is_value none = false
    is_value (some w) = w == v

unfoldable pub selects : String → Labels → Series → Bool
selects name filter (n, labels) = n == name && all (has_label labels) filter

unfoldable pub counter_total : Dict Series ℕ → String → Labels → ℕ
counter_total counters name filter = sum_if (selects name filter) counters

and_true : (a b : Bool) → (a && b) ≡ true → (a ≡ true) × (b ≡ true)
and_true true b h = (refl, h)
and_true false b h = cc

same_labels-eq : (as_ bs : Labels) → same_labels as_ bs ≡ true → as_ ≡ bs
same_labels-eq [] [] h = refl
same_labels-eq [] (b ∷ bs) h = cc
same_labels-eq (a ∷ as_) [] h = cc
same_labels-eq ((k, v) ∷ as_) ((j, w) ∷ bs) h =
    let parts = and_true (k == j && v == w) (same_labels as_ bs) h in
    let entries = and_true (k == j) (v == w) (parts.0) in
    rw ((eq_iff k j).0 (entries.0), (eq_iff v w).0 (entries.1), same_labels-eq as_ bs (parts.1))
      refl

same_series-eq : (s t : Series) → same_series s t ≡ true → s ≡ t
same_series-eq (n, ls) (m, ks) h =
    let parts = and_true (n == m) (same_labels ls ks) h in
    rw ((eq_iff n m).0 (parts.0), same_labels-eq ls ks (parts.1)) refl

-- Adding to a series adds to the sums that count it, and to no others.
pub sum_if-bump :
    (test : Series → Bool) (d : Dict Series ℕ) (s : Series) (v : ℕ)
    → sum_if test (bump d s v) ≡ sum_if test d + (if test s then v else 0)
unfolding sum_if bump
sum_if-bump test [] s v = omega arith
sum_if-bump test ((t, w) ∷ d) s v = at (same_series t s) refl (sum_if-bump test d s v)
  where
    added :
        (b : Bool) (w v n : ℕ)
        → (if b then w + v else 0) + n ≡ (if b then w else 0) + n + (if b then v else 0)
    added true w v n = omega arith
    added false w v n = omega arith

    at :
        (b : Bool)
        → same_series t s ≡ b
        → sum_if test (bump d s v) ≡ sum_if test d + (if test s then v else 0)
        → sum_if test (if b then (t, w + v) ∷ d else (t, w) ∷ bump d s v)
          ≡ (if test t then w else 0) + sum_if test d + (if test s then v else 0)
    at true h rest =
        added (test t) w v (sum_if test d)
        ∙ ap (λ x. (if test t then w else 0) + sum_if test d + (if test x then v else 0))
            (same_series-eq t s h)
    at false h rest = omega (arith, rest)
