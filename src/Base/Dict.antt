-- ===== src/Base/Dict.antt =====
-- Python's `dict`, a directory of a file system, a table with a primary key: keys with a Boolean
-- equality. Entries stand in the order of their first insertion, as a `dict` iterates.
use mathlib.Core.Path.{◌≡◌, refl}
use mathlib.Core.Logic.{◌↔◌}
use mathlib.Core.Bool.{Bool, true, false}
use mathlib.Core.Option.{Option, none, some}
use mathlib.Core.List.{List, [], ◌∷◌}
use Prim.Native.String.{String}
use text.Mathlib.Text.{◌==◌}
use text.Mathlib.TextEquality.{eq_iff}
use native.Mathlib.Omega.{arith}
use dfir_evidence_workbench.Base.Tests.{if◌then◌else◌}

pub record Eq (K : Type 0) : Type 0 where
  pub beq : K → K → Bool
  pub beq_iff : (a b : K) → (beq a b ≡ true) ↔ (a ≡ b)

instance abbrev pub string_eq : Eq String
string_eq = record { beq = ◌==◌; beq_iff = eq_iff }

abbrev pub Dict : Type 0 → Type 0 → Type 0
Dict K V = List (K × V)

pub beq_refl : {K : Type 0} ⦃e : Eq K⦄ (k : K) → e.beq k k ≡ true
beq_refl ⦃e⦄ k = (e.beq_iff k k).1 refl

module _ {K V : Type 0} ⦃e : Eq K⦄ where
  -- d.get(k)
  unfoldable pub get : Dict K V → K → Option V
  get [] k = none
  get ((j, v) ∷ d) k = if e.beq j k then some v else get d k

  -- d[k] = v
  unfoldable pub put : Dict K V → K → V → Dict K V
  put [] k v = (k, v) ∷ []
  put ((j, w) ∷ d) k v = if e.beq j k then (j, v) ∷ d else (j, w) ∷ put d k v

  -- d.pop(k, None)
  unfoldable pub remove : Dict K V → K → Dict K V
  remove [] k = []
  remove ((j, v) ∷ d) k = let rest = remove d k in if e.beq j k then rest else (j, v) ∷ rest

  pub get-put :
      (d : Dict K V) (k j : K) (v : V) → get (put d k v) j ≡ (if e.beq k j then some v else get d j)
  unfolding get put
  get-put [] k j v = refl
  get-put ((i, w) ∷ d) k j v =
      ground (arith, e.beq_iff i k, e.beq_iff i j, e.beq_iff k j, get-put d k j v)

  pub get-remove :
      (d : Dict K V) (k j : K) → get (remove d k) j ≡ (if e.beq k j then none else get d j)
  unfolding get remove
  get-remove [] k j = ground arith
  get-remove ((i, w) ∷ d) k j =
      ground (arith, e.beq_iff i k, e.beq_iff i j, e.beq_iff k j, get-remove d k j)

  pub get-put_self : (d : Dict K V) (k : K) (v : V) → get (put d k v) k ≡ some v
  get-put_self d k v = rw (get-put, beq_refl) refl

  pub get-remove_self : (d : Dict K V) (k : K) → get (remove d k) k ≡ none
  get-remove_self d k = rw (get-remove, beq_refl) refl

pub ruleset dict_laws = (get-put, get-remove, beq_refl)

-- Each key stands once.
abbrev pub IsDistinct : {K V : Type 0} ⦃e : Eq K⦄ → Dict K V → Type 0
IsDistinct [] = Unit {0}
IsDistinct ((k, v) ∷ d) = (get d k ≡ none) × IsDistinct d

module _ {K V : Type 0} ⦃e : Eq K⦄ where
  absent-put :
      (d : Dict K V) (k j : K) (v : V)
      → e.beq j k ≡ false
      → get d j ≡ none
      → get (put d k v) j ≡ none
  absent-put d k j v h n = ground (arith, get-put d k j v, e.beq_iff j k, e.beq_iff k j)

  absent-remove : (d : Dict K V) (k j : K) → get d j ≡ none → get (remove d k) j ≡ none
  absent-remove d k j n = ground (arith, get-remove d k j)

  either :
      (P : Dict K V → Type 0) {x y : Dict K V} (b : Bool)
      → (b ≡ true → P x)
      → (b ≡ false → P y)
      → P (if b then x else y)
  either P true p q = p refl
  either P false p q = q refl

  pub put-IsDistinct : (d : Dict K V) (k : K) (v : V) → IsDistinct d → IsDistinct (put d k v)
  unfolding put get
  put-IsDistinct [] k v u = (refl, tt)
  put-IsDistinct ((j, w) ∷ d) k v u =
      let rest = put-IsDistinct d k v (u.1) in
      either IsDistinct (e.beq j k) (λ h. u) (λ h. (absent-put d k j v h (u.0), rest))

  pub remove-IsDistinct : (d : Dict K V) (k : K) → IsDistinct d → IsDistinct (remove d k)
  unfolding remove get
  remove-IsDistinct [] k u = tt
  remove-IsDistinct ((j, w) ∷ d) k u =
      let rest = remove-IsDistinct d k (u.1) in
      either IsDistinct (e.beq j k) (λ h. rest) (λ h. (absent-remove d k j (u.0), rest))
