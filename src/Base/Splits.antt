-- ===== src/Base/Splits.antt =====
-- The parts of a text between its separators.
use Prim.Native.Char.{Char, code}
use Prim.Native.String.{String}
use text.Mathlib.TextLemmas.{nil-append, cons-append}
use mathlib.Core.Path.{◌≡◌, refl}
use mathlib.Core.Bool.{Bool, true, false}
use mathlib.Core.List.{List, []}
use Prim.Native.Nat.{ℕ}
use native.Mathlib.Omega.{arith}
use dfir_evidence_workbench.Base.Tests.{if◌then◌else◌}
use dfir_evidence_workbench.Base.Lists.{any, All}
use dfir_evidence_workbench.Base.Text.{codes}
use dfir_evidence_workbench.Base.Strings.{◌<>◌, split, split_first}

module _ (sep : ℕ → Bool) where
  -- No character of a text separates.
  abbrev pub IsWhole : String → Type 0
  IsWhole s = any sep (codes s) ≡ false

  pub split_first-append :
      (m : Char) (a rest : String)
      → sep (code m) ≡ true
      → IsWhole a
      → split_first sep (a <> String.◌∷◌ m rest) ≡ (a, split sep rest)
  unfolding split_first
  split_first-append m String.[] rest e h = rw (nil-append (String.◌∷◌ m rest), e) refl
  split_first-append m (String.◌∷◌ c s) rest e h =
      let here : sep (code c) ≡ false = ground arith in
      let there : IsWhole s = ground arith in
      rw (cons-append c s (String.◌∷◌ m rest), here, split_first-append m s rest e there) refl

  pub split_first-IsWhole : (a : String) → IsWhole a → split_first sep a ≡ (a, [])
  unfolding split_first
  split_first-IsWhole String.[] h = refl
  split_first-IsWhole (String.◌∷◌ c s) h =
      let here : sep (code c) ≡ false = ground arith in
      let there : IsWhole s = ground arith in rw (here, split_first-IsWhole s there) refl

  abbrev AreWhole : String × List String → Type 0
  AreWhole parts = IsWhole (parts.0) × All IsWhole (parts.1)

  pub split-IsWhole : (s : String) → All IsWhole (split sep s)
  unfolding split_first
  split-IsWhole String.[] = (refl, tt)
  split-IsWhole (String.◌∷◌ c s) =
      let (first, others) = split-IsWhole s in at (sep (code c)) refl first others
    where
      at :
          (b : Bool)
          → sep (code c) ≡ b
          → IsWhole ((split_first sep s).0)
          → All IsWhole ((split_first sep s).1)
          → AreWhole (
              if b
              then ("", split sep s)
              else (String.◌∷◌ c ((split_first sep s).0), (split_first sep s).1))
      at true e first others = (refl, (first, others))
      at false e first others = (ground arith, others)
