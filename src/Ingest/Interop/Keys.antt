-- ===== src/Ingest/Interop/Keys.antt =====
-- The text of which `idempotency_key` of src/dfir_workbench/interop.py takes the digest.
use text.Mathlib.TextLemmas.{nil-append, cons-append}
use dfir_evidence_workbench.Base.{ℕ, ◌≡◌, refl, ap, String, Bool, List, [], ◌∷◌, eqb}
use dfir_evidence_workbench.Base.Splits.{IsWhole, split_first-append, split_first-IsWhole}
use dfir_evidence_workbench.Base.Strings.{◌<>◌, split}
use dfir_evidence_workbench.Ingest.Interop.{KeyParts, key_material}

abbrev pub is_bar : ℕ → Bool
is_bar c = eqb c b'|'

abbrev pub HasNoBar : String → Type 0
HasNoBar s = IsWhole is_bar s

-- the step from one part to the text of the others
split-bar :
    (a rest : String) {parts : List String}
    → HasNoBar a
    → split is_bar rest ≡ parts
    → split is_bar (a <> ("|" <> rest)) ≡ a ∷ parts
split-bar a rest h e =
    rw (cons-append "|" "" rest, nil-append rest, split_first-append is_bar "|" a rest refl h, e)
      refl

abbrev pub parts_of : KeyParts → List String
parts_of k =
    k.integration_id ∷ k.direction ∷ k.source_system ∷ k.source_entity ∷ k.source_id
    ∷ k.source_revision ∷ []

abbrev pub HasNoBars : KeyParts → Type 0
HasNoBars k =
    HasNoBar k.integration_id
    × HasNoBar k.direction
    × HasNoBar k.source_system
    × HasNoBar k.source_entity
    × HasNoBar k.source_id
    × HasNoBar k.source_revision

-- If no part holds a bar, splitting the text at its bars gives the six parts back.
pub split-key_material : (k : KeyParts) → HasNoBars k → split is_bar (key_material k) ≡ parts_of k
unfolding key_material
split-key_material k h = split-bar k.integration_id _ (h.0) (
    split-bar k.direction _ (h.1) (
      split-bar k.source_system _ (h.2) (
        split-bar k.source_entity _ (h.3) (
          split-bar k.source_id k.source_revision (h.4)
            (ap (λ s. s.0 ∷ s.1) (split_first-IsWhole is_bar k.source_revision (h.5)))))))
