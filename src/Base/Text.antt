-- ===== src/Base/Text.antt =====
-- Python's operations on `str`, over the code points of a text.
-- `lower` is `str.lower` on ASCII and on the two other characters whose lower case holds an ASCII
-- letter, so that a search for an ASCII word in a lowered text is exact.
use Prim.Native.Char.{code}
use Prim.Native.Nat.{ℕ, ◌+◌}
use Prim.Native.String.{String}
use mathlib.Core.Bool.{Bool, true, false, ◌&&◌, ◌||◌}
use mathlib.Core.List.{List, [], ◌∷◌, ◌++◌, map}
use mathlib.Core.Option.{Option, none, some}
use dfir_evidence_workbench.Base.Tests.{ltb, leb, eqb, if◌then◌else◌}

abbrev pub codes : String → List ℕ
codes String.[] = []
codes (String.◌∷◌ c s) = code c ∷ codes s

unfoldable pub starts_with : List ℕ → List ℕ → Bool
starts_with [] s = true
starts_with (w ∷ ws) [] = false
starts_with (w ∷ ws) (c ∷ s) = eqb w c && starts_with ws s

-- `word in text`
unfoldable pub contains : List ℕ → List ℕ → Bool
unfolding starts_with
contains w [] = starts_with w []
contains w (c ∷ s) = starts_with w (c ∷ s) || contains w s

lower_char : ℕ → List ℕ
lower_char c =
    if leb b'A' c && leb c b'Z'
    then (c + 32) ∷ []
    else if eqb c 0x212a
    then b'k' ∷ []
    else if eqb c 0x130
    then b'i' ∷ 0x307 ∷ []
    else c ∷ []

unfoldable pub lower : List ℕ → List ℕ
unfolding lower_char
lower [] = []
lower (c ∷ s) = lower_char c ++ lower s

-- `text.replace(a, b)` for two characters
abbrev pub replace_char : ℕ → ℕ → List ℕ → List ℕ
replace_char a b = map (λ c. if eqb c a then b else c)

-- the characters that `str.strip` removes
abbrev pub is_space : ℕ → Bool
is_space c =
    (leb 9 c && leb c 13)
    || (leb 28 c && leb c 32)
    || eqb c 0x85
    || eqb c 0xa0
    || eqb c 0x1680
    || (leb 0x2000 c && leb c 0x200a)
    || eqb c 0x2028
    || eqb c 0x2029
    || eqb c 0x202f
    || eqb c 0x205f
    || eqb c 0x3000

-- `not text.strip()`
unfoldable pub is_blank : List ℕ → Bool
is_blank [] = true
is_blank (c ∷ s) = is_space c && is_blank s

abbrev pub is_alnum : ℕ → Bool
is_alnum c = (leb b'0' c && leb c b'9') || (leb b'A' c && leb c b'Z') || (leb b'a' c && leb c b'z')

-- `a or b` on texts: `None` and the empty text are false
abbrev pub or_text : Option String → String → String
or_text none d = d
or_text (some String.[]) d = d
or_text (some (String.◌∷◌ c s)) d = String.◌∷◌ c s

-- `len(s.encode("utf-8"))`
abbrev pub utf8_size : List ℕ → ℕ
utf8_size [] = 0
utf8_size (c ∷ s) =
    (if ltb c 0x80 then 1 else if ltb c 0x800 then 2 else if ltb c 0x10000 then 3 else 4)
    + utf8_size s
