-- ===== src/Base/Strings.antt =====
-- Python's methods of `str` that answer texts, and its conversions between texts and integers.
-- `lower_text` changes the ASCII letters only, and `int_of_text` reads ASCII digits.
use Prim.Native.Char.{Char, code}
use Prim.Native.Nat.{ℕ, zero, suc, ◌<◌, ◌+◌, ◌-◌, ◌*◌, ◌/◌, ◌%◌}
use Prim.Native.String
use Prim.Native.String.{String}
use mathlib.Core.Path.{◌≡◌, refl}
use mathlib.Core.Logic.{inl, inr}
use native.Mathlib.Omega.{arith}
use mathlib.Core.Bool.{Bool, true, false, ◌&&◌, ◌||◌}
use mathlib.Core.List.{List, [], ◌∷◌}
use mathlib.Core.Option.{Option, none, some}
use text.Mathlib.Text.{◌==◌}
use dfir_evidence_workbench.Base.Tests.{leb, eqb, Bool-cases, if◌then◌else◌}
use dfir_evidence_workbench.Base.Text.{codes, is_space, contains, starts_with}

infixr 65 ◌<>◌
abbrev pub ◌<>◌ : String → String → String
a <> b = String.◌++◌ a b

drop_spaces : String → String
drop_spaces String.[] = ""
drop_spaces (String.◌∷◌ c s) = if is_space (code c) then drop_spaces s else String.◌∷◌ c s

drop_end : String → String
drop_end String.[] = ""
drop_end (String.◌∷◌ c s) =
    let rest = drop_end s in if rest == "" && is_space (code c) then "" else String.◌∷◌ c rest

-- `str.strip`
unfoldable pub strip : String → String
unfolding drop_spaces drop_end
strip s = drop_end (drop_spaces s)

abbrev letters : List Char
letters =
    "a" ∷ "b" ∷ "c" ∷ "d" ∷ "e" ∷ "f" ∷ "g" ∷ "h" ∷ "i" ∷ "j" ∷ "k" ∷ "l" ∷ "m" ∷ "n" ∷ "o" ∷ "p"
    ∷ "q" ∷ "r" ∷ "s" ∷ "t" ∷ "u" ∷ "v" ∷ "w" ∷ "x" ∷ "y" ∷ "z" ∷ []

abbrev digits : List Char
digits = "0" ∷ "1" ∷ "2" ∷ "3" ∷ "4" ∷ "5" ∷ "6" ∷ "7" ∷ "8" ∷ "9" ∷ []

nth_char : List Char → ℕ → Char → Char
nth_char [] n d = d
nth_char (c ∷ cs) zero d = c
nth_char (c ∷ cs) (suc n) d = nth_char cs n d

unfoldable pub lower_text : String → String
unfolding nth_char
lower_text String.[] = ""
lower_text (String.◌∷◌ c s) =
    String.◌∷◌
      (if leb b'A' (code c) && leb (code c) b'Z' then nth_char letters (code c - b'A') c else c)
      (lower_text s)

-- `word in text`, `text.startswith(word)` and `text.endswith(word)`
abbrev pub has_text : String → String → Bool
has_text word s = contains (codes word) (codes s)

abbrev pub starts : String → String → Bool
starts word s = starts_with (codes word) (codes s)

unfoldable pub ends : String → String → Bool
ends word String.[] = word == ""
ends word (String.◌∷◌ c s) = word == String.◌∷◌ c s || ends word s

-- `text[:-1]`
unfoldable pub drop_last : String → String
drop_last String.[] = ""
drop_last (String.◌∷◌ c s) = if s == "" then "" else String.◌∷◌ c (drop_last s)

-- `text.split(sep)` for a test of separating characters: the first part, and the others
unfoldable pub split_first : (ℕ → Bool) → String → String × List String
split_first sep String.[] = ("", [])
split_first sep (String.◌∷◌ c s) =
    let (first, rest) = split_first sep s in
    if sep (code c) then ("", first ∷ rest) else (String.◌∷◌ c first, rest)

abbrev pub split : (ℕ → Bool) → String → List String
split sep s = (split_first sep s).0 ∷ (split_first sep s).1

abbrev pub is_digit : ℕ → Bool
is_digit c = leb b'0' c && leb c b'9'

unfoldable pub all_digits : List ℕ → Bool
all_digits [] = true
all_digits (c ∷ s) = is_digit c && all_digits s

decimal_from : ℕ → ℕ → String → String
unfolding nth_char
decimal_from zero n rest = rest
decimal_from (suc fuel) n rest =
    let here = String.◌∷◌ (nth_char digits (n % 10) "0") rest in
    let more = decimal_from fuel (n / 10) here in if eqb (n / 10) 0 then here else more

-- `str` of a natural number: it has fewer digits than its successor
unfoldable pub decimal : ℕ → String
unfolding decimal_from
decimal n = decimal_from (suc n) n ""

pub data ℤ : Type 0 where
  pos : ℕ → ℤ
  negsuc : ℕ → ℤ

unfoldable pub show_int : ℤ → String
unfolding decimal
show_int (pos n) = decimal n
show_int (negsuc n) = "-" <> decimal (suc n)

-- Digits, with a single underscore between two of them where there is one.
read_digits : ℕ → Bool → List ℕ → Option ℕ
read_digits acc after_digit [] = if after_digit then some acc else none
read_digits acc after_digit (c ∷ s) =
    let as_digit = read_digits (acc * 10 + (c - b'0')) true s in
    let as_gap = read_digits acc false s in
    if is_digit c then as_digit else if eqb c b'_' && after_digit then as_gap else none

negated : Option ℕ → Option ℤ
negated none = none
negated (some zero) = some (pos 0)
negated (some (suc n)) = some (negsuc n)

positive : Option ℕ → Option ℤ
positive none = none
positive (some n) = some (pos n)

-- `int(text)` of a stripped text; `none` is its ValueError
unfoldable pub int_of_text : List ℕ → Option ℤ
unfolding read_digits negated positive
int_of_text [] = none
int_of_text (c ∷ s) =
    if eqb c b'-'
    then negated (read_digits 0 false s)
    else if eqb c b'+'
    then positive (read_digits 0 false s)
    else positive (read_digits 0 false (c ∷ s))

-- The digits that are left are fewer than the fuel, so that more fuel changes nothing.
decimal_from-enough :
    (fuel n : ℕ) (rest : String)
    → n < fuel
    → decimal_from fuel n rest ≡ decimal_from (suc fuel) n rest
unfolding decimal_from
decimal_from-enough zero n rest h = let no : ⊥ = omega arith in elim no [ ]
decimal_from-enough (suc fuel) n rest h =
    let here = String.◌∷◌ (nth_char digits (n % 10) "0") rest in
    elim (Bool-cases (eqb (n / 10) 0)) [
      | inl last ↦ rw last refl
      | inr more ↦
          (let fewer : n / 10 < fuel = ground arith in
            rw more (decimal_from-enough fuel (n / 10) here fewer))
    ]
