-- ===== src/Base/Json.antt =====
-- The values that `json.loads` makes, as Python reads them. The keys of an object are distinct, as
-- those of a `dict` are, and stand in their order. A float carries what the code asks of it.
use Prim.Native.Nat.{zero, suc}
use mathlib.Core.Bool.{Bool, true, false, not}
use mathlib.Core.List.{List, [], ◌∷◌}
use mathlib.Core.Option.{Option, none, some}
use Prim.Native.String.{String}
use text.Mathlib.Text.{◌==◌}
use dfir_evidence_workbench.Base.Tests.{if◌then◌else◌}
use dfir_evidence_workbench.Base.Strings.{ℤ, pos, negsuc, show_int, strip}

pub record Float : Type 0 where
  -- its `str`
  pub shown : String
  -- its `int`; `none` for the values that have none
  pub truncated : Option ℤ
  pub is_zero : Bool

mutual
  pub data Json : Type 0 where
    null : Json
    boolean : Bool → Json
    integer : ℤ → Json
    float : Float → Json
    str : String → Json
    array : Items → Json
    object : Fields → Json

  pub data Items : Type 0 where
    nil : Items
    cons : Json → Items → Items

  pub data Fields : Type 0 where
    end : Fields
    field : String → Json → Fields → Fields

-- `d.get(key)`: `null` stands for Python's `None`, which is also what a missing key gives.
unfoldable pub value : Fields → String → Json
value end k = null
value (field j v fs) k = if j == k then v else value fs k

-- `key in d`
unfoldable pub has_key : Fields → String → Bool
has_key end k = false
has_key (field j v fs) k = if j == k then true else has_key fs k

-- `d[key] = v`
unfoldable pub assign : Fields → String → Json → Fields
assign end k v = field k v end
assign (field j w fs) k v = if j == k then field j v fs else field j w (assign fs k v)

-- `bool(v)`
unfoldable pub truthy : Json → Bool
truthy null = false
truthy (boolean b) = b
truthy (integer (pos n)) = elim n [ zero ↦ false | suc m ↦ true ]
truthy (integer (negsuc n)) = true
truthy (float f) = not f.is_zero
truthy (str s) = not (s == "")
truthy (array nil) = false
truthy (array (cons v vs)) = true
truthy (object end) = false
truthy (object (field k v fs)) = true

-- `a or b`
infixr 30 ◌or◌
abbrev pub ◌or◌ : Json → Json → Json
a or b = if truthy a then a else b

abbrev pub is_null : Json → Bool
is_null null = true
is_null v = false

-- `str(v)`, with the `repr` of lists and dicts as an argument
unfoldable pub show : (Json → String) → Json → String
show repr null = "None"
show repr (boolean true) = "True"
show repr (boolean false) = "False"
show repr (integer n) = show_int n
show repr (float f) = f.shown
show repr (str s) = s
show repr (array vs) = repr (array vs)
show repr (object fs) = repr (object fs)

abbrev some_text : String → Option String
some_text s = if s == "" then none else some s

-- `_safe_str` of both vendor adapters
unfoldable pub safe_str : (Json → String) → Json → Option String
safe_str repr null = none
safe_str repr v = some_text (strip (show repr v))

unfoldable pub keep_fields : (String → Bool) → Fields → Fields
keep_fields test end = end
keep_fields test (field k v fs) =
    let rest = keep_fields test fs in if test k then field k v rest else rest

-- `isinstance(v, dict)`
abbrev pub as_object : Json → Option Fields
as_object (object fs) = some fs
as_object v = none

abbrev pub texts : List String → Items
texts [] = nil
texts (s ∷ ss) = cons (str s) (texts ss)
