-- ===== src/Value.antt =====
-- Plain Python data, as a parsed YAML or JSON document holds it.
use text.Mathlib.Text.{◌==◌ as str_eq}
use goga_tool_pybuggy.Prelude.{
  ℕ, String, Bool, true, false, Option, none, some, List, [], ◌∷◌, if◌then◌else◌,
}

-- `negsuc n` is -(n + 1).
pub data ℤ : Type 0 where
  pos : ℕ → ℤ
  negsuc : ℕ → ℤ

-- A mapping's key: a text, or any other scalar by its `str()`, which no text literal equals.
pub data Key : Type 0 where
  named : String → Key
  scalar : String → Key

-- A float stands by its `repr`.
mutual
  pub data Value : Type 0 where
    null : Value
    bool : Bool → Value
    int : ℤ → Value
    float : String → Value
    str : String → Value
    list : Items → Value
    dict : Fields → Value

  pub data Items : Type 0 where
    nil : Items
    cons : Value → Items → Items

  pub data Fields : Type 0 where
    end : Fields
    field : Key → Value → Fields → Fields

abbrev pub key_text : Key → String
key_text (named s) = s
key_text (scalar s) = s

abbrev pub is_key : String → Key → Bool
is_key name (named s) = str_eq s name
is_key name (scalar s) = false

-- `d.get(name)` and `name in d`, for a text literal or a text variable
unfoldable pub get : String → Fields → Option Value
get name end = none
get name (field k v rest) = if is_key name k then some v else get name rest

unfoldable pub has : String → Fields → Bool
unfolding get
has name d = elim (get name d) [ none ↦ false | some _ ↦ true ]

-- `{k: v for k, v in d.items() if k != name}`
unfoldable pub without : String → Fields → Fields
without name end = end
without name (field k v rest) =
    if is_key name k then without name rest else field k v (without name rest)

abbrev pub elements : Items → List Value
elements nil = []
elements (cons v vs) = v ∷ elements vs

abbrev pub entries : Fields → List (Key × Value)
entries end = []
entries (field k v rest) = (k, v) ∷ entries rest

-- `isinstance(v, str)` and the like; a bool is an int too.
abbrev pub as_str : Option Value → Option String
as_str (some (str s)) = some s
as_str _ = none

abbrev pub as_dict : Option Value → Option Fields
as_dict (some (dict d)) = some d
as_dict _ = none

abbrev pub as_list : Option Value → Option Items
as_list (some (list l)) = some l
as_list _ = none
