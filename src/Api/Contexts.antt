-- ===== src/Api/Contexts.antt =====
-- SearchItem and JsonFieldContext of api/asserts/contexts.py, and _search_is_jsonpath of
-- api/asserts/expect.py.
use goga_tool_pybuggy.Prelude.{
  ℕ, zero, suc, ◌-◌, ◌≡◌, Bool, Option, none, some, List, [], ◌∷◌, ◌++◌, Result, ok, err, ◌>>=◌,
  if◌then◌else◌, ◌==◌, ltb, length, any, map, ◌⊎◌,
}
use goga_tool_pybuggy.Prelude.Text.{Text, codes, eq_text, contains}
use goga_tool_pybuggy.Value.{ℤ, Value, Fields, Key, elements}
use goga_tool_pybuggy.Matchcrest.Python.{Raised, type_error, other}

pub record SearchItem : Type 0 where
  pub search : Option Text
  pub index : Option ℤ
  pub hook : Option (Value → Result Raised Value)

-- `search.split(".")`; `part` is what was read of the current part.
unfoldable pub split_from : Text → Text → List Text
split_from part [] = part ∷ []
split_from part (c ∷ s) = if c == 46 then part ∷ split_from [] s else split_from (part ++ c ∷ []) s

unfoldable pub split_dots : Text → List Text
unfolding split_from
split_dots s = split_from [] s

-- `d[key]`, a KeyError for a missing key
unfoldable pub item_of : Text → Fields → Result Raised Value
item_of key Fields.end = err (other "KeyError")
item_of key (Fields.field (Key.named k) v rest) =
    if eq_text (codes k) key then ok v else item_of key rest
item_of key (Fields.field (Key.scalar k) v rest) = item_of key rest

-- `current[key]`, a TypeError for what is no dict
unfoldable pub subscript : Text → Value → Result Raised Value
subscript key (Value.dict d) = item_of key d
subscript key _ = err type_error

-- `reduce(lambda current, key: current[key], keys, data)`
unfoldable pub descend_all : List Text → Value → Result Raised Value
descend_all [] current = ok current
descend_all (key ∷ keys) current = subscript key current >>= λ next. descend_all keys next

-- What the reading of a value raises: the AssertionError that names the search without a result, or
-- the exception of an index or of a hook.
pub data ReadError : Type 0 where
  no_results : Text → ReadError
  exception : Raised → ReadError

-- `except (KeyError, TypeError)`, the only exceptions of the descent
unfoldable pub found : Text → Result Raised Value → Result ReadError Value
found search (ok v) = ok v
found search (err e) = err (no_results search)

unfoldable pub search_in : Option Text → Value → Result ReadError Value
search_in none doc = ok doc
search_in (some search) doc = found search (descend_all (split_dots search) doc)

abbrev uncaught : Result Raised Value → Result ReadError Value
uncaught (ok v) = ok v
uncaught (err e) = err (exception e)

-- `data[index]`: a negative index counts from the end.
unfoldable pub nth : ℕ → List Value → Result Raised Value
nth n [] = err (other "IndexError")
nth zero (v ∷ vs) = ok v
nth (suc n) (v ∷ vs) = nth n vs

unfoldable pub at_index : ℤ → List Value → Result Raised Value
at_index (ℤ.pos n) vs = nth n vs
at_index (ℤ.negsuc n) vs =
    if ltb n (length vs) then nth (length vs - suc n) vs else err (other "IndexError")

-- A subscript by an int of what is neither a list nor a dict is a parameter: a text has it too.
module _ (subscript_other : Value → ℤ → Result Raised Value) where
  unfoldable pub index_in : Option ℤ → Value → Result Raised Value
  index_in none doc = ok doc
  index_in (some i) (Value.list l) = at_index i (elements l)
  index_in (some i) doc = subscript_other doc i

  unfoldable pub hook_on : Option (Value → Result Raised Value) → Value → Result Raised Value
  hook_on none doc = ok doc
  hook_on (some h) doc = h doc

  unfoldable pub step : SearchItem → Value → Result ReadError Value
  step item doc = do
    doc ← search_in item.search doc
    doc ← uncaught (index_in item.index doc)
    uncaught (hook_on item.hook doc)

  -- The property `value`, on the document of the response.
  unfoldable pub resolve : List SearchItem → Value → Result ReadError Value
  resolve [] doc = ok doc
  resolve (item ∷ history) doc = step item doc >>= λ next. resolve history next

-- Calling a context: one more step, in a new context.
unfoldable pub called : List SearchItem → SearchItem → List SearchItem
called history item = history ++ item ∷ []

-- The property `key`
unfoldable pub searches : List SearchItem → List Text
searches [] = []
searches (item ∷ history) = elim item.search [
  | none ↦ searches history
  | some s ↦ s ∷ searches history
]

unfoldable pub join_dots : List Text → Text
join_dots [] = []
join_dots (s ∷ []) = s
join_dots (s ∷ t ∷ rest) = s ++ 46 ∷ join_dots (t ∷ rest)

unfoldable pub context_key : List SearchItem → Text
context_key history = join_dots (searches history)

-- `_JSONPATH_CHARS`
abbrev pub jsonpath_chars : List Text
jsonpath_chars = map codes (
    "$" ∷ "[" ∷ "]" ∷ "*" ∷ "(" ∷ ")" ∷ ".." ∷ "{" ∷ "}" ∷ "|" ∷ ":" ∷ "?" ∷ "!" ∷ "&" ∷ "=" ∷ "<"
    ∷ ">" ∷ "~" ∷ [])

unfoldable pub search_is_jsonpath : Text → Bool
search_is_jsonpath search = any (λ chars. contains chars search) jsonpath_chars

-- A step that only searches.
abbrev pub by_search : Text → SearchItem
by_search path = record { search = some path; index = none; hook = none }

module _ (subscript_other : Value → ℤ → Result Raised Value) where
  -- Both reads give one value, or both fail, each naming a search of its own: the one in two steps the
  -- step that has no result, the other the whole path.
  abbrev pub Agree : Text → Text → Result ReadError Value → Result ReadError Value → Type 0
  Agree a b r r' =
      ((v : Value) × (r ≡ ok v) × (r' ≡ ok v))
      ⊎ ((part : Text) × ((part ≡ a) ⊎ (part ≡ b))
          × (r ≡ err (no_results part))
          × (r' ≡ err (no_results (a ++ 46 ∷ b))))
