-- ===== src/Sandbox/Refs.antt =====
-- The grammar of `$ref` and `$lookup` row values: sandbox/engines/refs.py
pub mod Address
pub mod Rows
mod Tests
use text.Mathlib.Text.{◌==◌ as str_eq}
use goga_tool_pybuggy.Prelude.{
  ℕ, ◌+◌, ◌-◌, ◌*◌, suc, String, Bool, true, false, not, ◌&&◌, ◌||◌, Option, none, some, List, [],
  ◌∷◌, if◌then◌else◌, Result, ok, err, Done, ◌>>=◌, ◌>>◌, raise_if, leb, ◌==◌, any, all, is_empty,
}
use goga_tool_pybuggy.Prelude.Text.{Text, codes}
use goga_tool_pybuggy.Value
use goga_tool_pybuggy.Value.{
  Value, dict, str, null, Fields, Key, is_key, get, has, as_str, as_dict, as_list, entries,
  elements,
}

-- What one value is refused for.
pub data RefError : Type 0 where
  bad_address extra_ref_key extra_lookup_key lookup_not_mapping unknown_lookup_key : RefError
  lookup_table lookup_column lookup_where : RefError
  where_not_scalar : Key → RefError

pub data RowsError : Type 0 where
  rows_not_list : RowsError
  row_not_mapping : ℕ → RowsError
  in_row : ℕ → Key → RefError → RowsError

-- `address.split(".")`
abbrev pub prepend : ℕ → List Text → List Text
prepend c [] = (c ∷ []) ∷ []
prepend c (part ∷ parts) = (c ∷ part) ∷ parts

unfoldable pub split_dots : Text → List Text
split_dots [] = [] ∷ []
split_dots (c ∷ s) = let rest = split_dots s in if c == 46 then [] ∷ rest else prepend c rest

-- `[0-9]`, and `int(index)` of a text of these
abbrev pub is_digit : ℕ → Bool
is_digit c = leb 48 c && leb c 57

abbrev pub number_from : ℕ → Text → ℕ
number_from n [] = n
number_from n (c ∷ s) = number_from (n * 10 + (c - 48)) s

address_of : List Text → Option (Text × ℕ × Text)
address_of (table ∷ index ∷ column ∷ []) =
    if is_empty table || is_empty index || not (all is_digit index) || is_empty column
    then none
    else some (table, number_from 0 index, column)
address_of _ = none

-- `_ADDRESS_PATTERN` and the split: three parts without a dot, none of them empty, the second of
-- digits.
unfoldable pub parse_ref_address : Text → Option (Text × ℕ × Text)
unfolding split_dots address_of
parse_ref_address s = address_of (split_dots s)

unfoldable pub is_reference : Value → Bool
unfolding has
is_reference (dict d) = has "$ref" d || has "$lookup" d
is_reference _ = false

-- `set(d) == {name}`, for a `d` that has the key, and `not set(d) - names`
abbrev pub only_keys : List String → Fields → Bool
only_keys names d = all (λ e. any (λ n. is_key n e.0) names) (entries d)

check_address : Option String → Result RefError Done
check_address none = err bad_address
check_address (some s) = elim (parse_ref_address (codes s)) [
  | none ↦ err bad_address
  | some _ ↦ ok tt
]

unfoldable pub validate_ref : Fields → Result RefError Done
unfolding get check_address
validate_ref reference = do
  raise_if (not (only_keys ("$ref" ∷ []) reference)) extra_ref_key
  check_address (as_str (get "$ref" reference))

unfoldable pub is_scalar : Value → Bool
is_scalar (Value.list _) = false
is_scalar (dict _) = false
is_scalar _ = true

unfoldable pub scalars_loop : List (Key × Value) → Result RefError Done
unfolding is_scalar
scalars_loop [] = ok tt
scalars_loop ((key, condition) ∷ rest) =
    raise_if (not (is_scalar condition)) (where_not_scalar key) >> scalars_loop rest

-- `not isinstance(v, str) or not v`
abbrev pub no_text : Option Value → Bool
no_text v = elim (as_str v) [ none ↦ true | some s ↦ str_eq s "" ]

-- `column is not None and ...`
abbrev pub bad_column : Option Value → Bool
bad_column none = false
bad_column (some null) = false
bad_column (some v) = no_text (some v)

check_where : Option Fields → Result RefError Done
unfolding scalars_loop
check_where none = err lookup_where
check_where (some Value.end) = err lookup_where
check_where (some (Value.field k v rest)) = scalars_loop (entries (Value.field k v rest))

check_spec : Fields → Result RefError Done
unfolding get check_where
check_spec spec = do
  raise_if (not (only_keys ("table" ∷ "where" ∷ "column" ∷ []) spec)) unknown_lookup_key
  raise_if (no_text (get "table" spec)) lookup_table
  raise_if (bad_column (get "column" spec)) lookup_column
  check_where (as_dict (get "where" spec))

unfoldable pub validate_lookup : Option Value → Result RefError Done
unfolding check_spec
validate_lookup v = elim (as_dict v) [ none ↦ err lookup_not_mapping | some spec ↦ check_spec spec ]

unfoldable pub validate_reference : Fields → Result RefError Done
unfolding has get validate_ref validate_lookup
validate_reference reference =
    if has "$ref" reference
    then validate_ref reference
    else (raise_if (not (only_keys ("$lookup" ∷ []) reference)) extra_lookup_key
        >> validate_lookup (get "$lookup" reference))

unfoldable pub validate_value : Value → Result RefError Done
unfolding has validate_reference
validate_value (dict d) = if has "$ref" d || has "$lookup" d then validate_reference d else ok tt
validate_value _ = ok tt

pub in_column : ℕ → Key → Result RefError Done → Result RowsError Done
in_column position column (ok _) = ok tt
in_column position column (err e) = err (in_row position column e)

unfoldable pub columns_loop : ℕ → List (Key × Value) → Result RowsError Done
unfolding validate_value in_column
columns_loop position [] = ok tt
columns_loop position ((column, value) ∷ rest) =
    in_column position column (validate_value value) >> columns_loop position rest

unfoldable pub validate_row : ℕ → Value → Result RowsError Done
unfolding columns_loop
validate_row position row = elim (as_dict (some row)) [
  | none ↦ err (row_not_mapping position)
  | some d ↦ columns_loop position (entries d)
]

unfoldable pub rows_loop : ℕ → List Value → Result RowsError Done
unfolding validate_row
rows_loop position [] = ok tt
rows_loop position (row ∷ rows) = validate_row position row >> rows_loop (suc position) rows

unfoldable pub validate_insert_rows : Value → Result RowsError Done
unfolding rows_loop
validate_insert_rows rows = elim (as_list (some rows)) [
  | none ↦ err rows_not_list
  | some items ↦ rows_loop 0 (elements items)
]
