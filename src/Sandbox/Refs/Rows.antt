-- ===== src/Sandbox/Refs/Rows.antt =====
-- The rows that `validate_insert_rows` of sandbox/engines/refs.py accepts.
use goga_tool_pybuggy.Prelude.{
  ℕ, suc, String, ◌≡◌, ◌≢◌, refl, Bool, true, false, not, ◌||◌, Option, none, some, List, [], ◌∷◌,
  Result, ok, err, Done, raise_if, >>=-eq-ok, raise_if-eq-ok, arith, All, ◌⊎◌, inl, inr,
  Option-cases, Bool-cases,
}
use goga_tool_pybuggy.Prelude.Text.{codes}
use goga_tool_pybuggy.Value.{
  Value, Items, Fields, Key, get, has, entries, elements, as_str, as_dict,
}
use goga_tool_pybuggy.Value
use goga_tool_pybuggy.Sandbox.Refs.{
  RefError, only_keys, parse_ref_address, is_scalar, scalars_loop, no_text, bad_column,
  check_address, check_where, check_spec, validate_ref, validate_lookup, validate_reference,
  is_reference, validate_value, in_column, columns_loop, validate_row, rows_loop,
  validate_insert_rows,
}

-- A value `{"$ref": "table.index.column"}`.
abbrev pub Ref : Fields → Type 0
Ref d =
    (only_keys ("$ref" ∷ []) d ≡ true)
    × (address : String) × (get "$ref" d ≡ some (Value.str address))
    × (parse_ref_address (codes address) ≢ none)

-- The specification of a `$lookup`: a table, a condition on some columns, and possibly a column.
abbrev pub Specification : Fields → Type 0
Specification spec =
    (only_keys ("table" ∷ "where" ∷ "column" ∷ []) spec ≡ true)
    × (no_text (get "table" spec) ≡ false)
    × (bad_column (get "column" spec) ≡ false)
    × (condition : Fields) × (get "where" spec ≡ some (Value.dict condition))
    × (condition ≢ Value.end)
    × All (λ e. is_scalar e.1 ≡ true) (entries condition)

abbrev pub Lookup : Fields → Type 0
Lookup d =
    (only_keys ("$lookup" ∷ []) d ≡ true)
    × (spec : Fields) × (get "$lookup" d ≡ some (Value.dict spec))
    × Specification spec

abbrev pub RowValue : Value → Type 0
RowValue v = (is_reference v ≡ false) ⊎ ((d : Fields) × (v ≡ Value.dict d) × (Ref d ⊎ Lookup d))

abbrev pub Row : Value → Type 0
Row row = (d : Fields) × (row ≡ Value.dict d) × All (λ e. RowValue e.1) (entries d)

not-eq-false : (b : Bool) → not b ≡ false → b ≡ true
not-eq-false b h = ground arith

as_dict-eq : (v : Option Value) {d : Fields} → as_dict v ≡ some d → v ≡ some (Value.dict d)
as_dict-eq (some (Value.dict d)) h = ground arith
as_dict-eq none h = cc
as_dict-eq (some Value.null) h = cc
as_dict-eq (some (Value.bool _)) h = cc
as_dict-eq (some (Value.int _)) h = cc
as_dict-eq (some (Value.str _)) h = cc
as_dict-eq (some (Value.float _)) h = cc
as_dict-eq (some (Value.list _)) h = cc

check_address-str :
    (v : Option Value) {u : Done}
    → check_address (as_str v) ≡ ok u
    → (address : String) × (v ≡ some (Value.str address))
      × (parse_ref_address (codes address) ≢ none)
unfolding check_address
check_address-str (some (Value.str s)) h = (s, refl, λ bad. absurd (ground arith))
check_address-str none h = absurd (ground arith)
check_address-str (some Value.null) h = absurd (ground arith)
check_address-str (some (Value.bool _)) h = absurd (ground arith)
check_address-str (some (Value.int _)) h = absurd (ground arith)
check_address-str (some (Value.dict _)) h = absurd (ground arith)
check_address-str (some (Value.float _)) h = absurd (ground arith)
check_address-str (some (Value.list _)) h = absurd (ground arith)

validate_ref-Ref : (d : Fields) {u : Done} → validate_ref d ≡ ok u → Ref d
unfolding validate_ref
validate_ref-Ref d h =
    let keys = only_keys ("$ref" ∷ []) d in
    let (_, k, h') = >>=-eq-ok (raise_if (not keys) RefError.extra_ref_key) _ h in
    let (address, e, good) = check_address-str (get "$ref" d) h' in
    (not-eq-false keys (raise_if-eq-ok (not keys) _ k), address, e, good)

scalars_loop-All :
    (conditions : List (Key × Value)) {u : Done}
    → scalars_loop conditions ≡ ok u
    → All (λ e. is_scalar e.1 ≡ true) conditions
unfolding scalars_loop
scalars_loop-All [] h = tt
scalars_loop-All ((key, v) ∷ rest) h =
    let (_, k, h') = >>=-eq-ok (raise_if (not (is_scalar v)) (RefError.where_not_scalar key)) _ h in
    (not-eq-false (is_scalar v) (raise_if-eq-ok (not (is_scalar v)) _ k), scalars_loop-All rest h')

check_where-All :
    (v : Option Value) {u : Done}
    → check_where (as_dict v) ≡ ok u
    → (condition : Fields) × (v ≡ some (Value.dict condition))
      × (condition ≢ Value.end)
      × All (λ e. is_scalar e.1 ≡ true) (entries condition)
check_where-All v h = elim (Option-cases (as_dict v)) [
  | inl missing ↦ absurd (unfold check_where in ground arith)
  | inr (Value.end, e) ↦ absurd (unfold check_where in ground arith)
  | inr (Value.field k w rest, e) ↦ (
    Value.field k w rest,
    as_dict-eq v e,
    (λ z. cc),
    scalars_loop-All (entries (Value.field k w rest)) {u = tt} (unfold check_where in ground arith),
  )
]

check_spec-Specification : (spec : Fields) {u : Done} → check_spec spec ≡ ok u → Specification spec
unfolding check_spec
check_spec-Specification spec h =
    let keys = only_keys ("table" ∷ "where" ∷ "column" ∷ []) spec in
    let (_, k, h₁) = >>=-eq-ok (raise_if (not keys) RefError.unknown_lookup_key) _ h in
    let (_, t, h₂) = >>=-eq-ok (raise_if (no_text (get "table" spec)) RefError.lookup_table) _ h₁ in
    let (_, c, h₃) =
      >>=-eq-ok (raise_if (bad_column (get "column" spec)) RefError.lookup_column) _ h₂ in
    let (condition, e, some_key, scalars) = check_where-All (get "where" spec) h₃ in
    (
      not-eq-false keys (raise_if-eq-ok (not keys) _ k),
      raise_if-eq-ok (no_text (get "table" spec)) _ t,
      raise_if-eq-ok (bad_column (get "column" spec)) _ c,
      condition,
      e,
      some_key,
      scalars,
    )

validate_lookup-Specification :
    (v : Option Value) {u : Done}
    → validate_lookup v ≡ ok u
    → (spec : Fields) × (v ≡ some (Value.dict spec)) × Specification spec
unfolding validate_lookup
validate_lookup-Specification v h = elim (Option-cases (as_dict v)) [
  | inl missing ↦ absurd (ground arith)
  | inr (spec, e) ↦ (spec, as_dict-eq v e, check_spec-Specification spec {u = tt} (ground arith))
]

validate_reference-Ref : (d : Fields) {u : Done} → validate_reference d ≡ ok u → Ref d ⊎ Lookup d
unfolding validate_reference
validate_reference-Ref d h = elim (Bool-cases (has "$ref" d)) [
  | inl ref ↦ inl (validate_ref-Ref d {u = tt} (ground arith))
  | inr other ↦
      let keys = only_keys ("$lookup" ∷ []) d in
      let (_, k, h') =
        >>=-eq-ok (raise_if (not keys) RefError.extra_lookup_key)
          (λ _. validate_lookup (get "$lookup" d)) {b = tt} (ground arith) in
      let (spec, e, valid) = validate_lookup-Specification (get "$lookup" d) h' in
      inr (not-eq-false keys (raise_if-eq-ok (not keys) _ k), spec, e, valid)
]

validate_value-RowValue : (v : Value) {u : Done} → validate_value v ≡ ok u → RowValue v
unfolding validate_value is_reference
validate_value-RowValue (Value.dict d) h = elim (Bool-cases (has "$ref" d || has "$lookup" d)) [
  | inl reference ↦ inr (d, refl, validate_reference-Ref d {u = tt} (ground arith))
  | inr plain ↦ inl plain
]
validate_value-RowValue Value.null h = inl refl
validate_value-RowValue (Value.bool _) h = inl refl
validate_value-RowValue (Value.int _) h = inl refl
validate_value-RowValue (Value.float _) h = inl refl
validate_value-RowValue (Value.str _) h = inl refl
validate_value-RowValue (Value.list _) h = inl refl

in_column-eq-ok :
    (position : ℕ) (column : Key) (r : Result RefError Done) {u : Done}
    → in_column position column r ≡ ok u
    → r ≡ ok tt
unfolding in_column
in_column-eq-ok position column (ok _) h = refl
in_column-eq-ok position column (err e) h = cc

columns_loop-RowValue :
    (position : ℕ) (columns : List (Key × Value)) {u : Done}
    → columns_loop position columns ≡ ok u
    → All (λ e. RowValue e.1) columns
unfolding columns_loop
columns_loop-RowValue position [] h = tt
columns_loop-RowValue position ((column, v) ∷ rest) h =
    let (_, c, h') = >>=-eq-ok (in_column position column (validate_value v)) _ h in
    (
      validate_value-RowValue v (in_column-eq-ok position column (validate_value v) c),
      columns_loop-RowValue position rest h',
    )

validate_row-Row :
    (position : ℕ) (row : Value) {u : Done} → validate_row position row ≡ ok u → Row row
unfolding validate_row
validate_row-Row position (Value.dict d) h = (d, refl, columns_loop-RowValue position (entries d) h)
validate_row-Row position Value.null h = absurd (ground arith)
validate_row-Row position (Value.bool _) h = absurd (ground arith)
validate_row-Row position (Value.int _) h = absurd (ground arith)
validate_row-Row position (Value.float _) h = absurd (ground arith)
validate_row-Row position (Value.str _) h = absurd (ground arith)
validate_row-Row position (Value.list _) h = absurd (ground arith)

rows_loop-Row : (position : ℕ) (rows : List Value) → rows_loop position rows ≡ ok tt → All Row rows
unfolding rows_loop
rows_loop-Row position [] h = tt
rows_loop-Row position (row ∷ rows) h =
    let (_, r, h') = >>=-eq-ok (validate_row position row) _ h in
    (validate_row-Row position row r, rows_loop-Row (suc position) rows h')

-- Insert rows that pass are mappings in which every value is either no reference, or a `$ref`
-- alone with a well-formed address, or a `$lookup` alone whose specification has a table, a
-- non-empty condition of scalars, possibly a column, and nothing else.
pub validate_insert_rows-Row :
    (rows : Items) → validate_insert_rows (Value.list rows) ≡ ok tt → All Row (elements rows)
unfolding validate_insert_rows
validate_insert_rows-Row rows h = rows_loop-Row 0 (elements rows) h
