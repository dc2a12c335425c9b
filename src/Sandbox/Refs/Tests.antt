-- ===== src/Sandbox/Refs/Tests.antt =====
-- Runs of the reference grammar: sandbox/engines/refs.py
use goga_tool_pybuggy.Prelude.{◌≡◌, refl, [], ◌∷◌, ◌++◌, none, false, All}
use goga_tool_pybuggy.Prelude.Text.{Text, codes}
use goga_tool_pybuggy.Value
use goga_tool_pybuggy.Value.{Value, Items, Fields, elements}
use goga_tool_pybuggy.Sandbox.Refs.{parse_ref_address, validate_insert_rows}
use goga_tool_pybuggy.Sandbox.Refs.Address.{Parts, has_dot, parse_ref_address-Parts}
use goga_tool_pybuggy.Sandbox.Refs.Rows.{Row, validate_insert_rows-Row}

parse_ref_address-Parts_example :
    (digits : Text) × (codes "users.12.id" ≡ codes "users" ++ 46 ∷ (digits ++ 46 ∷ codes "id"))
    × Parts (codes "users") digits (codes "id") 12
    × (has_dot (codes "users") ≡ false)
    × (has_dot (codes "id") ≡ false)
unfolding parse_ref_address
parse_ref_address-Parts_example =
    parse_ref_address-Parts (codes "users.12.id") (codes "users") (codes "id") 12 refl

four_parts : parse_ref_address (codes "a.1.b.c") ≡ none
unfolding parse_ref_address
four_parts = refl

abbrev reference : Fields
reference = Value.field (Value.named "$ref") (Value.str "users.0.id") Value.end

abbrev specification : Fields
specification = Value.field (Value.named "table") (Value.str "users") (
    Value.field (Value.named "where")
      (Value.dict (Value.field (Value.named "email") (Value.str "a@b") Value.end)) Value.end)

abbrev row : Value
row = Value.dict (
    Value.field (Value.named "user_id") (Value.dict reference) (
      Value.field (Value.named "owner_id")
        (Value.dict (Value.field (Value.named "$lookup") (Value.dict specification) Value.end))
        Value.end))

validate_insert_rows-Row_example : All Row (row ∷ [])
unfolding validate_insert_rows parse_ref_address
validate_insert_rows-Row_example = validate_insert_rows-Row (Value.cons row Value.nil) refl
