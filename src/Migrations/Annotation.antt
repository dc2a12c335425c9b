-- ===== src/Migrations/Annotation.antt =====
-- ANNOTATION_GRAMMAR and _annotation_token of sandbox/migrations/goose.py
use goga_tool_pybuggy.Prelude.{
  ◌≡◌, refl, Option, none, some, [], ◌∷◌, ◌==◌, if◌then◌else◌, is_empty, any, drop,
}
use goga_tool_pybuggy.Prelude.Text.{Text, codes, is_space, starts_with, lstrip, strip}

-- The group `(.+?)` of a text that ends in no white space: all that is left behind `\s+`.
token_group : Text → Option Text
token_group t = if is_empty t then none else if any (λ c. c == 10) t then none else some t

-- `\s+(.+?)\s*$`
behind_goose : Text → Option Text
unfolding token_group
behind_goose [] = none
behind_goose (c ∷ s) = if is_space c then token_group (lstrip s) else none

-- `\s*\+goose` and what follows
behind_dashes : Text → Option Text
unfolding behind_goose
behind_dashes s =
    if starts_with (lstrip s) (codes "+goose") then behind_goose (drop 6 (lstrip s)) else none

-- `^--\s*\+goose\s+(.+?)\s*$` on the stripped line
unfoldable pub annotation_token : Text → Option Text
unfolding behind_dashes is_space starts_with lstrip strip
annotation_token line =
    let stripped = strip line in
    if starts_with stripped (codes "--") then behind_dashes (drop 2 stripped) else none

annotation_token_runs :
    annotation_token (codes "  --  +goose  NO TRANSACTION ") ≡ some (codes "NO TRANSACTION")
unfolding annotation_token
annotation_token_runs = refl

annotation_token_plain : annotation_token (codes "-- +goose ") ≡ none
unfolding annotation_token
annotation_token_plain = refl
