-- ===== src/Api/Paths.antt =====
-- Api._resolve_params and Api._substitute_path_params of api/api.py
use goga_tool_pybuggy.Prelude.{
  ℕ, zero, suc, ◌-◌, Bool, true, false, not, ◌&&◌, ◌||◌, Option, none, some, List, [], ◌∷◌, ◌++◌,
  if◌then◌else◌, ◌==◌, leb, length, drop, keep, is_empty,
}
use goga_tool_pybuggy.Prelude.Text.{Text, starts_with}
use goga_tool_pybuggy.Prelude.Sort.{sort_by}
use goga_tool_pybuggy.Api.Web.{Web}
pub mod Tokens
pub mod Rendered

-- `params` of a call: a pydantic model, or a mapping; no parameters are `None`.
pub data Params (Model Object : Type 0) : Type 0 where
  model : Model → Params Model Object
  fields : List (Text × Object) → Params Model Object

-- `key.startswith(":")`
unfoldable pub is_path_param : {V : Type 0} → Text × V → Bool
is_path_param (key, v) = starts_with key (58 ∷ [])

-- `sorted(..., key=len, reverse=True)`
abbrev pub longer_first : {V : Type 0} → Text × V → Text × V → Bool
longer_first (j, v) (k, w) = leb (length k) (length j)

module _ (web : Web) where
  open web use {Object, Model, show, is_word}

  unfoldable pub resolve_params : Option (Params Model Object) → Bool → List (Text × Object)
  resolve_params none use_aliases = []
  resolve_params (some (model m)) use_aliases = web.dump_params m use_aliases
  resolve_params (some (fields params)) use_aliases = params

  abbrev pub begins_word : Text → Bool
  begins_word [] = false
  begins_word (c ∷ s) = is_word c

  -- `(?!\w|-\w)` before the text
  unfoldable pub token_ends : Text → Bool
  token_ends [] = true
  token_ends (c ∷ s) = not (is_word c || c == 45 && begins_word s)

  -- The alternative of the pattern that matches at the head of the text, with its value.
  unfoldable pub match_name : List (Text × Object) → Text → Option (Text × Object)
  match_name [] s = none
  match_name ((name, v) ∷ names) s =
      if starts_with s name && token_ends (drop (length name) s)
      then some (name, v)
      else match_name names s

  -- `pattern.sub(_replace, url_path)`, with `skip` characters of a match still to pass.
  unfoldable pub sub_from : List (Text × Object) → ℕ → Text → Text
  sub_from names skip [] = []
  sub_from names (suc skip) (c ∷ s) = sub_from names skip s
  sub_from names zero (c ∷ s) = elim (match_name names (c ∷ s)) [
    | none ↦ c ∷ sub_from names zero s
    | some (name, v) ↦ show v ++ sub_from names (length name - 1) s
  ]

  unfoldable pub path_names : List (Text × Object) → List (Text × Object)
  path_names params = sort_by longer_first (keep is_path_param params)

  -- The path, and what is left of the parameters.
  unfoldable pub substitute_path_params : Text → List (Text × Object) → Text × List (Text × Object)
  substitute_path_params url_path params =
      let names = path_names params in
      if is_empty names
      then (url_path, params)
      else (sub_from names 0 url_path, keep (λ e. not (is_path_param e)) params)
