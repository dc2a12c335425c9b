-- ===== src/Config/Placeholders.antt =====
-- The placeholders in the env of the instance: `_PLACEHOLDER`, `_PLACEHOLDER_ATTRIBUTE` and
-- `_validate_placeholders` of sandbox/config/loader.py
pub mod Pieces
use goga_tool_pybuggy.Prelude.{
  ℕ, zero, suc, ◌+◌, String, Bool, true, false, not, ◌&&◌, ◌||◌, Option, none, some, List, [], ◌∷◌,
  ◌++◌, if◌then◌else◌, Result, ok, err, Done, ◌>>=◌, ◌>>◌, raise_if, ◌==◌, any, is_empty, length,
  drop,
}
use goga_tool_pybuggy.Prelude.Text.{Text, codes, eq_text, starts_with, contains, is_space, strip}
use goga_tool_pybuggy.Prelude.Dict.{Dict, keys}

-- What is wrong with the value of an env key; the texts are the token or the service's name.
pub data PlaceholderError : Type 0 where
  template_syntax unterminated : String → PlaceholderError
  bad_token unknown_service : String → Text → PlaceholderError

-- `[^{}]*` from the front
unfoldable pub body_of : Text → Text
body_of [] = []
body_of (c ∷ s) = if c == 123 || c == 125 then [] else c ∷ body_of s

-- The match of the pattern at the front: the text between the braces, which holds no brace.
unfoldable pub match_at : Text → Option Text
unfolding starts_with body_of
match_at s =
    let body = body_of (drop 2 s) in
    if starts_with s (codes "{{")
      && (not (is_empty body) && starts_with (drop (length body) (drop 2 s)) (codes "}}"))
    then some body
    else none

-- A value as the pattern cuts it: a character outside every match, or a match.
pub data Piece : Type 0 where
  plain : ℕ → Piece
  placeholder : Text → Piece

-- The search from left to right, without overlap; `skip` characters belong to the last match.
unfoldable pub pieces_from : ℕ → Text → List Piece
unfolding match_at
pieces_from skip [] = []
pieces_from (suc skip) (c ∷ s) = pieces_from skip s
pieces_from zero (c ∷ s) = elim (match_at (c ∷ s)) [
  | none ↦ plain c ∷ pieces_from 0 s
  | some body ↦ placeholder body ∷ pieces_from (length body + 3) s
]

-- The captured group: leading blanks go to the first `\s*` as far as one character stays, trailing
-- ones to the second.
unfoldable pub token_of : Text → Text
unfolding strip
token_of [] = []
token_of (c ∷ []) = c ∷ []
token_of (c ∷ d ∷ s) =
    let rest = token_of (d ∷ s) in if is_empty (strip (c ∷ d ∷ s)) then rest else strip (c ∷ d ∷ s)

-- `findall`, and `sub("", value)`
unfoldable pub tokens : List Piece → List Text
unfolding token_of
tokens [] = []
tokens (plain c ∷ pieces) = tokens pieces
tokens (placeholder body ∷ pieces) = token_of body ∷ tokens pieces

unfoldable pub outside : List Piece → Text
outside [] = []
outside (plain c ∷ pieces) = c ∷ outside pieces
outside (placeholder body ∷ pieces) = outside pieces

-- `[^.\s]+` up to the first dot, and the attribute behind it.
unfoldable pub name_and_attribute : Text → Option (Text × Text)
unfolding is_space
name_and_attribute [] = none
name_and_attribute (c ∷ s) = elim (c == 46) [
  | true ↦ some ([], s)
  | false ↦ elim (is_space c) [
    | true ↦ none
    | false ↦ elim (name_and_attribute s) [ none ↦ none | some p ↦ some (c ∷ p.0, p.1) ]
  ]
]

-- The pattern's `$` would let a final line feed pass, but behind a name a token ends in none.
unfoldable pub service_of : Text → Option Text
unfolding name_and_attribute eq_text
service_of token = elim (name_and_attribute token) [
  | none ↦ none
  | some p ↦
      if not (is_empty p.0) && (eq_text p.1 (codes "host") || eq_text p.1 (codes "port"))
      then some p.0
      else none
]

abbrev pub is_configured : List String → Text → Bool
is_configured configured name = any (λ k. eq_text (codes k) name) configured

module _ (configured : List String) where
  check_token : String → Text → Result PlaceholderError Done
  unfolding service_of eq_text
  check_token key token = elim (service_of token) [
    | none ↦ err (bad_token key token)
    | some name ↦ raise_if (not (is_configured configured name)) (unknown_service key name)
  ]

  unfoldable pub tokens_loop : String → List Text → Result PlaceholderError Done
  unfolding check_token
  tokens_loop key [] = ok tt
  tokens_loop key (token ∷ rest) = check_token key token >> tokens_loop key rest

  unfoldable pub validate_env_value : String → Text → Result PlaceholderError Done
  unfolding contains pieces_from outside tokens tokens_loop
  validate_env_value key value = do
    raise_if (contains (codes "{%") value || contains (codes "{#") value) (template_syntax key)
    raise_if (contains (codes "{{") (outside (pieces_from 0 value))) (unterminated key)
    tokens_loop key (tokens (pieces_from 0 value))

  unfoldable pub validate_placeholders : Dict String → Result PlaceholderError Done
  unfolding validate_env_value
  validate_placeholders [] = ok tt
  validate_placeholders ((key, value) ∷ env) =
      validate_env_value key (codes value) >> validate_placeholders env
