-- ===== src/Api/Expect.antt =====
-- The class Expect of api/asserts/expect.py: the matcher that `has_header` makes and the context that
-- a call searches with.
use goga_tool_pybuggy.Prelude.{
  ℕ, Bool, false, Option, none, some, List, [], ◌∷◌, Result, ok, err, if◌then◌else◌,
}
use goga_tool_pybuggy.Prelude.Text.{Text}
use goga_tool_pybuggy.Matchcrest.Python.{Raised, value_error}
use goga_tool_pybuggy.Matchcrest.Responses.{
  Outcome, Header, Matching, assert_header_value, assert_header_key,
}
use goga_tool_pybuggy.Api.Contexts.{SearchItem, search_is_jsonpath}

-- The two matchers of headers, with their options.
pub data HeaderMatcher : Type 0 where
  by_key : Matching → Option ℕ → Text → HeaderMatcher
  by_value : Matching → Text → Text → HeaderMatcher

-- An option that is None is dropped, and its default is False.
abbrev pub or_false : Option Bool → Bool
or_false none = false
or_false (some b) = b

abbrev pub matching_of : Option Bool → Option Bool → Option Bool → Matching
matching_of contains startswith endswith = record {
  contains = or_false contains;
  startswith = or_false startswith;
  endswith = or_false endswith;
}

module _ (lower : Text → Text) where
  unfoldable pub header_matcher :
      Text → Option Text → Matching → Option ℕ → Result Raised HeaderMatcher
  header_matcher key none m count = ok (by_key m count (lower key))
  header_matcher key (some value) m none = ok (by_value m (lower key) value)
  header_matcher key (some value) m (some count) = err value_error

  unfoldable pub assert_headers : HeaderMatcher → Text → List Header → Outcome
  assert_headers (by_key m count key) url headers = assert_header_key lower m count key url headers
  assert_headers (by_value m key value) url headers = assert_header_value lower m key value headers

-- The context of a field: a jsonpath, or a dotted path.
pub data FieldContext : Type 0 where
  json_path_context json_context : List SearchItem → FieldContext

unfoldable pub context_of : SearchItem → FieldContext
context_of item = elim item.search [
  | none ↦ json_path_context (item ∷ [])
  | some search ↦
      if search_is_jsonpath search then json_path_context (item ∷ []) else json_context (item ∷ [])
]
