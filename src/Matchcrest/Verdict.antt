-- ===== src/Matchcrest/Verdict.antt =====
-- MatchResult and BaseContext of matchcrest/matchers/base.py
use goga_tool_pybuggy.Prelude.{Bool, true, false, List, [], ◌∷◌, Result, ok, err}
use goga_tool_pybuggy.Prelude.Text.{Text}
use goga_tool_pybuggy.Matchcrest.Python.{Raised, assertion_error}

-- What an error message says of the values it shows.
pub data Mismatch (Object : Type 0) : Type 0 where
  not_in is_in not_same same differs equals smaller greater : Object → Mismatch Object
  wrong_length invalid_url no_match not_dict not_text not_suffix not_prefix :
      Object → Mismatch Object
  not_empty empty not_date not_subset no_intersection not_disjoint : Object → Mismatch Object
  unknown : Mismatch Object
  key_differs : Object → Object → Mismatch Object

-- A result, with the errors and the key that its expectation names.
pub data MatchResult (E : Type 0) : Type 0 where
  passed : MatchResult E
  failed : List E → Text → MatchResult E

module _ {E : Type 0} where
  abbrev pub is_passed : MatchResult E → Bool
  is_passed passed = true
  is_passed (failed errors key) = false

  -- `MatchResult(result, errors=errors, expectations=[...])`: the constructor asserts that a
  -- negative result has errors; every call gives one expectation.
  unfoldable pub match_result : Bool → List E → Text → Result Raised (MatchResult E)
  match_result true errors key = ok passed
  match_result false [] key = err assertion_error
  match_result false (e ∷ errors) key = ok (failed (e ∷ errors) key)

-- `item.key` and `item.value`
pub record Context (Object : Type 0) : Type 0 where
  pub key : Result Raised Text
  pub value : Result Raised Object
