-- ===== src/Matchcrest/Responses.antt =====
-- The matchers of a response in matchcrest/matchers/response.py and of an exception in
-- matchcrest/matchers/error.py. Of a message only what it is about is kept.
use goga_tool_pybuggy.Prelude.{
  ℕ, zero, suc, String, Bool, true, false, not, ◌&&◌, ◌||◌, Option, none, some, List, [], ◌∷◌, ◌++◌,
  Result, ok, err, Done, ◌>>=◌, ◌>>◌, raise_if, if◌then◌else◌, ◌==◌, length, is_empty, any, keep,
}
use goga_tool_pybuggy.Prelude.Text.{Text, codes, eq_text, starts_with, ends_with, contains}
use goga_tool_pybuggy.Value
use goga_tool_pybuggy.Value.{Value, Fields, Items, elements, get}
use goga_tool_pybuggy.Matchcrest.Python.{Raised, type_error, value_error}
use goga_tool_pybuggy.Matchcrest.Verdict.{MatchResult, passed, match_result}
use text.Mathlib.Text.{◌==◌ as str_eq}
pub mod Headers
pub mod Json

-- What an error message is about.
pub data Complaint : Type 0 where
  wrong_code wrong_body wrong_schema no_data has_data : Complaint
  no_header not_contained not_started not_ended not_equal wrong_count : Complaint
  no_key : String → Complaint
  not_raised wrong_exception was_raised : Complaint

abbrev pub Outcome : Type 0
Outcome = Result Raised (MatchResult Complaint)

-- The expected code of ResponseCodeMatcher: an int, a text, a member of an Enum, or anything else.
pub data Code : Type 0 where
  number : ℕ → Code
  named : Text → Code
  member : Code → Code
  other : Code

module _ (response_codes : Text → Option ℕ) where
  -- `requests.codes[name]`, which is None for an unknown name
  unfoldable pub code_by_name : Code → Result Raised ℕ
  code_by_name (number n) = ok n
  code_by_name (named s) = elim (response_codes s) [ none ↦ err value_error | some n ↦ ok n ]
  code_by_name (member c) = err value_error
  code_by_name other = err value_error

  -- The constructor: an Enum is taken apart once.
  unfoldable pub expected_code : Code → Result Raised ℕ
  unfolding code_by_name
  expected_code (member c) = code_by_name c
  expected_code c = code_by_name c

unfoldable pub assert_code : ℕ → Text → ℕ → Outcome
unfolding match_result
assert_code expected key actual = match_result (expected == actual) (wrong_code ∷ []) key

unfoldable pub assert_body : Text → Text → Text → Outcome
unfolding match_result
assert_body expected key actual =
    if eq_text actual expected
    then match_result true [] key
    else match_result false (wrong_body ∷ []) key

-- `jsonschema.validate`, whose ValidationError is caught, is a parameter.
unfoldable pub assert_schema :
    {Schema : Type 0} → (Value → Schema → Bool) → Schema → Text → Value → Outcome
unfolding match_result
assert_schema is_valid schema key value =
    if is_valid value schema
    then match_result true [] key
    else match_result false (wrong_schema ∷ []) key

-- `headers.items()`; `lower` is Python's `str.lower`.
abbrev pub Header : Type 0
Header = Text × Text

pub record Matching : Type 0 where
  pub contains : Bool
  pub startswith : Bool
  pub endswith : Bool

module _ (lower : Text → Text) where
  -- `next((... for k, v in headers.items() if k.lower() == key), None)`
  unfoldable pub first_header : Text → List Header → Option Header
  first_header key [] = none
  first_header key ((k, v) ∷ headers) =
      if eq_text (lower k) key then some (k, v) else first_header key headers

  abbrev pub complaint_if : Bool → Complaint → List Complaint
  complaint_if true c = c ∷ []
  complaint_if false c = []

  unfoldable pub value_errors : Matching → Text → Text → List Complaint
  unfolding contains starts_with ends_with
  value_errors m expected value =
      complaint_if (m.contains && not (contains expected value)) not_contained
      ++ complaint_if (m.startswith && not (starts_with value expected)) not_started
      ++ complaint_if (m.endswith && not (ends_with value expected)) not_ended

  -- The value of the header, in lower case, against the expected one in lower case.
  unfoldable pub judge_value : Matching → Text → Text → Outcome
  unfolding value_errors match_result
  judge_value m expected value =
      let errors = value_errors m expected value in
      if not (is_empty errors)
      then match_result false errors []
      else if m.contains || m.startswith || m.endswith
      then match_result true [] []
      else if not (eq_text value expected)
      then match_result false (not_equal ∷ []) []
      else match_result true [] []

  -- ResponseHeadersByValueMatcher; its key is compared with header names in lower case.
  unfoldable pub assert_header_value : Matching → Text → Text → List Header → Outcome
  unfolding first_header judge_value match_result
  assert_header_value m key expected headers = elim (first_header key headers) [
    | none ↦ match_result false (no_header ∷ []) []
    | some (k, v) ↦ judge_value m (lower expected) (lower v)
  ]

  abbrev pub keep_if : Bool → (Header → Bool) → List Header → List Header
  keep_if true test headers = keep test headers
  keep_if false test headers = headers

  unfoldable pub actual_headers : Matching → Text → List Header → List Header
  unfolding first_header contains starts_with ends_with
  actual_headers m expected headers =
      if not m.contains && not m.startswith && not m.endswith
      then elim (first_header expected headers) [ none ↦ [] | some h ↦ h ∷ [] ]
      else keep_if m.endswith (λ h. ends_with (lower h.0) expected)
          (keep_if m.startswith (λ h. starts_with (lower h.0) expected)
            (keep_if m.contains (λ h. contains expected (lower h.0)) headers))

  -- `self.count and (len(...) != self.count)`
  abbrev pub count_differs : Option ℕ → ℕ → Bool
  count_differs none n = false
  count_differs (some zero) n = false
  count_differs (some (suc k)) n = not (n == suc k)

  -- ResponseHeadersByKeyMatcher
  unfoldable pub assert_header_key : Matching → Option ℕ → Text → Text → List Header → Outcome
  unfolding actual_headers match_result
  assert_header_key m count expected key headers =
      let actual = actual_headers m (lower expected) headers in
      if is_empty actual
      then match_result false (no_header ∷ []) key
      else if count_differs count (length actual)
      then match_result false (wrong_count ∷ []) key
      else match_result true [] key

-- `item.value or {}`, and `{}` for what is no dict
abbrev pub as_fields : Value → Fields
as_fields (Value.dict d) = d
as_fields _ = Fields.end

-- `d.get(key) is None`
abbrev pub is_none : Option Value → Bool
is_none none = true
is_none (some Value.null) = true
is_none (some _) = false

unfoldable pub assert_has_data : String → Text → Value → Outcome
unfolding get match_result
assert_has_data name key value =
    if is_none (get name (as_fields value))
    then match_result false (no_data ∷ []) key
    else match_result true [] key

unfoldable pub assert_has_not_data : String → Text → Value → Outcome
unfolding get match_result
assert_has_not_data name key value =
    if not (is_none (get name (as_fields value)))
    then match_result false (has_data ∷ []) key
    else match_result true [] key

abbrev pub is_str : String → Value → Bool
is_str name (Value.str s) = str_eq s name
is_str name _ = false

-- `key in current` and then `current[key]`: `none` says that the key is not in. Only a dict has
-- an item under a text.
unfoldable pub descend : String → Value → Result Raised (Option Value)
unfolding get contains
descend name (Value.dict d) = ok (get name d)
descend name (Value.list l) = if any (is_str name) (elements l) then err type_error else ok none
descend name (Value.str s) = if contains (codes name) (codes s) then err type_error else ok none
descend name _ = err type_error

-- JsonContainsKeyMatcher, after the constructor made a list of a single key.
unfoldable pub contains_keys : List String → Text → Value → Outcome
unfolding descend match_result
contains_keys [] key current = match_result true [] key
contains_keys (name ∷ names) key current = descend name current >>= λ found. elim found [
  | none ↦ match_result false (no_key name ∷ []) key
  | some v ↦ contains_keys names key v
]

unfoldable pub assert_contains_key : List String → Text → Value → Outcome
unfolding contains_keys
assert_contains_key names key value = contains_keys names key (Value.dict (as_fields value))

-- RaisedExceptionMatcher and NotRaisedExceptionMatcher, for the exception that was raised.
unfoldable pub assert_raised :
    {Class Exc : Type 0} → (Exc → Class → Bool) → List Class → Option Exc → Text → Outcome
unfolding match_result
assert_raised is_instance expected none key = match_result false (not_raised ∷ []) key
assert_raised is_instance expected (some exc) key =
    if any (is_instance exc) expected
    then match_result true [] key
    else match_result false (wrong_exception ∷ []) key

unfoldable pub assert_not_raised : {Exc : Type 0} → Option Exc → Text → Outcome
unfolding match_result
assert_not_raised none key = match_result true [] key
assert_not_raised (some exc) key = match_result false (was_raised ∷ []) key
