-- ===== src/Api/Field/Checks.antt =====
-- The checks of AssertField in api/asserts/field.py that compare a value.
use goga_tool_pybuggy.Prelude.{ℕ, Bool, Option, some, List, Result, ok, err}
use goga_tool_pybuggy.Prelude.Text.{Text}
use goga_tool_pybuggy.Matchcrest.Python.{Python, Raised, Run, raised}
use goga_tool_pybuggy.Matchcrest.Values.{
  value_contains, value_not_contains, value_is_in, value_is_not_in, value_is_equal,
  value_is_not_equal, value_is_greater, value_is_lesser, value_length_equal, value_length_greater,
  value_length_lesser, value_is_url, value_regex, value_contains_dict, value_ends_with,
  value_starts_with, value_is_empty, value_is_not_empty, value_date_equal, value_date_greater,
  value_date_lesser, value_is_subset, value_is_intersect, value_is_disjoint,
}
use goga_tool_pybuggy.Api.Field.{Hamcrest, Item, Call, Field, check}

module _ (py : Python) (hamcrest : Hamcrest) (item : Item py) (fuel : ℕ) (field : Field) where
  open py use {Object}
  open item use {State}

  -- What a check gives: the field itself, for the next check.
  abbrev pub Checked : Type 0
  Checked = State → Option (Run State Field)

  unfoldable pub contains : Object → Call → Checked
  unfolding check
  contains value call = check py hamcrest item fuel field (value_contains value) call

  unfoldable pub not_contains : Object → Call → Checked
  unfolding check
  not_contains value call = check py hamcrest item fuel field (value_not_contains value) call

  unfoldable pub equal_to : Object → Bool → Call → Checked
  unfolding check
  equal_to value strict call = check py hamcrest item fuel field (value_is_equal strict value) call

  unfoldable pub not_equal_to : Object → Bool → Call → Checked
  unfolding check
  not_equal_to value strict call =
      check py hamcrest item fuel field (value_is_not_equal strict value) call

  unfoldable pub greater_than : Object → Bool → Call → Checked
  unfolding check
  greater_than value or_equal call =
      check py hamcrest item fuel field (value_is_greater or_equal value) call

  unfoldable pub lesser_than : Object → Bool → Call → Checked
  unfolding check
  lesser_than value or_equal call =
      check py hamcrest item fuel field (value_is_lesser or_equal value) call

  unfoldable pub has_length : Object → Call → Checked
  unfolding check
  has_length value call = check py hamcrest item fuel field (value_length_equal value) call

  unfoldable pub has_length_greater : Object → Call → Checked
  unfolding check
  has_length_greater value call =
      check py hamcrest item fuel field (value_length_greater value) call

  unfoldable pub has_length_lesser : Object → Call → Checked
  unfolding check
  has_length_lesser value call = check py hamcrest item fuel field (value_length_lesser value) call

  unfoldable pub is_url : Bool → Option (List Text) → Call → Checked
  unfolding check
  is_url is_live allowed_protocols call =
      check py hamcrest item fuel field (value_is_url is_live allowed_protocols) call

  -- `re.compile(pattern)` stands among the arguments, before the matcher is made.
  unfoldable pub match_regex :
      (Text → Result Raised (Object → Result Raised Bool)) → Text → Call → Checked
  unfolding check
  match_regex compile pattern call s = elim (compile pattern) [
    | err e ↦ some (raised e s)
    | ok match ↦ check py hamcrest item fuel field (value_regex match) call s
  ]

  unfoldable pub contains_dict : List (Object × Object) → Call → Checked
  unfolding check
  contains_dict dct call = check py hamcrest item fuel field (value_contains_dict dct) call

  unfoldable pub startswith : Text → Call → Checked
  unfolding check
  startswith value call = check py hamcrest item fuel field (value_starts_with value) call

  unfoldable pub endswith : Text → Call → Checked
  unfolding check
  endswith value call = check py hamcrest item fuel field (value_ends_with value) call

  unfoldable pub empty : Call → Checked
  unfolding check
  empty call = check py hamcrest item fuel field value_is_empty call

  unfoldable pub not_empty : Call → Checked
  unfolding check
  not_empty call = check py hamcrest item fuel field value_is_not_empty call

  unfoldable pub has_date : Object → Call → Checked
  unfolding check
  has_date value call = check py hamcrest item fuel field (value_date_equal value) call

  unfoldable pub has_date_greater : Object → Call → Checked
  unfolding check
  has_date_greater value call = check py hamcrest item fuel field (value_date_greater value) call

  unfoldable pub has_date_lesser : Object → Call → Checked
  unfolding check
  has_date_lesser value call = check py hamcrest item fuel field (value_date_lesser value) call

  unfoldable pub is_in : Object → Call → Checked
  unfolding check
  is_in value call = check py hamcrest item fuel field (value_is_in value) call

  unfoldable pub is_not_in : Object → Call → Checked
  unfolding check
  is_not_in value call = check py hamcrest item fuel field (value_is_not_in value) call

  unfoldable pub is_subset : Object → Call → Checked
  unfolding check
  is_subset value call = check py hamcrest item fuel field (value_is_subset value) call

  unfoldable pub is_disjoint : Object → Call → Checked
  unfolding check
  is_disjoint value call = check py hamcrest item fuel field (value_is_disjoint value) call

  unfoldable pub is_intersect : Object → Call → Checked
  unfolding check
  is_intersect value call = check py hamcrest item fuel field (value_is_intersect value) call
