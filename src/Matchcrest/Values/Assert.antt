-- ===== src/Matchcrest/Values/Assert.antt =====
-- BaseValueMatcher, BaseSetValueMatcher and the `_assert` of the value matchers in
-- matchcrest/matchers/value.py. Their bodies differ in the round of the loop, and the set matchers
-- read the value first.
use goga_tool_pybuggy.Prelude.{
  Bool, true, false, not, ◌&&◌, Option, none, some, List, [], ◌∷◌, ◌++◌, Result, ok, Done, ◌>>=◌,
  ◌>>◌, raise_if, if◌then◌else◌, is_empty,
}
use goga_tool_pybuggy.Prelude.Text.{Text}
use goga_tool_pybuggy.Matchcrest.Python.{Python, Raised, value_error}
use goga_tool_pybuggy.Matchcrest.Verdict.{Mismatch, MatchResult, passed, match_result, Context}
use goga_tool_pybuggy.Matchcrest.Values.{
  Round, hit, missed, Matcher, value_contains, value_not_contains, value_is_in, value_is_not_in,
  value_is_equal, value_is_not_equal, value_is_greater, value_is_lesser, value_length_equal,
  value_length_greater, value_length_lesser, value_is_url, value_regex, value_contains_dict,
  value_ends_with, value_starts_with, value_is_empty, value_is_not_empty, value_date_equal,
  value_date_greater, value_date_lesser, value_is_subset, value_is_intersect, value_is_disjoint,
  Rounds, contains_round, not_contains_round, is_equal_round, is_not_equal_round, is_greater_round,
  is_lesser_round, length_equal_round, length_greater_round, length_lesser_round, is_url_round,
  regex_round, contains_dict_round, ends_with_round, starts_with_round, is_empty_round,
  is_not_empty_round,
}
use goga_tool_pybuggy.Matchcrest.Values.Dates.{
  date_equal_round, date_greater_round, date_lesser_round,
}
use goga_tool_pybuggy.Matchcrest.Values.Sets.{
  is_in_round, is_not_in_round, is_subset_round, is_intersect_round, is_disjoint_round,
}

-- The options that every value matcher has.
pub record Options : Type 0 where
  pub any_one : Bool
  pub in_array : Bool

-- The check of BaseValueMatcher's constructor.
unfoldable pub check_options : Options → Result Raised Done
check_options options = raise_if (options.any_one && not options.in_array) value_error

-- The loop: `errors` holds what was appended so far.
unfoldable pub values_loop :
    {A E : Type 0}
    → (A → Result Raised (Round E))
    → List E
    → List A
    → Result Raised (Option (List E))
values_loop round errors [] = ok (some errors)
values_loop round errors (value ∷ values) = round value >>= λ r. elim r [
  | hit ↦ ok none
  | missed more ↦ values_loop round (errors ++ more) values
]

module _ (py : Python) where
  open py use {Object}

  -- `current_value`: the value itself as the only one, or what it iterates over
  unfoldable pub values_of : Options → Object → Result Raised (List Object)
  values_of options value = if options.in_array then py.iterate value else ok (value ∷ [])

  -- The end of the body: `none` is the return out of the loop.
  unfoldable pub concluded :
      Text → Option (List (Mismatch Object)) → Result Raised (MatchResult (Mismatch Object))
  unfolding match_result
  concluded key none = ok passed
  concluded key (some errors) =
      if is_empty errors then match_result true [] key else match_result false errors key

  unfoldable pub run_rounds :
      Options → Rounds py → Text → Object → Result Raised (MatchResult (Mismatch Object))
  unfolding values_loop values_of concluded
  run_rounds options round key value = do
    values ← values_of options value
    found ← values_loop round [] values
    concluded key found

  -- The constructors of the set matchers.
  unfoldable pub check_iterable : Object → Result Raised Done
  check_iterable value = raise_if (not (py.is_iterable value)) value_error

  unfoldable pub create : Options → Matcher py → Result Raised Done
  unfolding check_iterable check_options
  create options (value_is_subset expected) = check_iterable expected >> check_options options
  create options (value_is_intersect expected) = check_iterable expected >> check_options options
  create options (value_is_disjoint expected) = check_iterable expected >> check_options options
  create options _ = check_options options

  -- The round of a matcher that is no set matcher; the set of `value_is_intersect` is built outside.
  unfoldable pub round_of : Bool → Matcher py → Rounds py
  unfolding contains_round not_contains_round is_equal_round is_not_equal_round is_greater_round
      is_lesser_round length_equal_round length_greater_round length_lesser_round is_url_round
      regex_round contains_dict_round ends_with_round starts_with_round is_empty_round
      is_not_empty_round date_equal_round date_greater_round date_lesser_round is_in_round
      is_not_in_round is_subset_round is_intersect_round is_disjoint_round
  round_of any_one (value_contains e) = contains_round py any_one e
  round_of any_one (value_not_contains e) = not_contains_round py any_one e
  round_of any_one (value_is_in e) = is_in_round py any_one e
  round_of any_one (value_is_not_in e) = is_not_in_round py any_one e
  round_of any_one (value_is_equal strict e) = is_equal_round py any_one strict e
  round_of any_one (value_is_not_equal strict e) = is_not_equal_round py any_one strict e
  round_of any_one (value_is_greater or_equal e) = is_greater_round py any_one or_equal e
  round_of any_one (value_is_lesser or_equal e) = is_lesser_round py any_one or_equal e
  round_of any_one (value_length_equal e) = length_equal_round py any_one e
  round_of any_one (value_length_greater e) = length_greater_round py any_one e
  round_of any_one (value_length_lesser e) = length_lesser_round py any_one e
  round_of any_one (value_is_url is_live protocols) = is_url_round py any_one is_live protocols
  round_of any_one (value_regex match) = regex_round py any_one match
  round_of any_one (value_contains_dict e) = contains_dict_round py any_one e
  round_of any_one (value_ends_with e) = ends_with_round py any_one e
  round_of any_one (value_starts_with e) = starts_with_round py any_one e
  round_of any_one value_is_empty = is_empty_round py any_one
  round_of any_one value_is_not_empty = is_not_empty_round py any_one
  round_of any_one (value_date_equal e) = date_equal_round py any_one e
  round_of any_one (value_date_greater e) = date_greater_round py any_one e
  round_of any_one (value_date_lesser e) = date_lesser_round py any_one e
  round_of any_one (value_is_subset e) = is_subset_round py any_one e
  round_of any_one (value_is_disjoint e) = is_disjoint_round py any_one e
  round_of any_one (value_is_intersect e) =
      λ value. py.set_of e >>= λ expected_set. is_intersect_round py any_one expected_set value

  -- `_assert` of the classes that extend BaseValueMatcher
  unfoldable pub value_assert :
      Options → Rounds py → Context Object → Result Raised (MatchResult (Mismatch Object))
  unfolding run_rounds
  value_assert options round item = do
    key ← item.key
    value ← item.value
    run_rounds options round key value

  -- `_assert` of those that extend BaseSetValueMatcher; `prepared` stands before the loop.
  unfoldable pub set_assert :
      Options
      → Result Raised (Rounds py)
      → Context Object
      → Result Raised (MatchResult (Mismatch Object))
  unfolding check_iterable run_rounds
  set_assert options prepared item = do
    value ← item.value
    check_iterable value
    key ← item.key
    round ← prepared
    run_rounds options round key value

  unfoldable pub assert_item :
      Options → Matcher py → Context Object → Result Raised (MatchResult (Mismatch Object))
  unfolding value_assert set_assert round_of is_intersect_round
  assert_item options (value_is_subset e) item =
      set_assert options (ok (round_of options.any_one (value_is_subset e))) item
  assert_item options (value_is_disjoint e) item =
      set_assert options (ok (round_of options.any_one (value_is_disjoint e))) item
  assert_item options (value_is_intersect e) item =
      set_assert options
        (py.set_of e >>= λ expected_set. ok (is_intersect_round py options.any_one expected_set))
        item
  assert_item options m item = value_assert options (round_of options.any_one m) item
