-- ===== src/Api/Field.antt =====
-- BaseAssert of api/asserts/base.py and AssertField of api/asserts/field.py: a check makes a
-- matcher and asserts the field with it.
use goga_tool_pybuggy.Prelude.{
  ◌≡◌, ℕ, Bool, true, false, Option, none, some, List, Result, ok, err, Done,
}
use goga_tool_pybuggy.Prelude.Text.{Text}
use goga_tool_pybuggy.Matchcrest.Python.{
  Python, Raised, assertion_error, Run, returned, raised, and_then,
}
use goga_tool_pybuggy.Matchcrest.Verdict.{Mismatch, unknown, MatchResult, Context}
use goga_tool_pybuggy.Matchcrest.Values.{
  Matcher, value_contains, value_not_contains, value_is_in, value_is_not_in, value_is_equal,
  value_is_not_equal, value_is_greater, value_is_lesser, value_length_equal, value_length_greater,
  value_length_lesser, value_is_url, value_regex, value_contains_dict, value_ends_with,
  value_starts_with, value_is_empty, value_is_not_empty, value_date_equal, value_date_greater,
  value_date_lesser, value_is_subset, value_is_intersect, value_is_disjoint,
}
use goga_tool_pybuggy.Matchcrest.Values.Assert.{Options, create, assert_item}
use goga_tool_pybuggy.Matchcrest.Retry.{World, Polling, Attempt, matches_item, fresh}
pub mod Checks
pub mod Decides

-- PyHamcrest's `assert_that(item, matcher)`, from what `matcher.matches(item)` does.
pub record Hamcrest : Type 1 where
  pub assert_that : {S : Type 0} → Run S Bool → Run S Done
  pub on_true : {S : Type 0} (s : S) → assert_that (returned true s) ≡ returned tt s
  pub on_false : {S : Type 0} (s : S) → assert_that (returned false s) ≡ raised assertion_error s
  pub on_raised : {S : Type 0} (e : Raised) (s : S) → assert_that (raised e s) ≡ raised e s

-- The context of a field in a world of responses: it is read, and updated for another attempt.
pub record Item (py : Python) : Type 1 where
  pub State : Type 0
  pub time : State → ℕ × State
  pub sleep : ℕ → State → State
  pub update : State → Run State Done
  pub read : State → Context py.Object

-- `any`, `timeout` and `delay` of a check; the reason only goes into a message.
pub record Call : Type 0 where
  pub any : Bool
  pub timeout : Option ℕ
  pub delay : Option ℕ

-- The baseline of an AssertField.
pub record Field : Type 0 where
  pub in_array : Bool
  pub timeout : Option ℕ
  pub delay : Option ℕ

abbrev pub or_baseline : Option ℕ → Option ℕ → Option ℕ
or_baseline none baseline = baseline
or_baseline (some t) baseline = some t

-- The keyword arguments that `_create_matcher` passes on.
unfoldable pub polling_of : Field → Call → Polling
polling_of field call = record {
  proofs = none;
  timeout = or_baseline call.timeout field.timeout;
  delay = or_baseline call.delay field.delay;
}

unfoldable pub options_of : Field → Call → Options
options_of field call = record { any_one = call.any; in_array = field.in_array }

module _ (py : Python) (hamcrest : Hamcrest) (item : Item py) where
  open py use {Object}
  open item use {State}

  unfoldable pub asserted_item :
      Options → Matcher py → State → Run State (MatchResult (Mismatch Object))
  asserted_item options m s = elim (assert_item py options m (item.read s)) [
    | ok r ↦ returned r s
    | err e ↦ raised e s
  ]

  -- What the matcher sees of the outside.
  unfoldable pub field_world : Options → Matcher py → World
  field_world options m = record {
    State = State;
    Error = Mismatch Object;
    unknown_error = unknown;
    time = item.time;
    sleep = item.sleep;
    update = item.update;
    assert_item = asserted_item options m;
  }

  abbrev pub run_attempt : {w : World} → Run (Attempt w) Bool → Run w.State Bool
  run_attempt (returned b a) = returned b a.world
  run_attempt (raised e a) = raised e a.world

  -- A check of the field, on fuel for its polling: it makes the matcher, asserts, and gives the field.
  unfoldable pub check : ℕ → Field → Matcher py → Call → State → Option (Run State Field)
  unfolding field_world
  check fuel field m call s = elim (create py (options_of field call) m) [
    | err e ↦ some (raised e s)
    | ok _ ↦
        elim (matches_item (field_world (options_of field call) m) (polling_of field call) fuel
          (fresh (field_world (options_of field call) m) s)) [
            | none ↦ none
            | some r ↦
                some (and_then (hamcrest.assert_that (run_attempt r)) λ _ s. returned field s)
          ]
  ]
