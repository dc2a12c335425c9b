-- ===== src/Api/Field/Decides.antt =====
-- A check of AssertField in api/asserts/field.py against what its matcher demands.
use goga_tool_pybuggy.Prelude.{
  ℕ, ◌≡◌, refl, ap, ◌∙◌, Bool, true, false, none, some, List, ok, Done, traverse, if◌then◌else◌,
}
use goga_tool_pybuggy.Prelude.Text.{Text}
use goga_tool_pybuggy.Matchcrest.Python.{Python, assertion_error, returned, raised, and_then}
use goga_tool_pybuggy.Matchcrest.Verdict.{MatchResult, Mismatch, is_passed}
use goga_tool_pybuggy.Matchcrest.Values.{Matcher}
use goga_tool_pybuggy.Matchcrest.Values.Assert.{create, values_of, assert_item}
use goga_tool_pybuggy.Matchcrest.Values.Meets.{Lawful, meets}
use goga_tool_pybuggy.Matchcrest.Values.Decides.{Comparable}
use goga_tool_pybuggy.Matchcrest.Values.Loop.{quantified}
use goga_tool_pybuggy.Matchcrest.Values.Quantified.{Ready, assert_item-quantified}
use goga_tool_pybuggy.Matchcrest.Retry.Once.{matches_item_once}
use goga_tool_pybuggy.Api.Field.{
  Hamcrest, Item, Call, Field, polling_of, options_of, asserted_item, field_world, check,
}

module _ (py : Python) (law : Lawful py) (hamcrest : Hamcrest) (item : Item py) where
  open py use {Object}
  open item use {State}

  asserted_verdict :
      (b : Bool) (field : Field) (s : State)
      → and_then (hamcrest.assert_that (returned b s)) (λ _ s. returned field s)
        ≡ (if b then returned field s else raised assertion_error s)
  asserted_verdict true field s = rw (hamcrest.on_true s) refl
  asserted_verdict false field s = rw (hamcrest.on_false s) refl

  read_once :
      (field : Field) (m : Matcher py) (call : Call) (s : State) (r : MatchResult (Mismatch Object))
      → assert_item py (options_of field call) m (item.read s) ≡ ok r
      → asserted_item py hamcrest item (options_of field call) m s ≡ returned r s
  unfolding asserted_item
  read_once field m call s r a = rw (a, asserted_item) refl

  check_once :
      (fuel : ℕ) (field : Field) (m : Matcher py) (call : Call) (s : State)
      (r : MatchResult (Mismatch Object)) (u : Done)
      → create py (options_of field call) m ≡ ok u
      → (polling_of field call).timeout ≡ none
      → assert_item py (options_of field call) m (item.read s) ≡ ok r
      → check py hamcrest item fuel field m call s
        ≡ some (if is_passed r then returned field s else raised assertion_error s)
  unfolding check polling_of
  check_once fuel field m call s r u c timeout a =
      rw (c, check)
        (rw
          (matches_item_once (field_world py hamcrest item (options_of field call) m)
            (polling_of field call) fuel s r timeout refl (read_once field m call s r a))
          (ap some (asserted_verdict (is_passed r) field s)))

  -- A check does what it says, whatever matcher it makes, if it has no timeout, the key and the value
  -- of the field can be read, the matcher can be made, `in_array` can select the values, and the
  -- demand of the matcher has an outcome on each of them (a length is compared with a number, the
  -- operands of a set matcher are ready). Then it gives the field back, for the next check in the
  -- chain, exactly when the values meet the demand, all of them or, with `any`, one or none at all;
  -- otherwise it raises an AssertionError. The outside stays as it is.
  pub check-quantified :
      (fuel : ℕ) (field : Field) (m : Matcher py) (call : Call) (s : State) (u : Done) (key : Text)
      (v : Object) (values : List Object) (good : List Bool)
      → create py (options_of field call) m ≡ ok u
      → (polling_of field call).timeout ≡ none
      → (item.read s).key ≡ ok key
      → (item.read s).value ≡ ok v
      → Comparable py law m
      → Ready py law m v
      → values_of py (options_of field call) v ≡ ok values
      → traverse (meets py m) values ≡ ok good
      → check py hamcrest item fuel field m call s
        ≡ some (if quantified call.any good then returned field s else raised assertion_error s)
  unfolding options_of
  check-quantified fuel field m call s u key v values good c timeout k h comparable ready vs t =
      let (r, run, verdict) =
        assert_item-quantified py law (options_of field call) m (item.read s) key v values good k h
          comparable ready vs t in
      check_once fuel field m call s r u c timeout run
      ∙ ap (λ z. some (if z then returned field s else raised assertion_error s)) verdict
