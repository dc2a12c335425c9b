-- ===== src/Matchcrest/Values.antt =====
-- The value matchers of matchcrest/matchers/value.py: what each does with one value.
pub mod Dates
pub mod Sets
pub mod Assert
pub mod Meets
pub mod Rounds
pub mod Decides
pub mod Loop
pub mod Quantified
use goga_tool_pybuggy.Prelude.{
  Bool, true, false, not, ◌&&◌, Option, none, some, List, [], ◌∷◌, Result, ok, err, ◌>>=◌,
  if◌then◌else◌,
}
use goga_tool_pybuggy.Prelude.Text.{Text, starts_with, ends_with}
use goga_tool_pybuggy.Matchcrest.Python.{Python, Raised}
use goga_tool_pybuggy.Matchcrest.Url.{url_is_valid, date_to_timestamp}
use goga_tool_pybuggy.Matchcrest.Verdict.{
  Mismatch, not_in, is_in, not_same, same, differs, equals, smaller, greater, wrong_length,
  invalid_url, no_match, not_dict, not_text, not_suffix, not_prefix, not_empty, empty, not_date,
  not_subset, no_intersection, not_disjoint, key_differs,
}

-- One round of the loop over the values: `return MatchResult(True)`, or these errors more.
pub data Round (E : Type 0) : Type 0 where
  hit : Round E
  missed : List E → Round E

module _ (py : Python) where
  open py use {Object, contains, is_same, eq, ne, gt, ge, lt, le}

  -- The classes, with their expected value and options.
  pub data Matcher : Type 0 where
    value_contains value_not_contains value_is_in value_is_not_in : Object → Matcher
    value_is_equal value_is_not_equal : Bool → Object → Matcher
    value_is_greater value_is_lesser : Bool → Object → Matcher
    value_length_equal value_length_greater value_length_lesser : Object → Matcher
    value_is_url : Bool → Option (List Text) → Matcher
    value_regex : (Object → Result Raised Bool) → Matcher
    value_contains_dict : List (Object × Object) → Matcher
    value_ends_with value_starts_with : Text → Matcher
    value_is_empty value_is_not_empty : Matcher
    value_date_equal value_date_greater value_date_lesser : Object → Matcher
    value_is_subset value_is_intersect value_is_disjoint : Object → Matcher

  -- `if good and self.any: return` and `if bad: errors.append(...)`
  abbrev pub judged : Bool → Bool → Bool → Mismatch Object → Round (Mismatch Object)
  judged any_one good bad message =
      if good && any_one then hit else missed (if bad then message ∷ [] else [])

  abbrev pub Rounds : Type 0
  Rounds = Object → Result Raised (Round (Mismatch Object))

  -- The loop over the expected keys: whether all agree, and the errors.
  unfoldable pub dict_loop :
      Object → List (Object × Object) → Result Raised (Bool × List (Mismatch Object))
  dict_loop value [] = ok (true, [])
  dict_loop value ((key, expected) ∷ rest) = do
    current ← py.dict_get value key
    others ← dict_loop value rest
    ok (if ne current expected then (false, key_differs value key ∷ others.1) else others)

  module _ (any_one : Bool) where
    unfoldable pub contains_round : Object → Rounds
    contains_round expected value = do
      found ← contains expected value
      ok (judged any_one found (not found) (not_in value))

    unfoldable pub not_contains_round : Object → Rounds
    not_contains_round expected value = do
      found ← contains expected value
      ok (judged any_one (not found) found (is_in value))

    unfoldable pub is_equal_round : Bool → Object → Rounds
    is_equal_round true expected value =
        ok (judged any_one (is_same expected value) (not (is_same expected value)) (not_same value))
    is_equal_round false expected value =
        ok (judged any_one (eq value expected) (ne value expected) (differs value))

    unfoldable pub is_not_equal_round : Bool → Object → Rounds
    is_not_equal_round true expected value =
        ok (judged any_one (not (is_same expected value)) (is_same expected value) (same value))
    is_not_equal_round false expected value =
        ok (judged any_one (ne value expected) (eq value expected) (equals value))

    unfoldable pub is_greater_round : Bool → Object → Rounds
    is_greater_round true expected value = do
      good ← ge value expected
      ok (judged any_one good (not good) (smaller value))
    is_greater_round false expected value = do
      good ← gt value expected
      let message = if eq value expected then equals value else smaller value
      ok (judged any_one good (not good) message)

    unfoldable pub is_lesser_round : Bool → Object → Rounds
    is_lesser_round true expected value = do
      good ← le value expected
      ok (judged any_one good (not good) (greater value))
    is_lesser_round false expected value = do
      good ← lt value expected
      let message = if eq value expected then equals value else greater value
      ok (judged any_one good (not good) message)

    unfoldable pub length_equal_round : Object → Rounds
    length_equal_round expected value = do
      length ← py.len value
      ok (judged any_one (eq expected length) (ne expected length) (wrong_length value))

    -- `if good and self.any: return`, and the comparison that is the other way round only then
    unfoldable pub unless_hit :
        Bool → Result Raised Bool → Mismatch Object → Result Raised (Round (Mismatch Object))
    unless_hit good compared message =
        if good && any_one
        then ok hit
        else (compared >>= λ bad. ok (missed (if bad then message ∷ [] else [])))

    unfoldable pub length_greater_round : Object → Rounds
    unfolding unless_hit
    length_greater_round expected value = do
      length ← py.len value
      good ← gt length expected
      unless_hit good (le length expected) (wrong_length value)

    unfoldable pub length_lesser_round : Object → Rounds
    unfolding unless_hit
    length_lesser_round expected value = do
      length ← py.len value
      good ← lt length expected
      unless_hit good (ge length expected) (wrong_length value)

    unfoldable pub is_url_round : Bool → Option (List Text) → Rounds
    unfolding url_is_valid
    is_url_round is_live protocols value = do
      good ← url_is_valid py value is_live protocols
      ok (judged any_one good (not good) (invalid_url value))

    unfoldable pub regex_round : (Object → Result Raised Bool) → Rounds
    regex_round match value = do
      good ← match value
      ok (judged any_one good (not good) (no_match value))

    unfoldable pub contains_dict_round : List (Object × Object) → Rounds
    unfolding dict_loop
    contains_dict_round expected value =
        if py.is_dict value
        then (dict_loop value expected >>= λ r. ok (if r.0 && any_one then hit else missed r.1))
        else ok (missed (not_dict value ∷ []))

    unfoldable pub ends_with_round : Text → Rounds
    unfolding ends_with
    ends_with_round expected value = elim (py.as_text value) [
      | none ↦ ok (missed (not_text value ∷ []))
      | some s ↦
          ok (judged any_one (ends_with s expected) (not (ends_with s expected)) (not_suffix value))
    ]

    unfoldable pub starts_with_round : Text → Rounds
    unfolding starts_with
    starts_with_round expected value = elim (py.as_text value) [
      | none ↦ ok (missed (not_text value ∷ []))
      | some s ↦ ok (
          judged any_one (starts_with s expected) (not (starts_with s expected)) (not_prefix value))
    ]

    unfoldable pub is_empty_round : Rounds
    is_empty_round value = do
      full ← py.truth value
      ok (judged any_one (not full) full (not_empty value))

    unfoldable pub is_not_empty_round : Rounds
    is_not_empty_round value = do
      full ← py.truth value
      ok (judged any_one full (not full) (empty value))
