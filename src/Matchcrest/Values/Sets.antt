-- ===== src/Matchcrest/Values/Sets.antt =====
-- The membership and set matchers of matchcrest/matchers/value.py: one round of their loops.
use goga_tool_pybuggy.Prelude.{Bool, not, ok, ◌>>=◌}
use goga_tool_pybuggy.Matchcrest.Python.{Python}
use goga_tool_pybuggy.Matchcrest.Verdict.{not_in, is_in, not_subset, no_intersection, not_disjoint}
use goga_tool_pybuggy.Matchcrest.Values.{Rounds, judged}

module _ (py : Python) (any_one : Bool) where
  open py use {Object, Set, contains, set_of}

  unfoldable pub is_in_round : Object → Rounds py
  is_in_round expected value = do
    found ← contains value expected
    ok (judged py any_one found (not found) (not_in value))

  unfoldable pub is_not_in_round : Object → Rounds py
  is_not_in_round expected value = do
    found ← contains value expected
    ok (judged py any_one (not found) found (is_in value))

  unfoldable pub is_subset_round : Object → Rounds py
  is_subset_round expected value = do
    value_set ← set_of value
    expected_set ← set_of expected
    let good = py.is_subset value_set expected_set
    ok (judged py any_one good (not good) (not_subset value))

  -- The set of the expected values is built before the loop.
  unfoldable pub is_intersect_round : Set → Rounds py
  is_intersect_round expected_set value = do
    value_set ← set_of value
    let good = py.intersects value_set expected_set
    ok (judged py any_one good (not good) (no_intersection value))

  unfoldable pub is_disjoint_round : Object → Rounds py
  is_disjoint_round expected value = do
    value_set ← set_of value
    expected_set ← set_of expected
    let good = py.is_disjoint value_set expected_set
    ok (judged py any_one good (not good) (not_disjoint value))
