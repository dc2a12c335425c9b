-- ===== src/Matchcrest/Values/Dates.antt =====
-- The date matchers of matchcrest/matchers/value.py: one round of their loops.
use goga_tool_pybuggy.Prelude.{Bool, [], ◌∷◌, Result, ok, ◌>>=◌, if◌then◌else◌}
use goga_tool_pybuggy.Matchcrest.Python.{Python, Raised}
use goga_tool_pybuggy.Matchcrest.Url.{date_to_timestamp}
use goga_tool_pybuggy.Matchcrest.Verdict.{Mismatch, differs, not_date, equals, smaller, greater}
use goga_tool_pybuggy.Matchcrest.Values.{Round, missed, Rounds, judged, unless_hit}

module _ (py : Python) (any_one : Bool) where
  open py use {Object, eq, ne, gt, ge, lt, le}

  -- `if not isinstance(value, date): ...; continue`, and the two timestamps
  unfoldable pub with_timestamps :
      Object
      → Object
      → (Object → Object → Result Raised (Round (Mismatch Object)))
      → Result Raised (Round (Mismatch Object))
  unfolding date_to_timestamp
  with_timestamps expected value next =
      if py.is_date value
      then (date_to_timestamp py value >>= λ current_datetime.
          date_to_timestamp py expected >>= λ expected_datetime.
          next current_datetime expected_datetime)
      else ok (missed (not_date value ∷ []))

  unfoldable pub date_equal_round : Object → Rounds py
  unfolding with_timestamps
  date_equal_round expected value = with_timestamps expected value λ current target.
      ok (judged py any_one (eq current target) (ne current target) (differs value))

  unfoldable pub date_greater_round : Object → Rounds py
  unfolding with_timestamps unless_hit
  date_greater_round expected value = with_timestamps expected value λ current target.
      gt current target >>= λ good.
      unless_hit py any_one good (le current target)
        (if eq current target then equals value else smaller value)

  unfoldable pub date_lesser_round : Object → Rounds py
  unfolding with_timestamps unless_hit
  date_lesser_round expected value = with_timestamps expected value λ current target.
      lt current target >>= λ good.
      unless_hit py any_one good (ge current target)
        (if eq current target then equals value else greater value)
