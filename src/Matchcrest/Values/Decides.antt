-- ===== src/Matchcrest/Values/Decides.antt =====
-- Every round of matchcrest/matchers/value.py decides what its matcher demands of the value.
use goga_tool_pybuggy.Prelude.{Bool, true, false, not, refl, arith}
use goga_tool_pybuggy.Matchcrest.Python.{Python}
use goga_tool_pybuggy.Matchcrest.Values.{
  Matcher, value_contains, value_not_contains, value_is_in, value_is_not_in, value_is_equal,
  value_is_not_equal, value_is_greater, value_is_lesser, value_length_equal, value_length_greater,
  value_length_lesser, value_is_url, value_regex, value_contains_dict, value_ends_with,
  value_starts_with, value_is_empty, value_is_not_empty, value_date_equal, value_date_greater,
  value_date_lesser, value_is_subset, value_is_intersect, value_is_disjoint, dict_loop,
}
use goga_tool_pybuggy.Matchcrest.Values.Assert.{round_of}
use goga_tool_pybuggy.Matchcrest.Values.Meets.{Lawful, agree, meets, Agrees}
use goga_tool_pybuggy.Matchcrest.Values.Rounds.{
  judged-Agrees, tested-Agrees, negated-Agrees, unless_hit-Agrees, operand-Agrees, dict-Agrees,
  branch-Agrees, text-Agrees, dict_loop-DictAgrees, dates-Agrees,
}

module _ (py : Python) (law : Lawful py) where
  open py use {Object, Set, contains, is_same, eq, ne, gt, ge, lt, le, set_of}

  -- A length is compared with a number.
  abbrev pub Comparable : Matcher py → Type 0
  Comparable (value_length_greater e) = law.IsNumber e
  Comparable (value_length_lesser e) = law.IsNumber e
  Comparable _ = Unit

  pub round_of-Agrees :
      (any_one : Bool) (m : Matcher py) (v : Object)
      → Comparable m
      → Agrees py any_one (round_of py any_one m v) (meets py m v)
  unfolding round_of meets
  round_of-Agrees b (value_contains e) v c = tested-Agrees py b (contains e v) _
  round_of-Agrees b (value_not_contains e) v c = negated-Agrees py b (contains e v) _
  round_of-Agrees b (value_is_in e) v c = tested-Agrees py b (contains v e) _
  round_of-Agrees b (value_is_not_in e) v c = negated-Agrees py b (contains v e) _
  round_of-Agrees b (value_is_equal true e) v c = judged-Agrees py b b (is_same e v) _ _ refl
  round_of-Agrees b (value_is_equal false e) v c =
      judged-Agrees py b b (eq v e) (ne v e) _ (law.ne_eq v e)
  round_of-Agrees b (value_is_not_equal true e) v c =
      judged-Agrees py b b (not (is_same e v)) (is_same e v) _ (ground arith)
  round_of-Agrees b (value_is_not_equal false e) v c =
      rw (law.ne_eq v e) (judged-Agrees py b b (not (eq v e)) (eq v e) _ (ground arith))
  round_of-Agrees b (value_is_greater true e) v c = tested-Agrees py b (ge v e) _
  round_of-Agrees b (value_is_greater false e) v c = tested-Agrees py b (gt v e) _
  round_of-Agrees b (value_is_lesser true e) v c = tested-Agrees py b (le v e) _
  round_of-Agrees b (value_is_lesser false e) v c = tested-Agrees py b (lt v e) _
  round_of-Agrees b (value_length_equal e) v c =
      operand-Agrees py b (py.len v) _ _
        λ n p. judged-Agrees py b b (eq e n) (ne e n) _ (law.ne_eq e n)
  round_of-Agrees b (value_length_greater e) v c =
      operand-Agrees py b (py.len v) _ _
        λ n p. unless_hit-Agrees py b (gt n e) (le n e) _ (law.le_gt n e (law.len_number v n p) c)
  round_of-Agrees b (value_length_lesser e) v c =
      operand-Agrees py b (py.len v) _ _
        λ n p. unless_hit-Agrees py b (lt n e) (ge n e) _ (law.ge_lt n e (law.len_number v n p) c)
  round_of-Agrees b (value_is_url live protocols) v c = tested-Agrees py b _ _
  round_of-Agrees b (value_regex match) v c = tested-Agrees py b (match v) _
  round_of-Agrees b (value_contains_dict e) v c =
      branch-Agrees py b (py.is_dict v) _ _ _
        (dict-Agrees py b (dict_loop py v e) (agree py v e) (dict_loop-DictAgrees py b law v e))
  round_of-Agrees b (value_ends_with e) v c = text-Agrees py b (py.as_text v) _ _ _
  round_of-Agrees b (value_starts_with e) v c = text-Agrees py b (py.as_text v) _ _ _
  round_of-Agrees b value_is_empty v c = negated-Agrees py b (py.truth v) _
  round_of-Agrees b value_is_not_empty v c = tested-Agrees py b (py.truth v) _
  round_of-Agrees b (value_date_equal e) v c =
      dates-Agrees py b law e v _ _
        λ s t p q. judged-Agrees py b b (eq s t) (ne s t) _ (law.ne_eq s t)
  round_of-Agrees b (value_date_greater e) v c =
      dates-Agrees py b law e v _ _
        λ s t p q. unless_hit-Agrees py b (gt s t) (le s t) _ (law.le_gt s t p q)
  round_of-Agrees b (value_date_lesser e) v c =
      dates-Agrees py b law e v _ _
        λ s t p q. unless_hit-Agrees py b (lt s t) (ge s t) _ (law.ge_lt s t p q)
  round_of-Agrees b (value_is_subset e) v c = operand-Agrees py b (set_of v) _ _ λ s p.
      operand-Agrees py b (set_of e) _ _ λ t q. judged-Agrees py b b (py.is_subset s t) _ _ refl
  round_of-Agrees b (value_is_disjoint e) v c = operand-Agrees py b (set_of v) _ _ λ s p.
      operand-Agrees py b (set_of e) _ _ λ t q. judged-Agrees py b b (py.is_disjoint s t) _ _ refl
  round_of-Agrees b (value_is_intersect e) v c = operand-Agrees py b (set_of e) _ _ λ t q.
      operand-Agrees py b (set_of v) _ _ λ s p. judged-Agrees py b b (py.intersects s t) _ _ refl
