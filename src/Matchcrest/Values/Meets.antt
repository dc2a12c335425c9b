-- ===== src/Matchcrest/Values/Meets.antt =====
-- What each matcher of matchcrest/matchers/value.py demands of one value, without the loop, and
-- when a round agrees with it.
use goga_tool_pybuggy.Prelude.{
  Bool, true, false, not, ◌&&◌, none, some, List, [], ◌∷◌, ◌≡◌, Result, ok, err, ◌>>=◌,
  if◌then◌else◌,
}
use goga_tool_pybuggy.Prelude.Text.{Text, starts_with, ends_with}
use goga_tool_pybuggy.Matchcrest.Python.{Python, Raised}
use goga_tool_pybuggy.Matchcrest.Url.{url_is_valid, date_to_timestamp}
use goga_tool_pybuggy.Matchcrest.Verdict.{Mismatch}
use goga_tool_pybuggy.Matchcrest.Values.{
  Round, hit, missed, Matcher, value_contains, value_not_contains, value_is_in, value_is_not_in,
  value_is_equal, value_is_not_equal, value_is_greater, value_is_lesser, value_length_equal,
  value_length_greater, value_length_lesser, value_is_url, value_regex, value_contains_dict,
  value_ends_with, value_starts_with, value_is_empty, value_is_not_empty, value_date_equal,
  value_date_greater, value_date_lesser, value_is_subset, value_is_intersect, value_is_disjoint,
}

abbrev pub negated : Result Raised Bool → Result Raised Bool
negated r = r >>= λ b. ok (not b)

-- What the code relies on in Python: `!=` is the negation of `==`, and numbers are ordered.
pub record Lawful (py : Python) : Type 1 where
  pub ne_eq : (a b : py.Object) → py.ne a b ≡ not (py.eq a b)
  pub IsNumber : py.Object → Type 0
  pub le_gt : (a b : py.Object) → IsNumber a → IsNumber b → py.le a b ≡ negated (py.gt a b)
  pub ge_lt : (a b : py.Object) → IsNumber a → IsNumber b → py.ge a b ≡ negated (py.lt a b)
  pub len_number : (a n : py.Object) → py.len a ≡ ok n → IsNumber n
  pub datetime_number : (a t : py.Object) → py.datetime_timestamp a ≡ ok t → IsNumber t
  pub iso_number : (a t : py.Object) → py.iso_timestamp a ≡ ok t → IsNumber t

module _ (py : Python) where
  open py use {Object, Set, contains, is_same, eq, ne, gt, ge, lt, le, set_of}

  unfoldable pub agree : Object → List (Object × Object) → Result Raised Bool
  agree value [] = ok true
  agree value ((key, expected) ∷ rest) = do
    current ← py.dict_get value key
    others ← agree value rest
    ok (eq current expected && others)

  abbrev at_dates : (Object → Object → Result Raised Bool) → Object → Object → Result Raised Bool
  at_dates compared expected value =
      if py.is_date value
      then (date_to_timestamp py value >>= λ a. date_to_timestamp py expected >>= λ b. compared a b)
      else ok false

  abbrev at_sets : (Set → Set → Bool) → Object → Object → Result Raised Bool
  at_sets compared expected value = set_of value >>= λ a. set_of expected >>= λ b. ok (compared a b)

  abbrev at_text : (Text → Bool) → Object → Result Raised Bool
  at_text test value = elim (py.as_text value) [ none ↦ ok false | some s ↦ ok (test s) ]

  unfoldable pub meets : Matcher py → Object → Result Raised Bool
  unfolding agree date_to_timestamp url_is_valid starts_with ends_with
  meets (value_contains e) v = contains e v
  meets (value_not_contains e) v = negated (contains e v)
  meets (value_is_in e) v = contains v e
  meets (value_is_not_in e) v = negated (contains v e)
  meets (value_is_equal true e) v = ok (is_same e v)
  meets (value_is_equal false e) v = ok (eq v e)
  meets (value_is_not_equal true e) v = ok (not (is_same e v))
  meets (value_is_not_equal false e) v = ok (not (eq v e))
  meets (value_is_greater true e) v = ge v e
  meets (value_is_greater false e) v = gt v e
  meets (value_is_lesser true e) v = le v e
  meets (value_is_lesser false e) v = lt v e
  meets (value_length_equal e) v = py.len v >>= λ n. ok (eq e n)
  meets (value_length_greater e) v = py.len v >>= λ n. gt n e
  meets (value_length_lesser e) v = py.len v >>= λ n. lt n e
  meets (value_is_url is_live protocols) v = url_is_valid py v is_live protocols
  meets (value_regex match) v = match v
  meets (value_contains_dict e) v = if py.is_dict v then agree v e else ok false
  meets (value_ends_with e) v = at_text (λ s. ends_with s e) v
  meets (value_starts_with e) v = at_text (λ s. starts_with s e) v
  meets value_is_empty v = negated (py.truth v)
  meets value_is_not_empty v = py.truth v
  meets (value_date_equal e) v = at_dates (λ a b. ok (eq a b)) e v
  meets (value_date_greater e) v = at_dates gt e v
  meets (value_date_lesser e) v = at_dates lt e v
  meets (value_is_subset e) v = at_sets py.is_subset e v
  meets (value_is_intersect e) v = set_of e >>= λ b. set_of v >>= λ a. ok (py.intersects a b)
  meets (value_is_disjoint e) v = at_sets py.is_disjoint e v

  -- The round ends the search on a good value if one is enough, and adds an error on a bad one.
  abbrev pub Agrees : Bool → Result Raised (Round (Mismatch Object)) → Result Raised Bool → Type 0
  Agrees any_one r (err x) = r ≡ err x
  Agrees any_one r (ok true) = r ≡ ok (if any_one then hit else missed [])
  Agrees any_one r (ok false) =
      (e : Mismatch Object) × (es : List (Mismatch Object)) × (r ≡ ok (missed (e ∷ es)))
