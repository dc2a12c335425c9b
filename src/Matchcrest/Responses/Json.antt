-- ===== src/Matchcrest/Responses/Json.antt =====
-- What the matchers of a JSON document in matchcrest/matchers/response.py decide.
use goga_tool_pybuggy.Prelude.{
  String, Bool, true, false, Option, none, some, List, [], ◌∷◌, ◌≡◌, ◌≢◌, ◌↔◌, refl, ok, arith, inl,
  inr, Bool-cases, Option-cases, any,
}
use goga_tool_pybuggy.Prelude.Text.{Text, codes, contains}
use goga_tool_pybuggy.Value.{Value, get, elements}
use goga_tool_pybuggy.Matchcrest.Verdict.{passed, match_result}
use goga_tool_pybuggy.Matchcrest.Responses.{
  Outcome, as_fields, is_str, descend, contains_keys, assert_contains_key,
}

-- The value under a path of keys: every value on the way is a dict.
abbrev pub under : Option Value → List String → Option Value
under (some (Value.dict d)) (name ∷ names) = under (get name d) names
under (some v) [] = some v
under (some v) (name ∷ names) = none
under none names = none

abbrev pub is_there : Option Value → Bool
is_there none = false
is_there (some v) = true

-- Without a way down the matcher does not pass and the path is not there.
stops :
    (r : Outcome) (o : Option Value)
    → r ≢ ok passed
    → o ≡ none
    → (r ≡ ok passed) ↔ (is_there o ≡ true)
stops r o p q = (λ h. absurd (p h), λ h. absurd (ground arith))

contains_keys-under :
    (names : List String) (key : Text) (value : Value)
    → (contains_keys names key value ≡ ok passed) ↔ (is_there (under (some value) names) ≡ true)
unfolding contains_keys descend match_result
contains_keys-under [] key value = ground arith
contains_keys-under (name ∷ names) key (Value.dict d) = elim (Option-cases (get name d)) [
  | inl e ↦ rw (e, under) (stops _ none (λ h. cc) refl)
  | inr (v, e) ↦ rw (e, under) (contains_keys-under names key v)
]
contains_keys-under (name ∷ names) key (Value.list l) =
    elim (Bool-cases (any (is_str name) (elements l))) [
      | inl e ↦ rw e (stops _ _ (λ h. cc) refl)
      | inr e ↦ rw e (stops _ _ (λ h. cc) refl)
    ]
contains_keys-under (name ∷ names) key (Value.str s) =
    elim (Bool-cases (contains (codes name) (codes s))) [
      | inl e ↦ rw e (stops _ _ (λ h. cc) refl)
      | inr e ↦ rw e (stops _ _ (λ h. cc) refl)
    ]
contains_keys-under (name ∷ names) key Value.null = stops _ _ (λ h. cc) refl
contains_keys-under (name ∷ names) key (Value.bool b) = stops _ _ (λ h. cc) refl
contains_keys-under (name ∷ names) key (Value.int n) = stops _ _ (λ h. cc) refl
contains_keys-under (name ∷ names) key (Value.float x) = stops _ _ (λ h. cc) refl

-- The matcher of a path of keys passes exactly on the documents that hold the path, with a dict
-- at each step; a document that is no dict counts as an empty one.
pub assert_contains_key-under :
    (names : List String) (key : Text) (value : Value)
    → (assert_contains_key names key value ≡ ok passed)
      ↔ (is_there (under (some (Value.dict (as_fields value))) names) ≡ true)
unfolding assert_contains_key
assert_contains_key-under names key value =
    contains_keys-under names key (Value.dict (as_fields value))
