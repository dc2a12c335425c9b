-- ===== src/Matchcrest/Python.antt =====
-- Python's objects, as far as the matchers of matchcrest/matchers use them: a parameter.
use goga_tool_pybuggy.Prelude.{◌≡◌, refl, ◌⊎◌, inl, inr, ℕ, String, Bool, List, Option, Result}
use goga_tool_pybuggy.Prelude.Text.{Text}

-- The exceptions that the code raises or names itself, and any other by its class.
pub data Raised : Type 0 where
  assertion_error type_error value_error timeout_error : Raised
  other : String → Raised

-- How a call ends, and the state that it leaves.
pub data Run (S A : Type 0) : Type 0 where
  returned : A → S → Run S A
  raised : Raised → S → Run S A

-- The state that a call leaves.
abbrev pub left : {S A : Type 0} → Run S A → S
left (returned x s) = s
left (raised e s) = s

abbrev pub and_then : {S A B : Type 0} → Run S A → (A → S → Run S B) → Run S B
and_then (returned x s) next = next x s
and_then (raised e s) next = raised e s

pub Run-cases :
    {S A : Type 0} (r : Run S A)
    → ((x : A) × (s : S) × (r ≡ returned x s)) ⊎ ((e : Raised) × (s : S) × (r ≡ raised e s))
Run-cases (returned x s) = inl (x, s, refl)
Run-cases (raised e s) = inr (e, s, refl)

-- `urlparse(url)`, as far as the code reads it.
pub record Url : Type 0 where
  pub scheme : Text
  pub netloc : Text

-- The operators and functions of the language and of its library. A call that may raise gives a
-- `Result`.
pub record Python : Type 1 where
  pub Object : Type 0
  pub Set : Type 0
  -- `x in y`, `x is y`, `x == y` and `x != y`
  pub contains : Object → Object → Result Raised Bool
  pub is_same : Object → Object → Bool
  pub eq : Object → Object → Bool
  pub ne : Object → Object → Bool
  pub gt : Object → Object → Result Raised Bool
  pub ge : Object → Object → Result Raised Bool
  pub lt : Object → Object → Result Raised Bool
  pub le : Object → Object → Result Raised Bool
  -- `len(x)` as an object, `bool(x)`, `list(x)`, `isinstance(x, Iterable)`
  pub len : Object → Result Raised Object
  pub truth : Object → Result Raised Bool
  pub iterate : Object → Result Raised (List Object)
  pub is_iterable : Object → Bool
  -- `isinstance(x, str)` with the text, `isinstance(x, dict)`, `x.get(key)`
  pub as_text : Object → Option Text
  pub is_dict : Object → Bool
  pub dict_get : Object → Object → Result Raised Object
  -- `isinstance(x, date)`, `isinstance(x, datetime)`, `x.timestamp()` of a datetime, and the
  -- timestamp of the ISO text of a date
  pub is_date : Object → Bool
  pub is_datetime : Object → Bool
  pub datetime_timestamp : Object → Result Raised Object
  pub iso_timestamp : Object → Result Raised Object
  -- `set(x)` and its operations
  pub set_of : Object → Result Raised Set
  pub is_subset : Set → Set → Bool
  pub intersects : Set → Set → Bool
  pub is_disjoint : Set → Set → Bool
  -- `urlparse(x)`, and the status code that `requests.get` of a text gives
  pub urlparse : Object → Result Raised Url
  pub get_status : Text → Result Raised ℕ
