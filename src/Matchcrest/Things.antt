-- ===== src/Matchcrest/Things.antt =====
-- A small world of objects for the tests: numbers and arrays of numbers, compared as Python does.
use goga_tool_pybuggy.Prelude.{
  ℕ, refl, Bool, true, false, not, ◌&&◌, none, List, [], ◌∷◌, map, Result, ok, err, ◌==◌, ltb,
  length, any, all, is_empty,
}
use goga_tool_pybuggy.Matchcrest.Python.{Python, Raised, type_error}
use goga_tool_pybuggy.Matchcrest.Values.Meets.{negated, Lawful}

pub data Thing : Type 0 where
  num : ℕ → Thing
  arr : List ℕ → Thing

abbrev pub eq_list : List ℕ → List ℕ → Bool
eq_list [] [] = true
eq_list [] (n ∷ ns) = false
eq_list (m ∷ ms) [] = false
eq_list (m ∷ ms) (n ∷ ns) = m == n && eq_list ms ns

abbrev pub eq_thing : Thing → Thing → Bool
eq_thing (num m) (num n) = m == n
eq_thing (arr ms) (arr ns) = eq_list ms ns
eq_thing (num m) (arr ns) = false
eq_thing (arr ms) (num n) = false

abbrev pub less : Thing → Thing → Result Raised Bool
less (num m) (num n) = ok (ltb m n)
less (arr ms) b = err type_error
less (num m) (arr ns) = err type_error

abbrev pub among : ℕ → List ℕ → Bool
among n ns = any (λ m. m == n) ns

abbrev pub contained : Thing → Thing → Result Raised Bool
contained (num n) (arr ns) = ok (among n ns)
contained (arr ms) b = err type_error
contained (num n) (num m) = err type_error

abbrev pub on_array : {B : Type 0} → (List ℕ → B) → Thing → Result Raised B
on_array f (arr ns) = ok (f ns)
on_array f (num n) = err type_error

abbrev pub is_array : Thing → Bool
is_array (arr ns) = true
is_array (num n) = false

abbrev pub things : Python
things = record {
  Object = Thing;
  Set = List ℕ;
  contains = contained;
  is_same = eq_thing;
  eq = eq_thing;
  ne = λ a b. not (eq_thing a b);
  gt = λ a b. less b a;
  ge = λ a b. negated (less a b);
  lt = less;
  le = λ a b. negated (less b a);
  len = on_array (λ ns. num (length ns));
  truth = on_array (λ ns. not (is_empty ns));
  iterate = on_array (map num);
  is_iterable = is_array;
  as_text = λ _. none;
  is_dict = λ _. false;
  dict_get = λ _ _. err type_error;
  is_date = λ _. false;
  is_datetime = λ _. false;
  datetime_timestamp = λ _. err type_error;
  iso_timestamp = λ _. err type_error;
  set_of = on_array (λ ns. ns);
  is_subset = λ a b. all (λ n. among n b) a;
  intersects = λ a b. any (λ n. among n b) a;
  is_disjoint = λ a b. not (any (λ n. among n b) a);
  urlparse = λ _. err type_error;
  get_status = λ _. err type_error;
}

abbrev pub things-Lawful : Lawful things
things-Lawful = record {
  ne_eq = λ a b. refl;
  IsNumber = λ _. Unit;
  le_gt = λ a b _ _. refl;
  ge_lt = λ a b _ _. refl;
  len_number = λ a n _. tt;
  datetime_number = λ a t _. tt;
  iso_number = λ a t _. tt;
}
